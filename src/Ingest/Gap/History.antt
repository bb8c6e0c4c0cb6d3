-- ===== src/Ingest/Gap/History.antt =====
-- Histories of the whole tracker of crates/coldbore-ingest/src/gap.rs, newest call first: wells do
-- not disturb one another, and each well's open ranges are what its newest generation lost.
use cold_bore.Base.{
  ℕ, ◌+◌, ◌≤◌, ◌<◌, ◌≡◌, refl, sym, ap, subst, subst₂, inl, inr, ◌∙◌, true, false, List, [], ◌∷◌,
  Option, none, some, Bool-cases, if◌then◌else◌, length, All, arith, u64_mod, add64_exact,
}
use cold_bore.Base.Map.{find, find-put, same}
use cold_bore.Ingest.Gap.{
  WellGaps, GapTracker, new, observe, observe_well, entry_or, start_well, seed,
}
use cold_bore.Ingest.Gap.Well.{IsValid, missing}
use cold_bore.Ingest.Gap.Arrivals.{
  Seen, after, after-Faithful, Faithful, InRange, top, expected, floor, lost,
}

-- A call of `observe`.
pub record Obs : Type 0 where
  pub pad : ℕ
  pub well : ℕ
  pub arrival : Seen

unfoldable pub run : GapTracker → List Obs → GapTracker
run t [] = t
run t (o ∷ os) = (observe (run t os) o.pad o.well o.arrival.epoch o.arrival.seq o.arrival.now).0

-- The calls for one well.
abbrev pub seen : ℕ × ℕ → List Obs → List Seen
seen k [] = []
seen k (o ∷ os) = if same k (o.pad, o.well) then o.arrival ∷ seen k os else seen k os

-- One well alone, from what the map holds of it at first.
pub alone : ℕ → ℕ → Option WellGaps → List Seen → Option WellGaps
alone pad well start [] = start
alone pad well start (o ∷ os) =
    some
      (observe_well pad well (entry_or (start_well o.epoch 1) (alone pad well start os)) o.epoch
        o.seq o.now).0

find-observe_self :
    (t : GapTracker) (pad well epoch seq now : ℕ)
    → find (pad, well) (observe t pad well epoch seq now).0.wells
      ≡ some
          (observe_well pad well
            (entry_or (start_well epoch 1) (find (pad, well) t.wells))
            epoch
            seq
            now).0
unfolding observe
find-observe_self t pad well epoch seq now =
    let w =
      (observe_well pad well (entry_or (start_well epoch 1) (find (pad, well) t.wells)) epoch seq
        now).0 in
    find-put (pad, well) (pad, well) w t.wells ∙ ground arith

find-observe_other :
    (t : GapTracker) (k : ℕ × ℕ) (pad well epoch seq now : ℕ)
    → same k (pad, well) ≡ false
    → find k (observe t pad well epoch seq now).0.wells ≡ find k t.wells
unfolding observe
find-observe_other t k pad well epoch seq now e =
    let w =
      (observe_well pad well (entry_or (start_well epoch 1) (find (pad, well) t.wells)) epoch seq
        now).0 in
    find-put k (pad, well) w t.wells ∙ rw e

-- Each well of the tracker is as if it were alone.
pub find-run :
    (t : GapTracker) (pad well : ℕ) (os : List Obs)
    → find (pad, well) (run t os).wells
      ≡ alone pad well (find (pad, well) t.wells) (seen (pad, well) os)
unfolding run alone
find-run t pad well [] = refl
find-run t pad well (o ∷ os) = elim (Bool-cases (same (pad, well) (o.pad, o.well))) [
  | inl e ↦
      let ep : o.pad ≡ pad = ground arith in
      let ew : o.well ≡ well = ground arith in
      rw (e, ep, ew)
        (find-observe_self (run t os) pad well o.arrival.epoch o.arrival.seq o.arrival.now
          ∙ rw (find-run t pad well os))
  | inr e ↦ rw e (find-observe_other (run t os) (pad, well) _ _ _ _ _ e ∙ find-run t pad well os)
]

-- The generation of the well's first call.
abbrev pub first_epoch : List Seen → ℕ
first_epoch [] = 0
first_epoch (o ∷ []) = o.epoch
first_epoch (o ∷ o' ∷ os) = first_epoch (o' ∷ os)

alone_new :
    (pad well : ℕ) (o : Seen) (os : List Seen)
    → alone pad well none (o ∷ os) ≡ some (after pad well (first_epoch (o ∷ os)) 1 (o ∷ os))
unfolding alone after
alone_new pad well o [] = refl
alone_new pad well o (o' ∷ os) =
    ap (λ w. some (observe_well pad well (entry_or (start_well o.epoch 1) w) o.epoch o.seq o.now).0)
      (alone_new pad well o' os)

alone_known :
    (pad well epoch base : ℕ) (os : List Seen)
    → alone pad well (some (start_well epoch base)) os ≡ some (after pad well epoch base os)
unfolding alone after
alone_known pad well epoch base [] = refl
alone_known pad well epoch base (o ∷ os) =
    ap (λ w. some (observe_well pad well (entry_or (start_well o.epoch 1) w) o.epoch o.seq o.now).0)
      (alone_known pad well epoch base os)

floor_one : (epoch : ℕ) (os : List Seen) → floor epoch 1 os ≡ 1
floor_one epoch os = ground arith

alone-Faithful :
    (pad well : ℕ) (os : List Seen) (w : WellGaps)
    → alone pad well none os ≡ some w
    → All InRange os
    → length os < u64_mod
    → Faithful 1 (top (first_epoch os) os) os w
unfolding alone
alone-Faithful pad well [] w e r n = cc
alone-Faithful pad well (o ∷ os) w e r n =
    let first = first_epoch (o ∷ os) in
    let same_well : after pad well first 1 (o ∷ os) ≡ w = cc (alone_new pad well o os) in
    subst₂ (λ b v. Faithful b (top first (o ∷ os)) (o ∷ os) v) (floor_one first (o ∷ os)) same_well
      (after-Faithful pad well first 1 (o ∷ os) r n)

-- The newest generation of a well in a history.
abbrev pub newest : List Seen → ℕ
newest os = top (first_epoch os) os

well-Faithful :
    (pad well : ℕ) (os : List Obs) (w : WellGaps)
    → find (pad, well) (run new os).wells ≡ some w
    → All InRange (seen (pad, well) os)
    → length (seen (pad, well) os) < u64_mod
    → Faithful 1 (newest (seen (pad, well) os)) (seen (pad, well) os) w
unfolding find
well-Faithful pad well os w e r n =
    alone-Faithful pad well (seen (pad, well) os) w (sym (find-run new pad well os) ∙ e) r n

-- Take a new tracker through any history of arrivals, of any wells and generations and in any order,
-- fewer than 2 ^ 64 of them at a well and with sequence numbers below 2 ^ 64 - 1. If no gap of a
-- well went untracked, then a number is in one of the well's open ranges exactly if it lies between
-- 1 and the greatest number of the well's newest generation that arrived, and did not arrive in that
-- generation.
pub missing-lost :
    (pad well : ℕ) (os : List Obs) (w : WellGaps)
    → find (pad, well) (run new os).wells ≡ some w
    → All InRange (seen (pad, well) os)
    → length (seen (pad, well) os) < u64_mod
    → w.untracked ≡ 0
    → (s : ℕ) → missing s w ≡ lost 1 (newest (seen (pad, well) os)) (seen (pad, well) os) s
missing-lost pad well os w e r n z s = (well-Faithful pad well os w e r n).exact s z

-- In the same histories, also where the table was full and gaps went untracked: whatever the well
-- reports as missing was lost, the ranges are sorted, disjoint, non-empty and below the watermark,
-- and the watermark is one more than the greatest number that arrived in the newest generation.
pub missing_sound :
    (pad well : ℕ) (os : List Obs) (w : WellGaps)
    → find (pad, well) (run new os).wells ≡ some w
    → All InRange (seen (pad, well) os)
    → length (seen (pad, well) os) < u64_mod
    → ((s : ℕ)
        → missing s w ≡ true
        → lost 1 (newest (seen (pad, well) os)) (seen (pad, well) os) s ≡ true)
      × IsValid 1 w
      × (w.next_expected ≡ expected 1 (newest (seen (pad, well) os)) (seen (pad, well) os))
missing_sound pad well os w e r n =
    let f = well-Faithful pad well os w e r n in (f.sound, f.valid, f.watermark)

find-seed :
    (t : GapTracker) (pad well epoch max_seq : ℕ)
    → find (pad, well) t.wells ≡ none
    → max_seq + 1 < u64_mod
    → find (pad, well) (seed t pad well epoch max_seq).wells ≡ some (start_well epoch (max_seq + 1))
unfolding seed
find-seed t pad well epoch max_seq e b =
    find-put (pad, well) (pad, well) _ t.wells ∙ ground (arith, add64_exact max_seq 1)

seeded-Faithful :
    (t : GapTracker) (pad well epoch max_seq : ℕ) (os : List Obs) (w : WellGaps)
    → find (pad, well) t.wells ≡ none
    → find (pad, well) (run (seed t pad well epoch max_seq) os).wells ≡ some w
    → All InRange (seen (pad, well) os)
    → length (seen (pad, well) os) < u64_mod
    → max_seq + 1 < u64_mod
    → let calls = seen (pad, well) os in
      Faithful (floor epoch (max_seq + 1) calls) (top epoch calls) calls w
seeded-Faithful t pad well epoch max_seq os w unknown e r n b =
    let calls = seen (pad, well) os in
    let known = find-seed t pad well epoch max_seq unknown b in
    let alone_eq =
      find-run (seed t pad well epoch max_seq) pad well os
      ∙ ap (λ o. alone pad well o calls) known
      ∙ alone_known pad well epoch (max_seq + 1) calls in
    let same_well : after pad well epoch (max_seq + 1) calls ≡ w = cc alone_eq in
    subst (λ v. Faithful (floor epoch (max_seq + 1) calls) (top epoch calls) calls v) same_well
      (after-Faithful pad well epoch (max_seq + 1) calls r n)

-- A well that the tracker did not know is seeded with the greatest number in the durable store. Then
-- after any history in which no newer generation shows up, nothing that the store already holds is
-- reported missing.
pub seed_no_phantom :
    (t : GapTracker) (pad well epoch max_seq : ℕ) (os : List Obs) (w : WellGaps)
    → find (pad, well) t.wells ≡ none
    → find (pad, well) (run (seed t pad well epoch max_seq) os).wells ≡ some w
    → All InRange (seen (pad, well) os)
    → length (seen (pad, well) os) < u64_mod
    → max_seq + 1 < u64_mod
    → top epoch (seen (pad, well) os) ≡ epoch
    → (s : ℕ) → s ≤ max_seq
    → missing s w ≡ false
seed_no_phantom t pad well epoch max_seq os w unknown e r n b same_epoch s h =
    let calls = seen (pad, well) os in
    let f = seeded-Faithful t pad well epoch max_seq os w unknown e r n b in
    let starts : floor epoch (max_seq + 1) calls ≡ max_seq + 1 = ground (arith, same_epoch) in
    elim (Bool-cases (missing s w)) [
      | inl m ↦ absurd (ground (arith, f.sound s m, starts))
      | inr m ↦ m
    ]
