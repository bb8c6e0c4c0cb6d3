-- ===== src/Ingest/Gap/Counted.antt =====
-- The counters of crates/coldbore-ingest/src/gap.rs against the changes that it reports.
use cold_bore.Base.{
  ℕ, ◌+◌, ◌%◌, ◌<◌, ◌≡◌, inl, inr, ◌&&◌, List, [], ◌∷◌, Option, none, some, Bool-cases, ltb, ◌==◌,
  if◌then◌else◌, arith, add64, u64_mod,
}
use cold_bore.Ingest.Gap.{
  GapChange, opened, healed, GapRange, WellGaps, GapTracker, Count, add_opened, add_healed,
  start_well, containing, jump, heals, fill, late, arrive, observe_well, observe,
}

-- How many of the changes are of each kind.
abbrev pub opened_in : List GapChange → ℕ
opened_in [] = 0
opened_in (opened _ _ _ _ ∷ cs) = 1 + opened_in cs
opened_in (healed _ _ _ _ _ ∷ cs) = opened_in cs

abbrev pub healed_in : List GapChange → ℕ
healed_in [] = 0
healed_in (opened _ _ _ _ ∷ cs) = healed_in cs
healed_in (healed _ _ _ _ _ ∷ cs) = 1 + healed_in cs

-- What is counted is what is reported.
abbrev Tallied : Count × List GapChange → Type 0
Tallied (count, changes) =
    (n : ℕ)
    → n < u64_mod
    → (add_opened count n ≡ (n + opened_in changes) % u64_mod)
      × (add_healed count n ≡ (n + healed_in changes) % u64_mod)

nothing-Tallied : (n : ℕ) → n < u64_mod → (n ≡ (n + 0) % u64_mod) × (n ≡ (n + 0) % u64_mod)
nothing-Tallied n small = (omega (arith, small), omega (arith, small))

heals-Tallied :
    (pad well seq start : ℕ) (r : GapRange) (now : ℕ) → Tallied (heals pad well seq start r now)
unfolding heals add64
heals-Tallied pad well seq start r now n small = elim (Bool-cases (start == seq && r.end == seq)) [
  | inl e ↦ rw e (omega (arith, small), omega arith)
  | inr e ↦ rw e (nothing-Tallied n small)
]

fill-Tallied :
    (pad well : ℕ) (w : WellGaps) (seq now : ℕ) (o : Option (ℕ × GapRange))
    → let (_, count, changes) = fill pad well w seq now o in Tallied (count, changes)
unfolding fill
fill-Tallied pad well w seq now none n small = nothing-Tallied n small
fill-Tallied pad well w seq now (some (start, r)) n small =
    heals-Tallied pad well seq start r now n small

jump-Tallied :
    (pad well : ℕ) (w : WellGaps) (seq now : ℕ)
    → let (_, count, changes) = jump pad well w seq now in Tallied (count, changes)
unfolding jump add64
jump-Tallied pad well w seq now n small = (omega arith, omega (arith, small))

arrive-Tallied :
    (pad well : ℕ) (w : WellGaps) (seq now : ℕ)
    → let (_, count, changes) = arrive pad well w seq now in Tallied (count, changes)
unfolding arrive late
arrive-Tallied pad well w seq now n small = elim (Bool-cases (seq == w.next_expected)) [
  | inl e ↦ rw e (nothing-Tallied n small)
  | inr e ↦ rw e (elim (Bool-cases (ltb w.next_expected seq)) [
    | inl e' ↦ rw e' (jump-Tallied pad well w seq now n small)
    | inr e' ↦ rw e' (fill-Tallied pad well w seq now (containing seq w.open_ranges) n small)
  ])
]

observe_well-Tallied :
    (pad well : ℕ) (w : WellGaps) (epoch seq now : ℕ)
    → let (_, count, changes) = observe_well pad well w epoch seq now in Tallied (count, changes)
unfolding observe_well
observe_well-Tallied pad well w epoch seq now n small = elim (Bool-cases (ltb epoch w.epoch)) [
  | inl e ↦ rw e (nothing-Tallied n small)
  | inr e ↦ rw e (
      arrive-Tallied pad well (if ltb w.epoch epoch then start_well epoch 1 else w) seq now n small)
]

-- What one call of `observe` adds to the two counters, by the changes that it reports.
pub observe-counted :
    (t : GapTracker) (pad well epoch seq now : ℕ)
    → t.opened < u64_mod
    → t.healed < u64_mod
    → let (t', changes) = observe t pad well epoch seq now in
      (t'.opened ≡ (t.opened + opened_in changes) % u64_mod)
      × (t'.healed ≡ (t.healed + healed_in changes) % u64_mod)
unfolding observe
observe-counted t pad well epoch seq now small_o small_h =
    let tally = observe_well-Tallied pad well _ epoch seq now in
    ((tally t.opened small_o).0, (tally t.healed small_h).1)
