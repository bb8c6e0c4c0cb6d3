-- ===== src/Ingest/Consume/Seeded.antt =====
-- The start of a session in crates/coldbore-ingest/src/consume.rs and consume_stream.rs: the gap tracker
-- is seeded from what sink.rs answers of the table.
use cold_bore.Base.{
  ℕ, ◌<◌, ◌^◌, ◌≤◌, ◌≡◌, refl, sym, ap, ◌∙◌, Bool, true, false, List, [], ◌∷◌, Option, none, some,
  if◌then◌else◌, ◌||◌, All, All-weaken, Bool-cases, Option-cases, inl, inr, length, arith, u64_mod,
  add64,
}
use cold_bore.Base.Map.{same, find, find-put}
use cold_bore.Ingest.Sink.{Row}
use cold_bore.Ingest.Sink.Watermarks.{
  Mark, Positive, greatest, Bounded, greatest-Bounded, of_well, of_epoch, well_mark, add_well,
  well_keys, marks_of, watermarks,
}
use cold_bore.Ingest.Gap.{WellGaps, GapTracker, start_well, entry_or, seed}
use cold_bore.Ingest.Gap.Well.{missing}
use cold_bore.Ingest.Gap.Arrivals.{InRange, top}
use cold_bore.Ingest.Gap.History.{Obs, run, seen, find-run, alone, seed_no_phantom}
use cold_bore.Ingest.Consume.{seed_all}

-- What the marks say of a well.
abbrev pub mark_for : ℕ × ℕ → List Mark → Option WellGaps
mark_for k [] = none
mark_for k ((pad, well, epoch, max_seq) ∷ marks) =
    if same k (pad, well) then some (start_well epoch (add64 max_seq 1)) else mark_for k marks

abbrev or_first : Option WellGaps → Option WellGaps → Option WellGaps
or_first (some w) o = some w
or_first none o = o

find-seed :
    (k : ℕ × ℕ) (t : GapTracker) (pad well epoch max_seq : ℕ) (marks : List Mark)
    → or_first (find k (seed t pad well epoch max_seq).wells) (mark_for k marks)
      ≡ or_first (find k t.wells) (mark_for k ((pad, well, epoch, max_seq) ∷ marks))
unfolding seed
find-seed (p, w) t pad well epoch max_seq marks =
    let v = entry_or (start_well epoch (add64 max_seq 1)) (find (pad, well) t.wells) in
    elim (Bool-cases (same (p, w) (pad, well))) [
      | inl e ↦
          let ep : p ≡ pad = ground arith in
          let ew : w ≡ well = ground arith in
          rw (find-put (p, w) (pad, well) v t.wells)
            (rw e (rw (ep, ew) (known (find (pad, well) t.wells))))
      | inr e ↦ rw (find-put (p, w) (pad, well) v t.wells) (rw e refl)
    ]
  where
    known :
        (o : Option WellGaps)
        → some (entry_or (start_well epoch (add64 max_seq 1)) o)
          ≡ or_first o (some (start_well epoch (add64 max_seq 1)))
    known none = refl
    known (some u) = refl

-- A well that the tracker knows keeps its accounting; another starts at its mark.
find-seed_all :
    (k : ℕ × ℕ) (marks : List Mark) (t : GapTracker)
    → find k (seed_all marks t).wells ≡ or_first (find k t.wells) (mark_for k marks)
unfolding seed_all
find-seed_all k [] t = none_last (find k t.wells)
  where
    none_last : (o : Option WellGaps) → o ≡ or_first o none
    none_last none = refl
    none_last (some u) = refl
find-seed_all k ((pad, well, epoch, max_seq) ∷ marks) t =
    find-seed_all k marks (seed t pad well epoch max_seq)
    ∙ find-seed k t pad well epoch max_seq marks

abbrev has : ℕ × ℕ → List (ℕ × ℕ) → Bool
has k [] = false
has k (j ∷ js) = same k j || has k js

has-add_well : (k j : ℕ × ℕ) (js : List (ℕ × ℕ)) → has k (add_well j js) ≡ (same k j || has k js)
unfolding add_well
has-add_well (a, b) (c, d) [] = refl
has-add_well (a, b) (c, d) ((e, f) ∷ js) = ground (arith, has-add_well (a, b) (c, d) js)

well_keys-has :
    (k : ℕ × ℕ) (key : Row → ℕ) (rows : List Row) (m : ℕ)
    → greatest (of_well k) key rows ≡ some m
    → has k (well_keys rows) ≡ true
unfolding well_keys greatest
well_keys-has k key [] m h = cc
well_keys-has k key (r ∷ rows) m h =
    has-add_well k (r.pad_id, r.well_id) (well_keys rows) ∙ elim (Bool-cases (of_well k r)) [
      | inl p ↦ rw p
      | inr p ↦ rw p (well_keys-has k key rows m (rw p at h))
    ]

-- A well's mark is under its name.
well_mark_named :
    (rows : List Row) (p w a b epoch max_seq : ℕ)
    → well_mark rows (p, w) ≡ some (a, b, epoch, max_seq)
    → (a ≡ p) × (b ≡ w)
unfolding well_mark
well_mark_named rows p w a b epoch max_seq h = ground arith

mark_for-marks_of :
    (rows : List Row) (pad well epoch max_seq : ℕ) (ks : List (ℕ × ℕ))
    → well_mark rows (pad, well) ≡ some (pad, well, epoch, max_seq)
    → has (pad, well) ks ≡ true
    → mark_for (pad, well) (marks_of rows ks) ≡ some (start_well epoch (add64 max_seq 1))
mark_for-marks_of rows pad well epoch max_seq [] mark there = cc
mark_for-marks_of rows pad well epoch max_seq ((p, w) ∷ ks) mark there =
    elim (Bool-cases (same (pad, well) (p, w))) [
      | inl e ↦
          let ep : p ≡ pad = ground arith in
          let ew : w ≡ well = ground arith in rw (ep, ew) (rw mark (ground arith))
      | inr e ↦
          let rest = mark_for-marks_of rows pad well epoch max_seq ks mark (rw e at there) in
          elim (Option-cases (well_mark rows (p, w))) [
            | inl nothing ↦ rw nothing rest
            | inr ((a, b, other, s), is) ↦
                let (ea, eb) = well_mark_named rows p w a b other s is in
                rw is (rw (ea, eb) (rw e rest))
          ]
    ]

well_mark-greatest :
    (rows : List Row) (pad well epoch max_seq : ℕ)
    → greatest (of_well (pad, well)) (λ r. r.epoch) rows ≡ some epoch
    → greatest (of_epoch (pad, well) epoch) (λ r. r.seq) rows ≡ some max_seq
    → well_mark rows (pad, well) ≡ some (pad, well, epoch, max_seq)
unfolding well_mark
well_mark-greatest rows pad well epoch max_seq stored is = rw (stored, well_mark) (rw is refl)

-- Seeding from the table does to a well what seeding with its mark does.
find-watermarks :
    (rows : List Row) (t : GapTracker) (pad well epoch max_seq : ℕ)
    → find (pad, well) t.wells ≡ none
    → greatest (of_well (pad, well)) (λ r. r.epoch) rows ≡ some epoch
    → greatest (of_epoch (pad, well) epoch) (λ r. r.seq) rows ≡ some max_seq
    → find (pad, well) (seed_all (watermarks rows) t).wells
      ≡ find (pad, well) (seed t pad well epoch max_seq).wells
unfolding watermarks seed
find-watermarks rows t pad well epoch max_seq unknown stored is =
    let fresh = start_well epoch (add64 max_seq 1) in
    let from_marks : find (pad, well) (seed_all (watermarks rows) t).wells ≡ some fresh =
      find-seed_all (pad, well) (watermarks rows) t
      ∙ rw unknown (
          mark_for-marks_of rows pad well epoch max_seq (well_keys rows)
            (well_mark-greatest rows pad well epoch max_seq stored is)
            (well_keys-has (pad, well) (λ r. r.epoch) rows epoch stored)) in
    let from_seed : find (pad, well) (seed t pad well epoch max_seq).wells ≡ some fresh =
      find-put (pad, well) (pad, well) (entry_or fresh (find (pad, well) t.wells)) t.wells
      ∙ rw unknown (ground arith) in
    from_marks ∙ sym from_seed

-- A session seeds a tracker that does not know a well from the watermarks of the table. Then after any
-- history in which no newer generation of the well shows up than the newest that is stored, none of
-- the rows that the table held of that generation is reported missing.
pub watermarks_no_phantom :
    (rows : List Row) (t : GapTracker) (pad well epoch : ℕ) (os : List Obs) (w : WellGaps)
    → Positive rows
    → find (pad, well) t.wells ≡ none
    → greatest (of_well (pad, well)) (λ r. r.epoch) rows ≡ some epoch
    → find (pad, well) (run (seed_all (watermarks rows) t) os).wells ≡ some w
    → All InRange (seen (pad, well) os)
    → length (seen (pad, well) os) < u64_mod
    → top epoch (seen (pad, well) os) ≡ epoch
    → All (λ r. of_epoch (pad, well) epoch r ≡ true → missing r.seq w ≡ false) rows
unfolding watermarks
watermarks_no_phantom rows t pad well epoch os w small unknown stored e r n newest =
    let seqs =
      greatest-Bounded (of_epoch (pad, well) epoch) (λ x. x.seq) rows
        (All-weaken _ (λ x. x.seq < 2 ^ 63) rows (λ x h. h.1) small) in
    elim (Option-cases (greatest (of_epoch (pad, well) epoch) (λ x. x.seq) rows)) [
      | inl nothing ↦
          All-weaken (λ x. of_epoch (pad, well) epoch x ≡ false) _ rows (λ x out in_group. cc)
            (rw nothing at seqs)
      | inr (max_seq, is) ↦
          let bounds : Bounded (of_epoch (pad, well) epoch) (λ x. x.seq) (some max_seq) rows =
            rw is at seqs in
          let same_run =
            find-run (seed t pad well epoch max_seq) pad well os
            ∙ ap (λ o. alone pad well o (seen (pad, well) os))
                (sym (find-watermarks rows t pad well epoch max_seq unknown stored is))
            ∙ sym (find-run (seed_all (watermarks rows) t) pad well os)
            ∙ e in
          All-weaken (λ x. of_epoch (pad, well) epoch x ≡ true → x.seq ≤ max_seq) _ rows
            (λ x le in_group.
              seed_no_phantom t pad well epoch max_seq os w unknown same_run r n
                (omega (arith, bounds.0)) newest x.seq (le in_group))
            bounds.1
    ]
