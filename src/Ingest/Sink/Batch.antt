-- ===== src/Ingest/Sink/Batch.antt =====
-- crates/coldbore-ingest/src/sink.rs: where a frame is while its batch fills and once it is committed.
use cold_bore.Base.{
  ◌≡◌, refl, ap, ◌∙◌, inl, inr, Bool, true, false, ◌||◌, List, [], ◌∷◌, ◌++◌, map, Bool-cases,
  arith,
}
use cold_bore.Proto.Frame.{Frame}
use cold_bore.Ingest.Sink.{Row, to_row, same_identity, contains, Engine, insert_batch}
use cold_bore.Ingest.Sink.Laws.{contains-insert_rows, same_identity_refl}

-- A row that is in a batch stays in it when a frame is pushed, and the frame pushed is in it.
pub contains-push_old :
    (k : Row) (batch : List Frame) (f : Frame)
    → contains k (map to_row batch) ≡ true
    → contains k (map to_row (batch ++ f ∷ [])) ≡ true
unfolding contains
contains-push_old k [] f h = ground arith
contains-push_old k (x ∷ xs) f h = elim (Bool-cases (same_identity k (to_row x))) [
  | inl q ↦ rw q refl
  | inr q ↦ rw q (contains-push_old k xs f (rw q at h))
]

or_true : (b : Bool) → (b || true) ≡ true
or_true true = refl
or_true false = refl

pub contains-push_new :
    (batch : List Frame) (f : Frame) → contains (to_row f) (map to_row (batch ++ f ∷ [])) ≡ true
unfolding contains
contains-push_new [] f = rw (same_identity_refl (to_row f)) refl
contains-push_new (x ∷ xs) f =
    rw (contains-push_new xs f) (or_true (same_identity (to_row f) (to_row x)))

module _ (e : Engine) where
  abbrev pub Stored : e.Table → Frame → Type 0
  Stored t f = contains (to_row f) (e.rows t) ≡ true

  pub inserted_batch :
      (t : e.Table) (batch : List Frame) (f : Frame)
      → contains (to_row f) (map to_row batch) ≡ true
      → Stored (insert_batch e t batch).0 f
  unfolding insert_batch
  inserted_batch t batch f h =
      ap (contains (to_row f)) (e.do_nothing t (map to_row batch))
      ∙ contains-insert_rows (to_row f) (e.rows t) (map to_row batch)
      ∙ rw h refl

  pub inserted_before :
      (t : e.Table) (batch : List Frame) (f : Frame)
      → Stored t f
      → Stored (insert_batch e t batch).0 f
  unfolding insert_batch
  inserted_before t batch f h =
      ap (contains (to_row f)) (e.do_nothing t (map to_row batch))
      ∙ contains-insert_rows (to_row f) (e.rows t) (map to_row batch)
      ∙ rw h (or_true (contains (to_row f) (map to_row batch)))
