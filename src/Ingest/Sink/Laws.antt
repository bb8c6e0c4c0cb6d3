-- ===== src/Ingest/Sink/Laws.antt =====
-- Exactly-once storage in crates/coldbore-ingest/src/sink.rs: what any run of batches leaves in the
-- table, whatever was delivered twice and in whatever order.
use cold_bore.Base.{
  ℕ, suc, ◌+◌, ◌≤◌, ◌≡◌, refl, sym, ap, subst, ◌∙◌, Bool, true, false, ◌||◌, List, [], ◌∷◌, map,
  inl, inr, Bool-cases, if◌then◌else◌, length, arith,
}
use mathlib.Core.Path.{ap₂}
use mathlib.Core.Bool.{false≢true}
use cold_bore.Proto.Frame.{Frame}
use cold_bore.Ingest.Sink.{
  Row, to_row, same_identity, contains, insert_row, insert_rows, Engine, insert_batch,
}

-- How many rows have the identity of `r`.
abbrev pub copies : Row → List Row → ℕ
copies r [] = 0
copies r (x ∷ xs) = (if same_identity r x then 1 else 0) + copies r xs

same_identity_left :
    (a b x : Row) → same_identity a b ≡ true → same_identity a x ≡ same_identity b x
same_identity_left a b x h = ground arith

pub same_identity_refl : (a : Row) → same_identity a a ≡ true
same_identity_refl a = ground arith

contains_same :
    (a b : Row) (rows : List Row) → same_identity a b ≡ true → contains a rows ≡ contains b rows
unfolding contains
contains_same a b [] h = refl
contains_same a b (x ∷ xs) h = ap₂ ◌||◌ (same_identity_left a b x h) (contains_same a b xs h)

or_true : (b : Bool) → (b || true) ≡ true
or_true true = refl
or_true false = refl

length-map : {A B : Type 0} (f : A → B) (xs : List A) → length (map f xs) ≡ length xs
length-map f [] = refl
length-map f (x ∷ xs) = ap suc (length-map f xs)

copies-contains : (k : Row) (rows : List Row) → contains k rows ≡ false → copies k rows ≡ 0
unfolding contains
copies-contains k [] h = refl
copies-contains k (x ∷ xs) h = elim (Bool-cases (same_identity k x)) [
  | inl e ↦ absurd (false≢true (sym h ∙ rw e))
  | inr e ↦ rw e (omega (arith, copies-contains k xs (rw e at h)))
]

absorbed :
    (k r : Row) (rows : List Row)
    → contains r rows ≡ true
    → contains k rows ≡ (same_identity k r || contains k rows)
absorbed k r rows h = elim (Bool-cases (same_identity k r)) [
  | inl e ↦ rw e (contains_same k r rows e ∙ h)
  | inr e ↦ rw e
]

pub contains-insert_row :
    (k r : Row) (rows : List Row)
    → contains k (insert_row rows r) ≡ (same_identity k r || contains k rows)
unfolding insert_row
contains-insert_row k r rows = elim (Bool-cases (contains r rows)) [
  | inl e ↦ rw e (absorbed k r rows e)
  | inr e ↦ rw e refl
]

or_rotate : (a b c : Bool) → (b || (a || c)) ≡ (a || b || c)
or_rotate true true c = refl
or_rotate true false c = refl
or_rotate false b c = refl

-- After an insert exactly the identities of the batch and those that were there are there.
pub contains-insert_rows :
    (k : Row) (rows batch : List Row)
    → contains k (insert_rows rows batch) ≡ (contains k batch || contains k rows)
unfolding insert_rows contains
contains-insert_rows k rows [] = refl
contains-insert_rows k rows (r ∷ rs) =
    contains-insert_rows k (insert_row rows r) rs
    ∙ ap (◌||◌ (contains k rs)) (contains-insert_row k r rows)
    ∙ or_rotate (same_identity k r) (contains k rs) (contains k rows)

-- No two rows have the same identity: what the unique index keeps.
abbrev pub IsUnique : List Row → Type 0
IsUnique rows = (k : Row) → copies k rows ≤ 1

insert_row-IsUnique : (r : Row) (rows : List Row) → IsUnique rows → IsUnique (insert_row rows r)
unfolding insert_row
insert_row-IsUnique r rows u k = elim (Bool-cases (contains r rows)) [
  | inl e ↦ rw e (u k)
  | inr e ↦ rw e (elim (Bool-cases (same_identity k r)) [
    | inl e' ↦ rw e' (omega (arith, copies-contains k rows (contains_same k r rows e' ∙ e)))
    | inr e' ↦ rw e' (omega (arith, u k))
  ])
]

pub insert_rows-IsUnique :
    (rows batch : List Row) → IsUnique rows → IsUnique (insert_rows rows batch)
unfolding insert_rows
insert_rows-IsUnique rows [] u = u
insert_rows-IsUnique rows (r ∷ rs) u =
    insert_rows-IsUnique (insert_row rows r) rs (insert_row-IsUnique r rows u)

add_zero_left : (n : ℕ) → 0 + n ≡ n
add_zero_left n = omega arith

copies_contained :
    (k : Row) (rows : List Row)
    → copies k rows ≤ 1
    → copies k rows ≡ (if contains k rows then 1 else 0)
unfolding contains
copies_contained k [] u = refl
copies_contained k (x ∷ xs) u = elim (Bool-cases (same_identity k x)) [
  | inl e ↦ rw e (omega (arith, rw e at u))
  | inr e ↦ rw e (
      add_zero_left (copies k xs)
      ∙ copies_contained k xs (subst (λ n. n ≤ 1) (add_zero_left (copies k xs)) (rw e at u)))
]

-- An insert grows the table by at most one row for each row of the batch.
insert_row-length :
    (r : Row) (rows : List Row)
    → (length rows ≤ length (insert_row rows r)) × (length (insert_row rows r) ≤ suc (length rows))
unfolding insert_row
insert_row-length r rows = ground arith

pub insert_rows-length :
    (rows batch : List Row)
    → (length rows ≤ length (insert_rows rows batch))
      × (length (insert_rows rows batch) ≤ length rows + length batch)
unfolding insert_rows
insert_rows-length rows [] = omega arith
insert_rows-length rows (r ∷ rs) =
    omega (arith, insert_rows-length (insert_row rows r) rs, insert_row-length r rows)

-- A batch of which everything is there changes nothing.
abbrev Stored : List Row → List Row → Type 0
Stored rows batch = (k : Row) → contains k batch ≡ true → contains k rows ≡ true

insert_rows-Stored : (rows batch : List Row) → Stored rows batch → insert_rows rows batch ≡ rows
unfolding insert_rows insert_row contains
insert_rows-Stored rows [] h = refl
insert_rows-Stored rows (r ∷ rs) h =
    let there : contains r rows ≡ true = h r (rw (same_identity_refl r)) in
    rw there (insert_rows-Stored rows rs (λ k c. h k (rw c (or_true (same_identity k r)))))

module _ (e : Engine) where
  -- Batches in the order in which they are flushed.
  pub insert_batches : e.Table → List (List Frame) → e.Table
  insert_batches t [] = t
  insert_batches t (b ∷ bs) = insert_batches (insert_batch e t b).0 bs

  abbrev pub delivered : List (List Frame) → Row → Bool
  delivered [] k = false
  delivered (b ∷ bs) k = contains k (map to_row b) || delivered bs k

  batches-IsUnique :
      (t : e.Table) (bs : List (List Frame))
      → IsUnique (e.rows t)
      → IsUnique (e.rows (insert_batches t bs))
  unfolding insert_batches insert_batch
  batches-IsUnique t [] u = u
  batches-IsUnique t (b ∷ bs) u = batches-IsUnique (e.execute t (map to_row b)).0 bs (
      subst IsUnique (sym (e.do_nothing t (map to_row b)))
        (insert_rows-IsUnique (e.rows t) (map to_row b) u))

  contains-batches :
      (t : e.Table) (bs : List (List Frame)) (k : Row)
      → contains k (e.rows (insert_batches t bs)) ≡ (delivered bs k || contains k (e.rows t))
  unfolding insert_batches insert_batch
  contains-batches t [] k = refl
  contains-batches t (b ∷ bs) k =
      contains-batches (e.execute t (map to_row b)).0 bs k
      ∙ ap (λ rows. delivered bs k || contains k rows) (e.do_nothing t (map to_row b))
      ∙ ap (◌||◌ (delivered bs k)) (contains-insert_rows k (e.rows t) (map to_row b))
      ∙ or_rotate (contains k (map to_row b)) (delivered bs k) (contains k (e.rows t))

  pub copies-batches :
      (t : e.Table) (bs : List (List Frame)) (k : Row)
      → IsUnique (e.rows t)
      → copies k (e.rows (insert_batches t bs))
        ≡ (if delivered bs k || contains k (e.rows t) then 1 else 0)
  copies-batches t bs k u =
      copies_contained k _ (batches-IsUnique t bs u k)
      ∙ ap (λ b. if b then 1 else 0) (contains-batches t bs k)

  Stored-after : (t : e.Table) (batch : List Row) → Stored (e.rows (e.execute t batch).0) batch
  Stored-after t batch k h =
      ap (contains k) (e.do_nothing t batch) ∙ contains-insert_rows k (e.rows t) batch ∙ rw h refl

  -- At most as many rows are inserted as the batch has frames, so the duplicate count does not
  -- underflow; and a batch that is delivered again inserts nothing and leaves the table as it is.
  pub insert_batch_again :
      (t : e.Table) (frames : List Frame)
      → let (t', n) = insert_batch e t frames in
        (n ≤ length frames)
        × ((insert_batch e t' frames).1 ≡ 0)
        × (e.rows (insert_batch e t' frames).0 ≡ e.rows t')
  unfolding insert_batch
  insert_batch_again t frames =
      let batch = map to_row frames in
      let t' = (e.execute t batch).0 in
      let same : e.rows (e.execute t' batch).0 ≡ e.rows t' =
        e.do_nothing t' batch ∙ insert_rows-Stored (e.rows t') batch (Stored-after t batch) in
      (
        omega (
          arith,
          e.row_count t batch,
          insert_rows-length (e.rows t) batch,
          ap length (e.do_nothing t batch),
          length-map to_row frames,
        ),
        omega (arith, e.row_count t' batch, ap length same),
        same,
      )
