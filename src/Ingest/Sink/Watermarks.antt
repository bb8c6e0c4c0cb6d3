-- ===== src/Ingest/Sink/Watermarks.antt =====
-- crates/coldbore-ingest/src/sink.rs: WATERMARKS_SQL and `watermarks`, as a query over the rows.
use cold_bore.Base.{
  ℕ, ◌+◌, ◌%◌, ◌^◌, ◌≤◌, ◌<◌, ◌≡◌, sym, subst, ◌⊎◌, Bool, true, false, ◌&&◌, List, [], ◌∷◌, Option,
  none, some, ◌==◌, ltb, if◌then◌else◌, All, All-weaken, Bool-cases, inl, inr, arith,
}
use cold_bore.Base.Map.{same}
use cold_bore.Ingest.Sink.{Row}

-- The order of int8, in two's complement, on the bits of the columns.
abbrev pub int8_less : ℕ → ℕ → Bool
int8_less a b = ltb ((a + 2 ^ 63) % 2 ^ 64) ((b + 2 ^ 63) % 2 ^ 64)

abbrev pub larger : ℕ → Option ℕ → ℕ
larger a none = a
larger a (some b) = if int8_less a b then b else a

-- `max(key)` over the rows of a group, with no row for an empty group.
unfoldable pub greatest : (Row → Bool) → (Row → ℕ) → List Row → Option ℕ
greatest group key [] = none
greatest group key (r ∷ rows) =
    let rest = greatest group key rows in if group r then some (larger (key r) rest) else rest

abbrev pub of_well : ℕ × ℕ → Row → Bool
of_well k r = same k (r.pad_id, r.well_id)

abbrev pub of_epoch : ℕ × ℕ → ℕ → Row → Bool
of_epoch k epoch r = of_well k r && r.epoch == epoch

-- `GROUP BY pad_id, well_id, epoch`, then `DISTINCT ON (pad_id, well_id) … ORDER BY … epoch DESC`: of a
-- well's groups the one with the greatest epoch.
abbrev pub Mark : Type 0
Mark = ℕ × ℕ × ℕ × ℕ

abbrev pub newest_group : ℕ × ℕ → ℕ → Option ℕ → Option Mark
newest_group (pad, well) epoch none = none
newest_group (pad, well) epoch (some max_seq) = some (pad, well, epoch, max_seq)

unfoldable pub well_mark : List Row → ℕ × ℕ → Option Mark
well_mark rows k = elim (greatest (of_well k) (λ r. r.epoch) rows) [
  | none ↦ none
  | some epoch ↦ newest_group k epoch (greatest (of_epoch k epoch) (λ r. r.seq) rows)
]

-- The wells of the table, each once. Their order is free: `seed` does not depend on it.
unfoldable pub add_well : ℕ × ℕ → List (ℕ × ℕ) → List (ℕ × ℕ)
add_well k [] = k ∷ []
add_well k (j ∷ ks) = if same k j then j ∷ ks else j ∷ add_well k ks

unfoldable pub well_keys : List Row → List (ℕ × ℕ)
unfolding add_well
well_keys [] = []
well_keys (r ∷ rows) = add_well (r.pad_id, r.well_id) (well_keys rows)

abbrev pub push : Option Mark → List Mark → List Mark
push none marks = marks
push (some m) marks = m ∷ marks

abbrev pub marks_of : List Row → List (ℕ × ℕ) → List Mark
marks_of rows [] = []
marks_of rows (k ∷ ks) = push (well_mark rows k) (marks_of rows ks)

-- `Sink::watermarks`: (pad, well, epoch, max_seq) for each well's newest epoch.
unfoldable pub watermarks : List Row → List Mark
unfolding well_keys
watermarks rows = marks_of rows (well_keys rows)

-- Column values that the conversions to int8 leave positive.
abbrev pub Positive : List Row → Type 0
Positive rows = All (λ r. (r.epoch < 2 ^ 63) × (r.seq < 2 ^ 63)) rows

-- What is known of a group's greatest key: every key of the group is at most that, or it is empty.
abbrev pub Bounded : (Row → Bool) → (Row → ℕ) → Option ℕ → List Row → Type 0
Bounded group key none rows = All (λ r. group r ≡ false) rows
Bounded group key (some m) rows = (m < 2 ^ 63) × All (λ r. group r ≡ true → key r ≤ m) rows

Bounded-skip :
    (group : Row → Bool) (key : Row → ℕ) (o : Option ℕ) (r : Row) (rows : List Row)
    → group r ≡ false
    → Bounded group key o rows
    → Bounded group key o (r ∷ rows)
Bounded-skip group key none r rows out b = (out, b)
Bounded-skip group key (some m) r rows out b = (b.0, ((λ in_group. cc), b.1))

larger-cases :
    (a b : ℕ)
    → a < 2 ^ 63
    → b < 2 ^ 63
    → ((larger a (some b) ≡ b) × (a ≤ b)) ⊎ ((larger a (some b) ≡ a) × (b ≤ a))
larger-cases a b ha hb = elim (Bool-cases (int8_less a b)) [
  | inl less ↦ inl (rw less, ground arith)
  | inr not_less ↦ inr (rw not_less, ground arith)
]

Bounded-larger :
    (group : Row → Bool) (key : Row → ℕ) (o : Option ℕ) (r : Row) (rows : List Row)
    → key r < 2 ^ 63
    → Bounded group key o rows
    → Bounded group key (some (larger (key r) o)) (r ∷ rows)
Bounded-larger group key none r rows small b = (
  small,
  (
    (λ _. omega arith),
    All-weaken (λ x. group x ≡ false) (λ x. group x ≡ true → key x ≤ key r) rows
        (λ x out in_group. cc) b,
  ),
)
Bounded-larger group key (some m) r rows small b = elim (larger-cases (key r) m small b.0) [
  | inl (is, le) ↦
      subst (λ n. Bounded group key (some n) (r ∷ rows)) (sym is) (b.0, ((λ _. le), b.1))
  | inr (is, le) ↦
      subst (λ n. Bounded group key (some n) (r ∷ rows)) (sym is)
        (
          small,
          (
            (λ _. omega arith),
            All-weaken (λ x. group x ≡ true → key x ≤ m) (λ x. group x ≡ true → key x ≤ key r) rows
                (λ x at_most in_group. omega (arith, at_most in_group, le)) b.1,
          ),
        )
]

pub greatest-Bounded :
    (group : Row → Bool) (key : Row → ℕ) (rows : List Row)
    → All (λ r. key r < 2 ^ 63) rows
    → Bounded group key (greatest group key rows) rows
unfolding greatest
greatest-Bounded group key [] small = tt
greatest-Bounded group key (r ∷ rows) small = elim (Bool-cases (group r)) [
  | inl p ↦ rw p (
      Bounded-larger group key (greatest group key rows) r rows small.0
        (greatest-Bounded group key rows small.1))
  | inr p ↦ rw p (
      Bounded-skip group key (greatest group key rows) r rows p
        (greatest-Bounded group key rows small.1))
]
