-- ===== src/Edge/Uplink/Shuffle.antt =====
-- The Fisher-Yates shuffle in `fill_publish_queue` of crates/coldbore-edge/src/uplink.rs.
use cold_bore.Base.{
  ℕ, zero, suc, ◌+◌, ◌≡◌, refl, ◌∙◌, List, [], ◌∷◌, Option, none, some, length, weigh, arith,
}

module _ {A : Type 0} where
  abbrev pub get_elem? : List A → ℕ → Option A
  get_elem? [] i = none
  get_elem? (x ∷ xs) zero = some x
  get_elem? (x ∷ xs) (suc i) = get_elem? xs i

  abbrev pub set : List A → ℕ → A → List A
  set [] i v = []
  set (x ∷ xs) zero v = v ∷ xs
  set (x ∷ xs) (suc i) v = x ∷ set xs i v

  abbrev pub exchange : List A → ℕ → ℕ → Option A → Option A → List A
  exchange xs i j (some a) (some b) = set (set xs i b) j a
  exchange xs i j (some a) none = xs
  exchange xs i j none b = xs

  -- `shuffle.swap(i, j)`; the indices of the caller are in range.
  pub swap : List A → ℕ → ℕ → List A
  swap xs i j = exchange xs i j (get_elem? xs i) (get_elem? xs j)

  -- `for i in (1..n).rev() { swap(i, random_range(0..=i)); }`, with n - 1 rounds to go.
  pub shuffle_from : (ℕ → ℕ) → ℕ → List A → List A
  shuffle_from pick zero xs = xs
  shuffle_from pick (suc i) xs = shuffle_from pick i (swap xs (suc i) (pick (suc i)))

  abbrev pub pred_length : List A → ℕ
  pred_length [] = 0
  pred_length (x ∷ xs) = length xs

  pub shuffle_all : (ℕ → ℕ) → List A → List A
  shuffle_all pick xs = shuffle_from pick (pred_length xs) xs

  weigh-set :
      (w : A → ℕ) (xs : List A) (i : ℕ) (a v : A)
      → get_elem? xs i ≡ some a
      → weigh w (set xs i v) + w a ≡ weigh w xs + w v
  weigh-set w [] i a v e = ground arith
  weigh-set w (x ∷ xs) zero a v e = ground arith
  weigh-set w (x ∷ xs) (suc i) a v e = omega (arith, weigh-set w xs i a v e)

  -- Writing the value that stands at `j` somewhere else, or at `j` itself, leaves it at `j`.
  get_elem?-set_same :
      (xs : List A) (i j : ℕ) (b : A) → get_elem? xs j ≡ some b → get_elem? (set xs i b) j ≡ some b
  get_elem?-set_same [] i j b e = e
  get_elem?-set_same (x ∷ xs) zero zero b e = refl
  get_elem?-set_same (x ∷ xs) zero (suc j) b e = e
  get_elem?-set_same (x ∷ xs) (suc i) zero b e = e
  get_elem?-set_same (x ∷ xs) (suc i) (suc j) b e = get_elem?-set_same xs i j b e

  exchange-weigh :
      (w : A → ℕ) (xs : List A) (i j : ℕ) (a b : Option A)
      → get_elem? xs i ≡ a
      → get_elem? xs j ≡ b
      → weigh w (exchange xs i j a b) ≡ weigh w xs
  exchange-weigh w xs i j (some a) (some b) p q = omega (
    arith,
    weigh-set w xs i a b p,
    weigh-set w (set xs i b) j b a (get_elem?-set_same xs i j b q),
  )
  exchange-weigh w xs i j (some a) none p q = refl
  exchange-weigh w xs i j none b p q = refl

  swap-weigh : (w : A → ℕ) (xs : List A) (i j : ℕ) → weigh w (swap xs i j) ≡ weigh w xs
  unfolding swap
  swap-weigh w xs i j = exchange-weigh w xs i j (get_elem? xs i) (get_elem? xs j) refl refl

  shuffle_from-weigh :
      (w : A → ℕ) (pick : ℕ → ℕ) (n : ℕ) (xs : List A)
      → weigh w (shuffle_from pick n xs) ≡ weigh w xs
  unfolding shuffle_from
  shuffle_from-weigh w pick zero xs = refl
  shuffle_from-weigh w pick (suc i) xs =
      shuffle_from-weigh w pick i (swap xs (suc i) (pick (suc i)))
      ∙ swap-weigh w xs (suc i) (pick (suc i))

  -- A shuffle neither loses nor adds anything.
  pub shuffle_all-weigh :
      (w : A → ℕ) (pick : ℕ → ℕ) (xs : List A) → weigh w (shuffle_all pick xs) ≡ weigh w xs
  unfolding shuffle_all
  shuffle_all-weigh w pick xs = shuffle_from-weigh w pick (pred_length xs) xs
