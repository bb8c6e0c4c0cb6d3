-- ===== src/Base/Map.antt =====
-- `BTreeMap` and `HashMap` with number keys, as association lists in ascending key order.
use Prim.Native.Nat.{ℕ, suc, ◌+◌, ◌≤◌, ◌<◌}
use mathlib.Core.Path.{◌≡◌, refl}
use mathlib.Core.Logic.{inl, inr}
use mathlib.Core.Bool.{Bool, false}
use mathlib.Core.Option.{Option, none, some}
use mathlib.Core.List.{List, [], ◌∷◌}
use native.Mathlib.Omega.{arith}
use cold_bore.Base.Lists.{weigh, All}
use cold_bore.Base.Tests.{ltb, ◌==◌, Bool-cases, if◌then◌else◌}

module _ {ℓ} {V : Type ℓ} where
  abbrev pub lookup : ℕ → List (ℕ × V) → Option V
  lookup k [] = none
  lookup k ((j, v) ∷ m) = if k == j then some v else lookup k m

  -- `map.insert(k, v)`: replaces the value of a key that is there.
  abbrev pub insert : ℕ → V → List (ℕ × V) → List (ℕ × V)
  insert k v [] = (k, v) ∷ []
  insert k v ((j, u) ∷ m) =
      if ltb k j then (k, v) ∷ (j, u) ∷ m else if k == j then (k, v) ∷ m else (j, u) ∷ insert k v m

  -- `map.remove(&k)`
  abbrev pub remove : ℕ → List (ℕ × V) → List (ℕ × V)
  remove k [] = []
  remove k ((j, u) ∷ m) = if k == j then m else (j, u) ∷ remove k m

module _ {ℓ} {V : Type ℓ} where
  pub lookup-insert :
      (j k : ℕ) (v : V) (m : List (ℕ × V))
      → lookup j (insert k v m) ≡ (if j == k then some v else lookup j m)
  lookup-insert j k v [] = refl
  lookup-insert j k v ((i, u) ∷ m) = ground (arith, lookup-insert j k v m)

-- Two-part keys, as `HashMap<(u16, u16), V>` and `BTreeMap<(u16, u16), V>` have them. The modelled
-- code reads these maps by key and adds over all values, so the order of entries is free.
abbrev pub same : ℕ × ℕ → ℕ × ℕ → Bool
same (a, b) (c, d) = if a == c then b == d else false

module _ {ℓ} {V : Type ℓ} where
  unfoldable pub find : ℕ × ℕ → List ((ℕ × ℕ) × V) → Option V
  find k [] = none
  find k ((j, v) ∷ m) = if same k j then some v else find k m

  unfoldable pub put : ℕ × ℕ → V → List ((ℕ × ℕ) × V) → List ((ℕ × ℕ) × V)
  put k v [] = (k, v) ∷ []
  put k v ((j, u) ∷ m) = if same k j then (j, v) ∷ m else (j, u) ∷ put k v m

  pub find-put :
      (j k : ℕ × ℕ) (v : V) (m : List ((ℕ × ℕ) × V))
      → find j (put k v m) ≡ (if same j k then some v else find j m)
  unfolding find put
  find-put (a, b) (c, d) v [] = refl
  find-put (a, b) (c, d) v (((e, f), u) ∷ m) = ground (arith, find-put (a, b) (c, d) v m)

-- The keys ascend, from `lo` on: what a BTreeMap keeps.
module _ {ℓ} {V : Type ℓ} where
  abbrev pub Ascending : ℕ → List (ℕ × V) → Type 0
  Ascending lo [] = Unit {0}
  Ascending lo ((j, v) ∷ m) = (lo ≤ j) × Ascending (suc j) m

module _ {ℓ} {V : Type ℓ} where
  pub lookup_below : (k lo : ℕ) (m : List (ℕ × V)) → Ascending lo m → k < lo → lookup k m ≡ none
  lookup_below k lo [] h p = refl
  lookup_below k lo ((j, v) ∷ m) h p = ground (arith, lookup_below k (suc j) m h.1)

  pub Ascending-lower :
      (lo' lo : ℕ) (m : List (ℕ × V)) → Ascending lo m → lo' ≤ lo → Ascending lo' m
  Ascending-lower lo' lo [] h p = tt
  Ascending-lower lo' lo ((j, v) ∷ m) h p = (omega arith, h.1)

  pub Ascending-insert :
      (k lo : ℕ) (v : V) (m : List (ℕ × V)) → Ascending lo m → lo ≤ k → Ascending lo (insert k v m)
  Ascending-insert k lo v [] h p = omega arith
  Ascending-insert k lo v ((j, u) ∷ m) h p = ground (arith, Ascending-insert k (suc j) v m h.1)

  -- What an entry weighs, if the key has one.
  abbrev pub weigh_entry : (V → ℕ) → Option V → ℕ
  weigh_entry w none = 0
  weigh_entry w (some u) = w u

  pub weigh-insert :
      (w : V → ℕ) (k lo : ℕ) (v : V) (m : List (ℕ × V))
      → Ascending lo m
      → weigh (λ e. w e.1) (insert k v m) + weigh_entry w (lookup k m) ≡ weigh (λ e. w e.1) m + w v
  weigh-insert w k lo v [] h = omega arith
  weigh-insert w k lo v ((j, u) ∷ m) h =
      ground (arith, weigh-insert w k (suc j) v m h.1, lookup_below k (suc j) m h.1)

  pub All-insert :
      (P : ℕ × V → Type 0) (k : ℕ) (v : V) (m : List (ℕ × V))
      → P (k, v)
      → All P m
      → All P (insert k v m)
  All-insert P k v [] p h = (p, tt)
  All-insert P k v ((j, u) ∷ m) p h = elim (Bool-cases (ltb k j)) [
    | inl e ↦ rw e (p, h)
    | inr e ↦ rw e (elim (Bool-cases (k == j)) [
      | inl e' ↦ rw e' (p, h.1)
      | inr e' ↦ rw e' (h.0, All-insert P k v m p h.1)
    ])
  ]
