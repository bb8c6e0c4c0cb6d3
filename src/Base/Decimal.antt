-- ===== src/Base/Decimal.antt =====
-- Numbers in decimal: `format!("{}")` of Rust's unsigned integers of up to 64 bits, and the reading of
-- digits, which `parse` and the proofs share.
use Prim.Native.Nat.{ℕ, zero, suc, ◌+◌, ◌-◌, ◌*◌, ◌/◌, ◌%◌, ◌^◌, ◌<◌}
use Prim.Native.Char.{Char, char, code, IsScalar}
use Prim.Native.String.{String, [], ◌∷◌, ◌++◌}
use mathlib.Core.Path.{◌≡◌, refl, ap, ◌∙◌}
use mathlib.Core.Bool.{Bool, true, false, ◌&&◌, not}
use native.Mathlib.Omega.{arith}
use text.Mathlib.TextLemmas.{cons-append, nil-append}
use mathlib.Core.Logic.{◌⊎◌, inl, inr}
use cold_bore.Base.Tests.{leb, Bool-cases, ◌==◌, if◌then◌else◌}

abbrev pub is_digit : Char → Bool
is_digit c = leb 48 (code c) && leb (code c) 57

digit-IsScalar : (n : ℕ) → IsScalar (48 + n % 10)
digit-IsScalar n = ground arith

-- The last digit of a number.
abbrev digit : ℕ → Char
digit n = char (48 + n % 10) (digit-IsScalar n)

-- The digits of `n` in front of `out`, the last one first.
emit : ℕ → ℕ → String → String
emit zero n out = out
emit (suc k) n out = elim (n == 0) [ true ↦ out | false ↦ emit k (n / 10) (digit n ∷ out) ]

-- Twenty digits are enough for 64 bits.
pub print : ℕ → String
unfolding emit
print n = if n == 0 then "0" else emit 20 n []

-- The digits at the front of a text, read behind `n`, and what follows them.
unfoldable pub take_number : ℕ → String → ℕ × String
take_number n [] = (n, [])
take_number n (c ∷ s) =
    let rest = take_number (n * 10 + (code c - 48)) s in if is_digit c then rest else (n, c ∷ s)

take_number-digit : (n : ℕ) (s : String) → take_number (n / 10) (digit n ∷ s) ≡ take_number n s
unfolding take_number
take_number-digit n s = ground arith

take_number-emit :
    (k n : ℕ) (out : String) → n < 10 ^ k → take_number 0 (emit k n out) ≡ take_number n out
unfolding emit
take_number-emit zero n out h = grind arith
take_number-emit (suc k) n out h =
    grind (arith, take_number-emit k (n / 10) (digit n ∷ out), take_number-digit n out)

emit-append : (k n : ℕ) (out s : String) → emit k n out ++ s ≡ emit k n (out ++ s)
unfolding emit
emit-append zero n out s = refl
emit-append (suc k) n out s = elim (Bool-cases (n == 0)) [
  | inl p ↦ rw (p, emit)
  | inr p ↦ rw (p, emit) (emit-append k (n / 10) (digit n ∷ out) s ∙ rw cons-append)
]

-- The text does not begin with a digit.
abbrev pub stops : String → Bool
stops [] = true
stops (c ∷ _) = not (is_digit c)

take_number-stops : (n : ℕ) (s : String) → stops s ≡ true → take_number n s ≡ (n, s)
unfolding take_number
take_number-stops n [] h = refl
take_number-stops n (c ∷ s) h = ground arith

take_number-zero : (s : String) → take_number 0 ("0" ++ s) ≡ take_number 0 s
unfolding take_number
take_number-zero s = ap (take_number 0) (cons-append "0" [] s) ∙ rw nil-append

-- Text of digits only.
abbrev pub all_digits : String → Bool
all_digits [] = true
all_digits (c ∷ s) = is_digit c && all_digits s

all_digits-emit :
    (k n : ℕ) (out : String) → all_digits out ≡ true → all_digits (emit k n out) ≡ true
unfolding emit
all_digits-emit zero n out h = h
all_digits-emit (suc k) n out h = grind (arith, all_digits-emit k (n / 10) (digit n ∷ out))

begins-emit : (k n : ℕ) (out : String) → stops out ≡ false → stops (emit k n out) ≡ false
unfolding emit
begins-emit zero n out h = h
begins-emit (suc k) n out h = grind (arith, begins-emit k (n / 10) (digit n ∷ out))

print-cases :
    (n : ℕ) → ((n ≡ 0) × (print n ≡ "0")) ⊎ ((0 < n) × (print n ≡ emit 19 (n / 10) (digit n ∷ [])))
unfolding print emit
print-cases zero = inl (refl, refl)
print-cases (suc n) = inr (omega arith, ground arith)

-- A print is one or more digits.
pub print-all_digits : (n : ℕ) → all_digits (print n) ≡ true
print-all_digits n = elim (print-cases n) [
  | inl (_, p) ↦ rw p
  | inr (_, p) ↦ rw p (all_digits-emit 19 (n / 10) (digit n ∷ []) (ground arith))
]

pub print-begins : (n : ℕ) → stops (print n) ≡ false
print-begins n = elim (print-cases n) [
  | inl (_, p) ↦ rw p
  | inr (_, p) ↦ rw p (begins-emit 19 (n / 10) (digit n ∷ []) (ground arith))
]

-- A printed number is read off the front of a text in which no digit follows it.
pub take_number-print :
    (n : ℕ) (s : String) → n < 2 ^ 64 → stops s ≡ true → take_number 0 (print n ++ s) ≡ (n, s)
unfolding print
take_number-print n s h stop = elim (print-cases n) [
  | inl (z, p) ↦ rw p (take_number-zero s ∙ take_number-stops 0 s stop ∙ rw z)
  | inr (_, p) ↦ rw p (
      rw emit-append (
        rw cons-append (
          rw nil-append (
            take_number-emit 19 (n / 10) (digit n ∷ s) (omega arith)
            ∙ take_number-digit n s
            ∙ take_number-stops n s stop))))
]

test : print 1203 ≡ "1203"
unfolding print emit
test = refl
