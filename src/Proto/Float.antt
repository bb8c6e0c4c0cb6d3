-- ===== src/Proto/Float.antt =====
-- IEEE-754 bit patterns, as f32 and f64 of crates/coldbore-proto hold them. Of floating point the
-- modelled code uses the finiteness test and comparisons, which are functions of the bits.
use cold_bore.Base.{
  ℕ, zero, suc, ◌+◌, ◌-◌, ◌≡◌, refl, ◌/◌, ◌%◌, ◌^◌, ◌*◌, Bool, true, false, ◌&&◌, ◌||◌, not, ltb,
  ◌==◌, if◌then◌else◌,
}

-- The bits of an f32 or f64.
pub record F32 : Type 0 where
  pub bits : ℕ

pub record F64 : Type 0 where
  pub bits : ℕ

-- f32::is_finite: the exponent field is not all ones.
abbrev pub is_finite32 : F32 → Bool
is_finite32 x = not (x.bits / 2 ^ 23 % 2 ^ 8 == 255)

abbrev pub is_finite64 : F64 → Bool
is_finite64 x = not (x.bits / 2 ^ 52 % 2 ^ 11 == 2047)

abbrev pub is_negative : F64 → Bool
is_negative x = not (x.bits / 2 ^ 63 % 2 == 0)

-- Sign apart, the bits of two numbers stand in the order of the numbers.
abbrev pub magnitude : F64 → ℕ
magnitude x = x.bits % 2 ^ 63

abbrev pub is_nan : F64 → Bool
is_nan x = ltb (2047 * 2 ^ 52) (magnitude x)

-- `x < y` and `x <= y` on f64: false on NaN, and -0.0 equals 0.0.
abbrev pub lt_magnitude : Bool → Bool → ℕ → ℕ → Bool
lt_magnitude false false a b = ltb a b
lt_magnitude false true a b = false
lt_magnitude true false a b = not (a == 0 && b == 0)
lt_magnitude true true a b = ltb b a

abbrev pub lt64 : F64 → F64 → Bool
lt64 x y =
    if is_nan x || is_nan y
    then false
    else lt_magnitude (is_negative x) (is_negative y) (magnitude x) (magnitude y)

abbrev pub le64 : F64 → F64 → Bool
le64 x y = if is_nan x || is_nan y then false else not (lt64 y x)

abbrev pub f64_zero : F64
f64_zero = record { bits = 0 }

abbrev pub f64_one : F64
f64_one = record { bits = 0x3ff0_0000_0000_0000 }

abbrev pub f64_hundred : F64
f64_hundred = record { bits = 0x4059_0000_0000_0000 }

-- The place of a number's leading binary digit, on fuel: 64 digits.
log2 : ℕ → ℕ → ℕ
log2 zero n = 0
log2 (suc fuel) n = elim (ltb n 2) [ true ↦ 0 | false ↦ suc (log2 fuel (n / 2)) ]

-- `n / 2 ^ shift`, rounded to the nearest, and to the even one of two.
abbrev rounded : ℕ → ℕ → ℕ
rounded n shift =
    let quotient = n / 2 ^ shift in
    let rest = n % 2 ^ shift in
    let half = 2 ^ (shift - 1) in
    if ltb half rest || rest == half && quotient % 2 == 1 then quotient + 1 else quotient

-- `as f64` of a u64. The significand's leading digit adds one to the exponent field.
pub as_f64 : ℕ → F64
unfolding log2
as_f64 n =
    let exponent = log2 64 n in
    let significand =
      if ltb 52 exponent then rounded n (exponent - 52) else n * 2 ^ (52 - exponent) in
    record { bits = if n == 0 then 0 else (exponent + 1022) * 2 ^ 52 + significand }

as_f64_exact : (as_f64 10).bits ≡ 0x4024_0000_0000_0000
unfolding as_f64
as_f64_exact = refl

-- 2 ^ 64 - 1 rounds up to 2 ^ 64.
as_f64_carry : (as_f64 (2 ^ 64 - 1)).bits ≡ 0x43f0_0000_0000_0000
unfolding as_f64
as_f64_carry = refl
