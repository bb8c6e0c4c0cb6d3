-- ===== src/Base/Parse.antt =====
-- Rust's `str::trim`, `str::strip_prefix` and `str::parse` for the unsigned integers and for bool, as the
-- standard library documents them.
use Prim.Native.Nat.{ℕ, ◌+◌, ◌-◌, ◌*◌, ◌^◌, ◌≤◌, ◌<◌}
use Prim.Native.Char.{Char, code}
use Prim.Native.String.{String, [], ◌∷◌, ◌++◌}
use text.Mathlib.Text.{◌==◌ as text_eq}
use mathlib.Core.Path.{◌≡◌, refl, sym, ap, ◌∙◌}
use mathlib.Core.Logic.{inl, inr}
use text.Mathlib.TextLemmas.{append-nil, nil-append, cons-append}
use mathlib.Core.Bool.{Bool, true, false, ◌&&◌, ◌||◌, not}
use mathlib.Core.Option.{Option, none, some}
use native.Mathlib.Omega.{arith}
use cold_bore.Base.Tests.{leb, ltb, Bool-cases, ◌==◌, if◌then◌else◌}
use cold_bore.Base.Outcome.{Result, ok, err}
use cold_bore.Base.Decimal.{
  take_number, take_number-print, is_digit, print, print-all_digits, print-begins, all_digits,
  stops,
}

-- The White_Space property of Unicode.
abbrev is_whitespace : Char → Bool
is_whitespace c =
    leb 9 n && leb n 13
    || n == 32
    || n == 133
    || n == 160
    || n == 5760
    || leb 8192 n && leb n 8202
    || n == 8232
    || n == 8233
    || n == 8239
    || n == 8287
    || n == 12288
  where
    n : ℕ
    n = code c

trim_start : String → String
trim_start [] = []
trim_start (c ∷ s) = let rest = trim_start s in if is_whitespace c then rest else c ∷ s

abbrev push_front : Char → String → String
push_front c [] = if is_whitespace c then [] else c ∷ []
push_front c (d ∷ s) = c ∷ d ∷ s

trim_end : String → String
trim_end [] = []
trim_end (c ∷ s) = push_front c (trim_end s)

unfoldable pub trim : String → String
unfolding trim_start trim_end
trim s = trim_end (trim_start s)

-- `IntErrorKind`, as far as the unsigned types give it.
pub data IntError : Type 0 where
  empty invalid_digit pos_overflow : IntError

-- Its `Display`.
abbrev pub int_error_text : IntError → String
int_error_text empty = "cannot parse integer from empty string"
int_error_text invalid_digit = "invalid digit found in string"
int_error_text pos_overflow = "number too large to fit in target type"

parse_digits : ℕ → ℕ → String → Result ℕ IntError
parse_digits max n [] = ok n
parse_digits max n (c ∷ s) =
    let m = n * 10 + (code c - 48) in
    let rest = parse_digits max m s in
    if not (is_digit c) then err invalid_digit else if ltb max m then err pos_overflow else rest

-- A leading `+` is passed over, unless nothing follows it.
abbrev after_sign : String → String
after_sign (c ∷ d ∷ s) = if code c == 43 then d ∷ s else c ∷ d ∷ s
after_sign s = s

-- `parse` of an unsigned type with the greatest value `max`.
unfoldable pub parse_uint : ℕ → String → Result ℕ IntError
unfolding parse_digits
parse_uint max [] = err empty
parse_uint max (c ∷ s) = parse_digits max 0 (after_sign (c ∷ s))

abbrev pub parse_bool : String → Option Bool
parse_bool s =
    if text_eq s "true" then some true else if text_eq s "false" then some false else none

abbrev skip_same : Bool → Option String → Option String
skip_same true rest = rest
skip_same false rest = none

unfoldable pub strip_prefix : String → String → Option String
strip_prefix [] s = some s
strip_prefix (p ∷ ps) [] = none
strip_prefix (p ∷ ps) (c ∷ s) = skip_same (code p == code c) (strip_prefix ps s)

unfoldable pub solid : String → Bool
solid [] = true
solid (c ∷ s) = not (is_whitespace c) && solid s

trim_start-solid : (s : String) → solid s ≡ true → trim_start s ≡ s
unfolding trim_start solid
trim_start-solid [] h = refl
trim_start-solid (c ∷ s) h = ground (arith, trim_start-solid s)

push_front-solid : (c : Char) (s : String) → is_whitespace c ≡ false → push_front c s ≡ c ∷ s
push_front-solid c [] h = rw h
push_front-solid c (d ∷ s) h = refl

trim_end-solid : (s : String) → solid s ≡ true → trim_end s ≡ s
unfolding trim_end solid
trim_end-solid [] h = refl
trim_end-solid (c ∷ s) h = elim (Bool-cases (is_whitespace c)) [
  | inl p ↦ absurd (ground arith)
  | inr p ↦ ap (push_front c) (trim_end-solid s (ground arith)) ∙ push_front-solid c s p
]

-- A text with no white space in it is left as it is.
pub trim-solid : (s : String) → solid s ≡ true → trim s ≡ s
unfolding trim
trim-solid s h = ap trim_end (trim_start-solid s h) ∙ trim_end-solid s h

pub all_digits-solid : (s : String) → all_digits s ≡ true → solid s ≡ true
unfolding solid
all_digits-solid [] h = refl
all_digits-solid (c ∷ s) h = ground (arith, all_digits-solid s)

le-take_number : (n : ℕ) (s : String) → n ≤ (take_number n s).0
unfolding take_number
le-take_number n [] = omega arith
le-take_number n (c ∷ s) = ground (arith, le-take_number (n * 10 + (code c - 48)) s)

parse_digits-take_number :
    (max n : ℕ) (s : String)
    → all_digits s ≡ true
    → (take_number n s).0 ≤ max
    → parse_digits max n s ≡ ok (take_number n s).0
unfolding parse_digits take_number
parse_digits-take_number max n [] h fits = refl
parse_digits-take_number max n (c ∷ s) h fits =
    let m = n * 10 + (code c - 48) in
    ground (arith, parse_digits-take_number max m s, le-take_number m s)

parse_uint-digits :
    (max : ℕ) (s : String) → stops s ≡ false → parse_uint max s ≡ parse_digits max 0 s
unfolding parse_uint
parse_uint-digits max [] h = cc
parse_uint-digits max (c ∷ []) h = refl
parse_uint-digits max (c ∷ d ∷ s) h = ground arith

-- A number within the type's bound is read back from its print.
pub parse_uint-print : (max n : ℕ) → n < 2 ^ 64 → n ≤ max → parse_uint max (print n) ≡ ok n
parse_uint-print max n h fits =
    parse_uint-digits max (print n) (print-begins n)
    ∙ parse_digits-take_number max 0 (print n) (print-all_digits n) (rw took fits)
    ∙ ap ok took
  where
    took : (take_number 0 (print n)).0 ≡ n
    took =
        ap (λ p. p.0)
          (ap (take_number 0) (sym (append-nil (print n))) ∙ take_number-print n [] h refl)

pub trim-print : (n : ℕ) → trim (print n) ≡ print n
trim-print n = trim-solid (print n) (all_digits-solid (print n) (print-all_digits n))

pub solid-append : (s t : String) → solid s ≡ true → solid t ≡ true → solid (s ++ t) ≡ true
unfolding solid
solid-append [] t hs ht = rw nil-append ht
solid-append (c ∷ s) t hs ht = rw cons-append (ground (arith, solid-append s t))

pub strip_prefix-append : (p s : String) → strip_prefix p (p ++ s) ≡ some s
unfolding strip_prefix
strip_prefix-append [] s = rw nil-append
strip_prefix-append (c ∷ p) s = rw cons-append (ground (arith, strip_prefix-append p s))

test : parse_uint 255 "+0255" ≡ ok 255
unfolding parse_uint
test = refl

test2 : parse_uint 255 "256" ≡ err pos_overflow
unfolding parse_uint
test2 = refl

test3 : trim " \tab c\n " ≡ "ab c"
unfolding trim
test3 = refl
