-- ===== src/Proto/Frame.antt =====
-- crates/coldbore-proto/src/frame.rs: the sensor frame and its contract.
pub mod Keys
use cold_bore.Base.{
  ◌≡◌, ◌≢◌, ◌↔◌, Bool-cases, inl, inr, true, Option, none, some, if◌then◌else◌, arith, err, ℕ,
  String, List, [], ◌∷◌, Result, ok, ◌>>◌, refuse_if, ◌==◌, not,
}
use Prim.Native.String.{◌++◌ as ◌<>◌}
use cold_bore.Base.Decimal.{print}
use cold_bore.Proto.Float.{F32, is_finite32}

abbrev pub frame_version : ℕ
frame_version = 1

pub record Frame : Type 0 where
  pub v : ℕ
  pub pad : ℕ
  pub well : ℕ
  pub epoch : ℕ
  pub seq : ℕ
  pub t_ms : ℕ
  pub pressure_psi : F32
  pub rate_bpm : F32
  pub proppant_ppa : F32
  pub temp_f : F32

pub data FrameError : Type 0 where
  version : ℕ → FrameError
  non_finite : String → FrameError

-- `Frame::routing_key`
unfoldable pub routing_key : Frame → String
routing_key f = "frames.pad" <> print f.pad <> ".well" <> print f.well

-- `Frame::message_id`
unfoldable pub message_id : Frame → String
message_id f = print f.pad <> "-" <> print f.well <> "-" <> print f.epoch <> "-" <> print f.seq

-- The loop of `validate` over the named channels: the first that is not finite is reported.
pub check_channels : List (String × F32) → Result (Unit {0}) FrameError
check_channels [] = ok tt
check_channels ((name, value) ∷ rest) =
    refuse_if (not (is_finite32 value)) (non_finite name) >> check_channels rest

abbrev pub channels : Frame → List (String × F32)
channels f =
    ("pressure_psi", f.pressure_psi)
    ∷ ("rate_bpm", f.rate_bpm)
    ∷ ("proppant_ppa", f.proppant_ppa)
    ∷ ("temp_f", f.temp_f)
    ∷ []

-- `Frame::validate`
unfoldable pub validate : Frame → Result (Unit {0}) FrameError
unfolding check_channels
validate f = refuse_if (not (f.v == frame_version)) (version f.v) >> check_channels (channels f)

-- What `validate` promises: the version, and four finite channels.
abbrev pub IsSound : Frame → Type 0
IsSound f =
    (f.v ≡ 1)
    × (is_finite32 f.pressure_psi ≡ true)
    × (is_finite32 f.rate_bpm ≡ true)
    × (is_finite32 f.proppant_ppa ≡ true)
    × (is_finite32 f.temp_f ≡ true)

-- The first channel of a list that is not finite, if there is one.
abbrev pub first_bad : List (String × F32) → Option String
first_bad [] = none
first_bad ((name, value) ∷ rest) = if is_finite32 value then first_bad rest else some name

check_channels-first_bad :
    (cs : List (String × F32)) (e : FrameError)
    → check_channels cs ≡ err e
    → (name : String) × (first_bad cs ≡ some name) × (e ≡ non_finite name)
unfolding check_channels
check_channels-first_bad [] e h = cc
check_channels-first_bad ((name, value) ∷ rest) e h = elim (Bool-cases (is_finite32 value)) [
  | inl p ↦ let (n, q, r) = check_channels-first_bad rest e (ground arith) in (n, rw p q, r)
  | inr p ↦ (name, rw p, ground arith)
]

-- A frame passes validation exactly if its version is 1 and its four channels are finite. A frame of
-- another version is refused with that version, whatever its channels hold; one of the right version
-- that is refused is refused with the name of its first channel that is not finite.
pub validate-IsSound :
    (f : Frame)
    → ((validate f ≡ ok tt) ↔ IsSound f)
      × (f.v ≢ 1 → validate f ≡ err (version f.v))
      × ((e : FrameError)
          → f.v ≡ 1
          → validate f ≡ err e
          → (name : String) × (first_bad (channels f) ≡ some name) × (e ≡ non_finite name))
unfolding validate
validate-IsSound f =
    (ground arith, λ h. ground arith, λ e v h. check_channels-first_bad (channels f) e (rw v at h))
