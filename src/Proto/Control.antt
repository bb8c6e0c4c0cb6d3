-- ===== src/Proto/Control.antt =====
-- crates/coldbore-proto/src/control.rs: the commands of the control plane and their bounds.
use cold_bore.Base.{
  ℕ, ◌*◌, ◌≤◌, ◌<◌, ◌≡◌, refl, ◌⊎◌, ◌↔◌, Bool, ◌&&◌, ◌||◌, not, Result, ok, err, refuse_if, ltb,
  ◌==◌, Option, none, some, ◌^◌, arith,
}
use cold_bore.Proto.Float.{F64, is_finite64, lt64, le64, f64_zero, f64_one, f64_hundred}

pub data LinkState : Type 0 where
  up down : LinkState

pub data ServiceId : Type 0 where
  edge ingest : ServiceId

pub data ControlCommand : Type 0 where
  -- pad, state
  link : ℕ → LinkState → ControlCommand
  dup : F64 → ControlCommand
  reorder : ℕ → ControlCommand
  rate : F64 → ControlCommand
  -- pads, wells_per_pad
  topology : ℕ → ℕ → ControlCommand
  kill : ServiceId → ControlCommand
  reset : ControlCommand

pub data ControlError : Type 0 where
  dup_rate : F64 → ControlError
  reorder_window : ℕ → ControlError
  rate_multiplier : F64 → ControlError
  bad_topology : ℕ → ℕ → ControlError

abbrev pub max_reorder_window : ℕ
max_reorder_window = 4096

abbrev pub min_rate_multiplier : F64
min_rate_multiplier = f64_zero

abbrev pub max_rate_multiplier : F64
max_rate_multiplier = f64_hundred

abbrev pub max_pads : ℕ
max_pads = 64

abbrev pub max_wells_per_pad : ℕ
max_wells_per_pad = 64

abbrev pub max_total_wells : ℕ
max_total_wells = 2048

-- `u32::from(pads) * u32::from(wells_per_pad)` cannot wrap: both are u16.
abbrev pub topology_out_of_bounds : ℕ → ℕ → Bool
topology_out_of_bounds pads wells_per_pad =
    pads == 0
    || wells_per_pad == 0
    || ltb max_pads pads
    || ltb max_wells_per_pad wells_per_pad
    || ltb max_total_wells (pads * wells_per_pad)

-- `ControlCommand::validate`
unfoldable pub validate : ControlCommand → Result (Unit {0}) ControlError
validate (dup fraction) =
    refuse_if (not (le64 f64_zero fraction && le64 fraction f64_one) || not (is_finite64 fraction))
      (dup_rate fraction)
validate (reorder window) = refuse_if (ltb max_reorder_window window) (reorder_window window)
validate (rate multiplier) =
    refuse_if
      (not (is_finite64 multiplier)
        || le64 multiplier min_rate_multiplier
        || lt64 max_rate_multiplier multiplier)
      (rate_multiplier multiplier)
validate (topology pads wells_per_pad) =
    refuse_if (topology_out_of_bounds pads wells_per_pad) (bad_topology pads wells_per_pad)
validate (link pad state) = ok tt
validate (kill service) = ok tt
validate reset = ok tt

-- The bounds that the constants name, by bits where the number is an f64: from 0.0 to 1.0 (or -0.0),
-- and above 0.0 up to 100.0.
abbrev pub InBounds : ControlCommand → Type 0
InBounds (dup fraction) = (fraction.bits ≤ f64_one.bits) ⊎ (fraction.bits ≡ 0x8000_0000_0000_0000)
InBounds (reorder window) = window ≤ 4096
InBounds (rate multiplier) = (0 < multiplier.bits) × (multiplier.bits ≤ f64_hundred.bits)
InBounds (topology pads wells) =
    (1 ≤ pads) × (pads ≤ 64) × (1 ≤ wells) × (wells ≤ 64) × (pads * wells ≤ 2048)
InBounds (link pad state) = Unit {0}
InBounds (kill service) = Unit {0}
InBounds reset = Unit {0}

-- The values that a command holds are those of a u16, u32 or f64.
abbrev pub IsWord : ControlCommand → Type 0
IsWord (dup fraction) = fraction.bits < 2 ^ 64
IsWord (rate multiplier) = multiplier.bits < 2 ^ 64
IsWord c = Unit {0}

-- The error that names a command's own values.
abbrev pub error_of : ControlCommand → Option ControlError
error_of (dup fraction) = some (dup_rate fraction)
error_of (reorder window) = some (reorder_window window)
error_of (rate multiplier) = some (rate_multiplier multiplier)
error_of (topology pads wells) = some (bad_topology pads wells)
error_of (link pad state) = none
error_of (kill service) = none
error_of reset = none

dup_valid : (x : F64) → x.bits < 2 ^ 64 → (validate (dup x) ≡ ok tt) ↔ InBounds (dup x)
unfolding validate
dup_valid x h = ground arith

rate_valid : (x : F64) → x.bits < 2 ^ 64 → (validate (rate x) ≡ ok tt) ↔ InBounds (rate x)
unfolding validate
rate_valid x h = ground arith

topology_valid : (p w : ℕ) → (validate (topology p w) ≡ ok tt) ↔ InBounds (topology p w)
unfolding validate
topology_valid p w = ground arith

reorder_valid : (n : ℕ) → (validate (reorder n) ≡ ok tt) ↔ InBounds (reorder n)
unfolding validate
reorder_valid n = ground arith

-- A command whose numbers fit their machine types passes validation exactly if it is within the
-- documented bounds: a duplicate rate from 0.0 to 1.0, a window of at most 4096, a rate multiplier
-- above 0.0 and up to 100.0, a field of 1 to 64 pads by 1 to 64 wells with at most 2048 wells. Where
-- it is refused, the error names the command's own values; `link`, `kill` and `reset` never are.
pub validate-InBounds :
    (c : ControlCommand)
    → IsWord c
    → ((validate c ≡ ok tt) ↔ InBounds c)
      × ((e : ControlError) → validate c ≡ err e → error_of c ≡ some e)
unfolding validate
validate-InBounds (link pad state) h = ((λ _. tt, λ _. refl), λ e p. cc)
validate-InBounds (dup fraction) h = (dup_valid fraction h, λ e p. ground arith)
validate-InBounds (reorder window) h = (reorder_valid window, λ e p. ground arith)
validate-InBounds (rate multiplier) h = (rate_valid multiplier h, λ e p. ground arith)
validate-InBounds (topology pads wells) h = (topology_valid pads wells, λ e p. ground arith)
validate-InBounds (kill service) h = ((λ _. tt, λ _. refl), λ e p. cc)
validate-InBounds reset h = ((λ _. tt, λ _. refl), λ e p. cc)
