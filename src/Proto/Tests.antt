-- ===== src/Proto/Tests.antt =====
-- Runs of the checks of crates/coldbore-proto at the inputs of their unit tests.
use cold_bore.Base.{◌≡◌, ◌≢◌, ◌↔◌, refl, ok, err, some, String, arith}
use cold_bore.Proto.Frame
use cold_bore.Proto.Frame.{
  Frame, FrameError, version, non_finite, IsSound, channels, first_bad, validate-IsSound,
  message_id, routing_key,
}
use cold_bore.Proto.Frame.Keys.{SameIdentity, message_id-SameIdentity}
use cold_bore.Proto.Control
use cold_bore.Proto.Control.{
  ControlCommand, ControlError, topology, InBounds, error_of, validate-InBounds,
}

-- A pressure of NaN, the other channels 1.0.
abbrev poison : Frame
poison = record {
  v = 1;
  pad = 2;
  well = 5;
  epoch = 1724790000000;
  seq = 184467;
  t_ms = 1724790000123;
  pressure_psi = record { bits = 0x7fc0_0000 };
  rate_bpm = record { bits = 0x3f80_0000 };
  proppant_ppa = record { bits = 0x3f80_0000 };
  temp_f = record { bits = 0x3f80_0000 };
}

poison_refused : Frame.validate poison ≡ err (non_finite "pressure_psi")
unfolding Frame.validate
poison_refused = refl

validate-IsSound_example :
    ((Frame.validate poison ≡ ok tt) ↔ IsSound poison)
    × (poison.v ≢ 1 → Frame.validate poison ≡ err (version poison.v))
    × ((e : FrameError)
        → poison.v ≡ 1
        → Frame.validate poison ≡ err e
        → (name : String) × (first_bad (channels poison) ≡ some name) × (e ≡ non_finite name))
validate-IsSound_example = validate-IsSound poison

-- 64 by 64 is within both bounds and over the total.
validate-InBounds_example :
    ((Control.validate (topology 64 64) ≡ ok tt) ↔ InBounds (topology 64 64))
    × ((e : ControlError)
        → Control.validate (topology 64 64) ≡ err e
        → error_of (topology 64 64) ≡ some e)
validate-InBounds_example = validate-InBounds (topology 64 64) tt

-- Pad 1, well 23 and pad 12, well 3.
message_id-SameIdentity_example :
    let f = record poison { pad = 1; well = 23 } in
    let g = record poison { pad = 12; well = 3 } in
    ((message_id f ≡ message_id g) ↔ SameIdentity f g)
    × ((routing_key f ≡ routing_key g) ↔ ((f.pad ≡ g.pad) × (f.well ≡ g.well)))
message_id-SameIdentity_example =
    message_id-SameIdentity (record poison { pad = 1; well = 23 })
      (record poison { pad = 12; well = 3 }) (omega arith) (omega arith)
