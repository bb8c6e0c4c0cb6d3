-- ===== src/Edge/Faults/Tests.antt =====
-- Runs of crates/coldbore-edge/src/faults.rs at the inputs of its unit tests.
use cold_bore.Base.{
  ◌≡◌, refl, inl, true, false, List, [], ◌∷◌, Result, ok, err, String, none, arith,
}
use cold_bore.Proto.Float.{f64_hundred}
use cold_bore.Proto.Control.{
  down, ingest, ControlCommand, link, reorder, rate, topology, kill, reset,
}
use cold_bore.Edge.Faults.{FaultState, healthy, link_up, apply, serve}
use cold_bore.Edge.Faults.Bounds.{IsBounded, link_up-apply, serve-IsBounded}

abbrev two_pads : FaultState
two_pads = (apply (healthy 2 4) (link 1 down)).0

existing_fault_survives : link_up (apply two_pads (topology 5 2)).0 1 ≡ false
unfolding link_up apply healthy
existing_fault_survives = refl

kill_is_not_a_fault : (apply two_pads (kill ingest)).1 ≡ none
unfolding apply
kill_is_not_a_fault = refl

link_up-apply_example : link_up (apply two_pads reset).0 1 ≡ true
link_up-apply_example = link_up-apply two_pads reset 1

-- A rate of 100.0 is applied; the window of 5000 and the unparseable delivery are not.
abbrev deliveries : List (Result ControlCommand String)
deliveries =
    ok (rate f64_hundred) ∷ ok (reorder 5000) ∷ err "expected value" ∷ ok (link 1 down) ∷ []

healthy-IsBounded : IsBounded (healthy 2 4)
unfolding healthy
healthy-IsBounded = record {
  dup_rate = inl (omega arith);
  reorder_window = omega arith;
  rate_multiplier = omega arith;
  field_size = omega arith;
}

serve-IsBounded_example : IsBounded (serve deliveries (healthy 2 4))
serve-IsBounded_example = serve-IsBounded deliveries (healthy 2 4) healthy-IsBounded (omega arith)
