-- ===== src/Edge/Uplink/Tests.antt =====
-- Runs of crates/coldbore-edge/src/uplink.rs at the inputs of its unit tests.
use cold_bore.Base.{
  ◌≤◌, ◌++◌, inl, inr, length, add64, ltb, if◌then◌else◌, ℕ, ◌+◌, ◌≡◌, refl, true, false, List, [],
  ◌∷◌, some, arith,
}
use cold_bore.Base.Map.{lookup}
use cold_bore.Edge.Uplink.InOrder.{
  Step, arrives, asks, history, start as begin, InOrder, handed_out-InOrder,
}
use cold_bore.Proto.Float.{F32, f64_zero, f64_one}
use cold_bore.Proto.Frame.{Frame}
use cold_bore.Edge.Counters.{zeros}
use cold_bore.Base.{Result, ok, err, String}
use cold_bore.Proto.Control.{ControlCommand, link, topology, down}
use cold_bore.Edge.Faults.{FaultState, healthy, apply, serve}
use cold_bore.Edge.Faults.Bounds.{link_up-apply}
use cold_bore.Edge.Uplink.Severed.{reads_of, severed_waits}
use cold_bore.Edge.Uplink.{
  UplinkState, Reads, new, buffer_frame, next_publishable, fill_publish_queue, pull_loop,
  pull_round, pull_limit, stage, buffer_of,
}
use cold_bore.Edge.Uplink.Capacity.{Fits, mixed, buffer_frame-Fits, buffers-Fits}
use cold_bore.Edge.Uplink.Rounds.{pull_loop_enough}
use cold_bore.Edge.Uplink.Session.{
  Attempt, sent, error, ack, nack, Event, reaped, received, channel_closed, drain_tick,
}
use cold_bore.Edge.Uplink.Session.Books.{Good}
use cold_bore.Edge.Uplink.Session.Supervisor.{run_conserves}
use cold_bore.Edge.Uplink.Session.Run.{Round, Life, serving, run, start}

abbrev zero32 : F32
zero32 = record { bits = 0 }

abbrev sample : ℕ → ℕ → Frame
sample pad seq = record {
  v = 1;
  pad = pad;
  well = 1;
  epoch = 1;
  seq = seq;
  t_ms = seq;
  pressure_psi = zero32;
  rate_bpm = zero32;
  proppant_ppa = zero32;
  temp_f = zero32;
}

abbrev all_up : Reads
all_up = record { window = 0; link_up = λ round pad. true; pick = λ i. i }

-- A cap of 3: of five frames the oldest two are given up.
abbrev overfull : UplinkState
overfull = fill (sample 1 1 ∷ sample 1 2 ∷ sample 1 3 ∷ sample 1 4 ∷ sample 1 5 ∷ []) (new 2 3)
  where
    fill : List Frame → UplinkState → UplinkState
    fill [] st = st
    fill (f ∷ fs) st = fill fs (buffer_frame st f zeros).0

oldest_dropped : lookup 1 overfull.pad_buffers ≡ some (sample 1 3 ∷ sample 1 4 ∷ sample 1 5 ∷ [])
unfolding buffer_frame new
oldest_dropped = refl

first_out : (next_publishable all_up overfull).0 ≡ some (sample 1 3, false)
unfolding buffer_frame new next_publishable fill_publish_queue pull_loop pull_round stage
first_out = refl

full_cap : 1 ≤ overfull.buffer_cap
unfolding buffer_frame new
full_cap = omega arith

full-Fits : Fits overfull.buffer_cap overfull.pad_buffers
unfolding buffer_frame new
full-Fits = (omega arith, (omega arith, tt))

buffer_frame-Fits_example :
    let (st', c', gone) = buffer_frame overfull (sample 1 6) zeros in
    Fits overfull.buffer_cap st'.pad_buffers
    × (gone ++ buffer_of st' 1 ≡ buffer_of overfull 1 ++ sample 1 6 ∷ [])
    × (length gone ≡ (if ltb (length (buffer_of overfull 1)) overfull.buffer_cap then 0 else 1))
    × (c'.buffer_dropped ≡ add64 0 (length gone))
buffer_frame-Fits_example =
    buffer_frame-Fits overfull (sample 1 6) zeros full_cap full-Fits (omega arith)

-- With a cap of 1: the second frame pushes the first one out, and then one more comes in.
abbrev steps : List Step
steps =
    arrives (sample 1 1) zeros
    ∷ arrives (sample 1 2) zeros
    ∷ asks all_up
    ∷ arrives (sample 1 3) zeros
    ∷ asks all_up
    ∷ []

two_handed_out : (history steps (begin 2 1)).handed_out ≡ sample 1 2 ∷ sample 1 3 ∷ []
unfolding buffer_frame new next_publishable fill_publish_queue pull_loop pull_round stage
two_handed_out = refl

handed_out-InOrder_example : InOrder 1 (history steps (begin 2 1))
handed_out-InOrder_example =
    handed_out-InOrder 1 2 1 steps (tt, (tt, (omega arith, (tt, (omega arith, tt)))))

buffers-Fits_example :
    Fits 1
      (mixed
        (inl (sample 1 1) ∷ inl (sample 1 2) ∷ inr all_up ∷ inl (sample 1 3) ∷ [])
        (new 2 1)).pad_buffers
buffers-Fits_example =
    buffers-Fits 2 1 (inl (sample 1 1) ∷ inl (sample 1 2) ∷ inr all_up ∷ inl (sample 1 3) ∷ [])
      (omega arith)

pull_loop_enough_example :
    pull_loop (pull_limit + 3) 0 all_up.link_up 0 overfull
    ≡ pull_loop pull_limit 0 all_up.link_up 0 overfull
pull_loop_enough_example =
    pull_loop_enough pull_limit 3 0 all_up.link_up 0 overfull (omega arith) (omega arith)

abbrev works : ℕ → Attempt
works room = record { reads = all_up; result = sent }

abbrev breaks : ℕ → Attempt
breaks room = record { reads = all_up; result = error }

abbrev round : (ℕ → Attempt) → Event → Round
round attempts event = record { attempts = attempts; event = event; reaps = ack ∷ [] }

-- A frame comes in and goes out, is nacked, and the publish of its retransmission fails; a second
-- frame comes in while the uplink waits; both are confirmed in the next session.
abbrev lives : List Life
lives =
    record {
      connects = serving;
      now = 0;
      rounds =
          round works (received (sample 1 1))
          ∷ round works (reaped nack f64_zero f64_zero 5)
          ∷ round breaks drain_tick
          ∷ [];
      offline = sample 2 10 ∷ [];
      closed = false;
    }
    ∷ record {
      connects = serving;
      now = 900;
      rounds =
          round works (reaped ack f64_one f64_zero 905)
          ∷ round works (reaped ack f64_zero f64_zero 906)
          ∷ round works channel_closed
          ∷ [];
      offline = [];
      closed = true;
    }
    ∷ []

run_conserves_example : Good (run 4 lives (start 2 3))
run_conserves_example = run_conserves 4 2 3 lives

-- The link of pad 1 is cut; then the field grows, and an unreadable delivery comes in.
abbrev severed : FaultState
severed = (apply (healthy 2 4) (link 1 down)).0

abbrev growing : List (Result ControlCommand String)
growing = ok (topology 3 4) ∷ err "expected value" ∷ []

abbrev severed_reads : Reads
severed_reads = reads_of (serve growing severed) (λ turn at. serve growing severed) (λ i. i)

severed_waits_example :
    lookup 1 (fill_publish_queue severed_reads overfull).pad_buffers ≡ lookup 1 overfull.pad_buffers
severed_waits_example =
    severed_waits severed growing (λ turn at. growing) (λ i. i) overfull 1
      (link_up-apply (healthy 2 4) (link 1 down) 1) (λ turn at. (refl, (tt, tt)))
