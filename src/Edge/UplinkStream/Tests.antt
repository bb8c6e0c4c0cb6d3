-- ===== src/Edge/UplinkStream/Tests.antt =====
-- Runs of crates/coldbore-edge/src/uplink_stream.rs: a batch of two that fails, and its retransmits.
use cold_bore.Base.{
  add64, ℕ, suc, ◌≤◌, ◌<◌, ◌≡◌, refl, true, false, List, [], ◌∷◌, arith, ltb, if◌then◌else◌,
}
use cold_bore.Proto.Float.{F32}
use cold_bore.Proto.Frame.{Frame}
use cold_bore.Edge.Uplink.{
  Reads, new, buffer_frame, next_publishable, fill_publish_queue, pull_loop, pull_round, stage,
}
use cold_bore.Edge.UplinkStream.{
  pump, stage_batch, stage_fresh, Session, Attempt, stage_retries, send_failed, reclaim,
  reclaim_entry, drain_inflight_to_retry,
}
use cold_bore.Edge.UplinkStream.Select.{publish_round, accept, select, gauge, drain_tick}
use cold_bore.Edge.UplinkStream.Run.{at_end, live_once, publish_loop, buffer_all, Life, run, start}
use cold_bore.Edge.UplinkStream.Supervisor.{Sound, stream_run_conserves}
use cold_bore.Edge.UplinkStream.Books.{Books}
use cold_bore.Edge.UplinkStream.Dedup.{Stream, publish_all, retransmits_filtered}

abbrev zero32 : F32
zero32 = record { bits = 0 }

abbrev sample : ℕ → Frame
sample seq = record {
  v = 1;
  pad = 1;
  well = 1;
  epoch = 1;
  seq = seq;
  t_ms = seq;
  pressure_psi = zero32;
  rate_bpm = zero32;
  proppant_ppa = zero32;
  temp_f = zero32;
}

-- A stream that keeps what it stored, newest first, and its floor.
abbrev Kept : Type 0
Kept = List (ℕ × Frame) × ℕ

abbrev publish : Kept → ℕ × Frame → Kept
publish t m = if ltb m.0 t.1 then t else (m ∷ t.0, suc m.0)

publish_old : (t : Kept) (m : ℕ × Frame) → m.0 < t.1 → publish t m ≡ t
publish_old t m h = ground arith

publish_new :
    (t : Kept) (m : ℕ × Frame)
    → t.1 ≤ m.0
    → ((publish t m).0 ≡ m ∷ t.0) × ((publish t m).1 ≡ suc m.0)
publish_new t m h = ground arith

abbrev stream : Stream
stream = record {
  State = Kept;
  stored = λ t. t.0;
  floor = λ t. t.1;
  publish = publish;
  filters = publish_old;
  stores = publish_new;
}

abbrev reads : ℕ → Reads
reads n = record { window = 0; link_up = λ round pad. true; pick = λ i. i }

abbrev attempt : ℕ → Attempt
attempt n = record { reads = reads; now = 1; sends = false; order = [] }

-- Two frames come in while the uplink is down; it connects, and the batch fails.
abbrev lives : List Life
lives =
    record {
      connects = false;
      now = 0;
      rounds = [];
      offline = sample 1 ∷ sample 2 ∷ [];
      closed = false;
    }
    ∷ record {
      connects = true;
      now = 1;
      rounds = record { attempts = attempt; event = drain_tick; order = [] } ∷ [];
      offline = [];
      closed = false;
    }
    ∷ []

given_two : (at_end (run 8 lives (start 1 10))).trace.given ≡ 2
unfolding run live_once publish_loop publish_round pump stage_batch stage_retries stage_fresh
    send_failed reclaim reclaim_entry drain_inflight_to_retry buffer_all accept start new
    buffer_frame next_publishable fill_publish_queue pull_loop pull_round stage select gauge add64
given_two = refl

stream_run_conserves_example : Sound (run 8 lives (start 1 10))
stream_run_conserves_example = stream_run_conserves 8 1 10 lives (omega (arith, given_two))

-- The two frames that came in while the uplink was down.
abbrev waiting : List Life
waiting =
    record {
      connects = false;
      now = 0;
      rounds = [];
      offline = sample 1 ∷ sample 2 ∷ [];
      closed = false;
    }
    ∷ []

abbrev before : Session
before = at_end (run 8 waiting (start 1 10))

abbrev works : ℕ → Attempt
works n = record { reads = reads; now = 1; sends = true; order = [] }

-- What the failed batch leaves: frame 1 had id 0 and frame 2 id 1; neither reached the broker.
abbrev after_failure : Session
after_failure = at_end (run 8 lives (start 1 10))

newer_on_top : after_failure.custody.retry_ids ≡ (sample 2, 1) ∷ (sample 1, 0) ∷ []
unfolding run live_once publish_loop publish_round pump stage_batch stage_retries stage_fresh
    send_failed reclaim reclaim_entry drain_inflight_to_retry buffer_all accept start new
    buffer_frame next_publishable fill_publish_queue pull_loop pull_round stage select gauge add64
newer_on_top = refl

retransmits_filtered_example :
    (publish_all stream ([], 0) (stage_retries 8 2 [] after_failure).0).0 ≡ (1, sample 2) ∷ []
retransmits_filtered_example =
    retransmits_filtered stream 7 2 1 (sample 2) ((sample 1, 0) ∷ []) after_failure ([], 0)
      newer_on_top (omega arith, tt) (omega arith)
