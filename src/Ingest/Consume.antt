-- ===== src/Ingest/Consume.antt =====
-- crates/coldbore-ingest/src/consume.rs: the classic consume loop. What the broker and the database
-- answer, and which branch of `select!` is ready, is the environment's choice. `trace` is not in the
-- program: it records what became of the deliveries. The latency histogram and the events of a
-- flush stand in Telemetry: nothing here reads them back.
pub mod Settled
pub mod Keeps
pub mod Accounts
pub mod Seeded
pub mod Delivered
pub mod Drained
mod Tests
use cold_bore.Base.{
  ℕ, Bool, true, false, List, [], ◌∷◌, ◌++◌, Option, none, some, Result, ok, err, leb,
  if◌then◌else◌, length, add64, sub64, not,
}
use cold_bore.Proto.Frame
use cold_bore.Proto.Frame.{Frame, FrameError}
use cold_bore.Ingest.Counters.{Counters}
use cold_bore.Ingest.Gap.{GapTracker, seed, observe}
use cold_bore.Ingest.Sink.{Engine, insert_batch}

abbrev pub Bytes : Type 0
Bytes = List ℕ

pub record Delivery : Type 0 where
  pub delivery_tag : ℕ
  pub redelivered : Bool
  pub body : Bytes

-- `serde_json::from_slice::<Frame>`, which is not of this program.
abbrev pub FromSlice : Type 0
FromSlice = Bytes → Option Frame

-- The body parses and the frame passes validation.
abbrev pub keep_valid : Frame → Result (Unit {0}) FrameError → Option Frame
keep_valid frame (ok _) = some frame
keep_valid frame (err _) = none

unfoldable pub parse_frame : FromSlice → Bytes → Option Frame
parse_frame from_slice body = elim (from_slice body) [
  | none ↦ none
  | some frame ↦ keep_valid frame (Frame.validate frame)
]

pub record Trace : Type 0 where
  -- The accepted deliveries of this session, by tag.
  pub accepted : List (ℕ × Frame)
  -- The tags that were rejected without requeue.
  pub rejected : List ℕ
  -- The broker has every delivery up to this tag as acked; 0 before the first ack.
  pub acked : ℕ

pub record Session (Table : Type 0) : Type 0 where
  pub table : Table
  pub counters : Counters
  pub gaps : GapTracker
  pub batch : List Frame
  pub highest_tag : ℕ
  pub trace : Trace

abbrev pub count_delivery : Bool → Counters → Counters
count_delivery redelivered c = record c {
  consumed = add64 c.consumed 1;
  redeliveries = if redelivered then add64 c.redeliveries 1 else c.redeliveries;
}

-- How the database answers within the time bound: it commits, it refuses and keeps nothing, or
-- nothing is heard, whether or not the statement was carried out.
pub data Answer : Type 0 where
  committed refused : Answer
  silent : Bool → Answer

-- How `basic_ack` ends: `Ok`, or an error after or before the ack reached the broker.
pub data Ack : Type 0 where
  ack_ok ack_late ack_unsent : Ack

pub record Turn : Type 0 where
  pub answer : Answer
  pub now : ℕ
  pub ack : Ack

-- A session runs, or its end makes the supervisor reconnect.
pub data Status (Table : Type 0) : Type 0 where
  running lost : Session Table → Status Table

abbrev pub at_end : {Table : Type 0} → Status Table → Session Table
at_end (running s) = s
at_end (lost s) = s

-- What a session starts with: `counters` and `gaps` outlive sessions, the batch does not.
abbrev pub fresh : {Table : Type 0} → Table → Counters → GapTracker → Session Table
fresh table counters gaps = record {
  table = table;
  counters = counters;
  gaps = gaps;
  batch = [];
  highest_tag = 0;
  trace = record { accepted = []; rejected = []; acked = 0 };
}

-- `gaps.seed` for each row of `sink.watermarks()`: pad, well, newest epoch, its newest seq.
unfoldable pub seed_all : List (ℕ × ℕ × ℕ × ℕ) → GapTracker → GapTracker
seed_all [] gaps = gaps
seed_all ((pad, well, epoch, max_seq) ∷ rows) gaps =
    seed_all rows (seed gaps pad well epoch max_seq)

-- `gaps.observe` for each frame of the batch.
unfoldable pub observe_all : ℕ → List Frame → GapTracker → GapTracker
observe_all now [] gaps = gaps
observe_all now (f ∷ fs) gaps = observe_all now fs (observe gaps f.pad f.well f.epoch f.seq now).0

-- The branch of `select!` that is taken.
pub data Event : Type 0 where
  delivered : Delivery → Event
  -- The stream yields an error, or ends.
  consumer_ended : Event
  flush_tick : Event
  -- Did the snapshot go out in time?
  metrics_tick : Bool → Event
  -- Did the broker answer the passive declare in time?
  probe_tick : Bool → Event

abbrev pub probe : {Table : Type 0} → Bool → Session Table → Status Table
probe true s = running s
probe false s = lost s

module _ (e : Engine) where
  abbrev pub At : Type 0
  At = Session e.Table

  -- `accept`, the parse done.
  pub accept_parsed : Delivery → Option Frame → At → At
  accept_parsed d none s = record s {
    counters = record (count_delivery d.redelivered s.counters) {
      poison = add64 s.counters.poison 1;
    };
    trace = record s.trace { rejected = d.delivery_tag ∷ s.trace.rejected };
  }
  accept_parsed d (some frame) s = record s {
    counters = count_delivery d.redelivered s.counters;
    batch = s.batch ++ frame ∷ [];
    highest_tag = d.delivery_tag;
    trace = record s.trace { accepted = (d.delivery_tag, frame) ∷ s.trace.accepted };
  }

  pub accept : FromSlice → Delivery → At → At
  unfolding accept_parsed
  accept from_slice d s = accept_parsed d (parse_frame from_slice d.body) s

  -- What follows the commit: account, in the order of the batch.
  pub account : e.Table → ℕ → ℕ → At → At
  account t inserted now s = record s {
    table = t;
    counters = record s.counters {
      inserted = add64 s.counters.inserted inserted;
      dup_dropped = add64 s.counters.dup_dropped (sub64 (length s.batch) inserted);
      batches = add64 s.counters.batches 1;
    };
    gaps = observe_all now s.batch s.gaps;
  }

  -- The multiple ack of everything up to the newest delivery in the batch, and `batch.clear()`.
  pub ack_batch : Ack → At → Status e.Table
  ack_batch ack_ok s =
      running record s { batch = []; trace = record s.trace { acked = s.highest_tag } }
  ack_batch ack_late s = lost record s { trace = record s.trace { acked = s.highest_tag } }
  ack_batch ack_unsent s = lost s

  pub flush_answered : Answer → ℕ → Ack → At → Status e.Table
  unfolding ack_batch account
  flush_answered committed now ack s =
      let (t, inserted) = insert_batch e s.table s.batch in ack_batch ack (account t inserted now s)
  flush_answered refused now ack s = lost s
  flush_answered (silent true) now ack s =
      lost (record s { table = (insert_batch e s.table s.batch).0 })
  flush_answered (silent false) now ack s = lost s

  -- `flush`
  abbrev pub flush : Turn → At → Status e.Table
  flush turn s = flush_answered turn.answer turn.now turn.ack s

  abbrev pub is_empty : List Frame → Bool
  is_empty [] = true
  is_empty (_ ∷ _) = false

  -- One round of the loop of `run_classic`, with `cfg.batch_max_frames`.
  pub consume_round : FromSlice → ℕ → Event → Turn → At → Status e.Table
  consume_round from_slice batch_max (delivered d) turn s =
      let s' = accept from_slice d s in
      if leb batch_max (length s'.batch) then flush turn s' else running s'
  consume_round from_slice batch_max consumer_ended turn s = lost s
  consume_round from_slice batch_max flush_tick turn s =
      if not (is_empty s.batch) then flush turn s else running s
  consume_round from_slice batch_max (metrics_tick in_time) turn s = probe in_time s
  consume_round from_slice batch_max (probe_tick alive) turn s = probe alive s

  -- The loop: the rounds until the session is lost, or as far as it has come.
  pub consume_loop : FromSlice → ℕ → List (Event × Turn) → Status e.Table → Status e.Table
  consume_loop from_slice batch_max rounds (lost s) = lost s
  consume_loop from_slice batch_max [] (running s) = running s
  consume_loop from_slice batch_max ((event, turn) ∷ rounds) (running s) =
      consume_loop from_slice batch_max rounds (consume_round from_slice batch_max event turn s)

  -- `run_classic`, once it is connected; `watermarks` is what the table answered.
  abbrev pub run_classic :
      FromSlice
      → ℕ
      → List (ℕ × ℕ × ℕ × ℕ)
      → List (Event × Turn)
      → e.Table
      → Counters
      → GapTracker
      → Status e.Table
  run_classic from_slice batch_max watermarks rounds table counters gaps =
      consume_loop from_slice batch_max rounds
        (running (fresh table counters (seed_all watermarks gaps)))
