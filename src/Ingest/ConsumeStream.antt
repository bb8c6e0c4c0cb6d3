-- ===== src/Ingest/ConsumeStream.antt =====
-- crates/coldbore-ingest/src/consume_stream.rs: the stream-mode consume loop. The environment chooses
-- as for the classic loop; the outcome of the broker's own offset store is ignored by the code.
pub mod Resumed
pub mod Restarts
pub mod Progress
pub mod CaughtUp
mod Tests
use cold_bore.Base.{
  ℕ, Bool, true, false, List, [], ◌∷◌, ◌++◌, Option, none, some, leb, if◌then◌else◌, length, add64,
  sub64, not,
}
use cold_bore.Proto.Frame.{Frame}
use cold_bore.Proto.Config.{StreamFrom}
use cold_bore.Ingest.Counters.{Counters}
use cold_bore.Ingest.Gap.{GapTracker}
use cold_bore.Ingest.Sink.{Engine, Database, insert_batch_with_offset, stored_offset}
use cold_bore.Ingest.Consume.{
  Bytes, FromSlice, parse_frame, Answer, committed, refused, silent, observe_all, seed_all,
}

-- The client library's `OffsetSpecification`, as far as the code uses it.
pub data OffsetSpecification : Type 0 where
  first next : OffsetSpecification
  offset : ℕ → OffsetSpecification

-- What `cfg.stream_from` asks the broker for.
abbrev pub requested : StreamFrom → OffsetSpecification
requested StreamFrom.first = first
requested StreamFrom.next = next
requested (StreamFrom.offset n) = offset n

-- The stored offset wins unless a replay is forced.
pub start_position : Bool → Option ℕ → StreamFrom → OffsetSpecification
start_position false (some stored) stream_from = offset (add64 stored 1)
start_position false none stream_from = requested stream_from
start_position true stored stream_from = requested stream_from

-- A record of the stream: its offset, and its message's data, if it has any.
pub record Delivery : Type 0 where
  pub at : ℕ
  pub body : Option Bytes

pub record Session (Table : Type 0) : Type 0 where
  pub db : Database Table
  pub counters : Counters
  pub gaps : GapTracker
  pub batch : List Frame
  pub last_offset : ℕ
  pub committed : Option ℕ

pub data Status (Table : Type 0) : Type 0 where
  running lost : Session Table → Status Table

pub record Turn : Type 0 where
  pub answer : Answer
  pub now : ℕ

pub data Event : Type 0 where
  delivered : Delivery → Event
  consumer_ended : Event
  flush_tick : Event
  metrics_tick : Bool → Event
  probe_tick : Bool → Event

abbrev pub parse_record : FromSlice → Option Bytes → Option Frame
parse_record from_slice none = none
parse_record from_slice (some body) = parse_frame from_slice body

abbrev pub probe : {Table : Type 0} → Bool → Session Table → Status Table
probe true s = running s
probe false s = lost s

abbrev pub database : {Table : Type 0} → Status Table → Database Table
database (running s) = s.db
database (lost s) = s.db

abbrev pub at_end : {Table : Type 0} → Status Table → Session Table
at_end (running s) = s
at_end (lost s) = s

-- What a session starts with.
abbrev pub fresh :
    {Table : Type 0} → List (ℕ × ℕ × ℕ × ℕ) → Database Table → Counters → GapTracker → Session Table
fresh watermarks db counters gaps = record {
  db = db;
  counters = counters;
  gaps = seed_all watermarks gaps;
  batch = [];
  last_offset = 0;
  committed = stored_offset db;
}

module _ (e : Engine) where
  abbrev pub At : Type 0
  At = Session e.Table

  -- A record arrives: poison is counted and skipped.
  pub accept : ℕ → Option Frame → At → At
  accept at none s = record s {
    counters = record s.counters {
      consumed = add64 s.counters.consumed 1;
      poison = add64 s.counters.poison 1;
    };
    last_offset = at;
  }
  accept at (some frame) s = record s {
    counters = record s.counters { consumed = add64 s.counters.consumed 1 };
    batch = s.batch ++ frame ∷ [];
    last_offset = at;
  }

  -- `flush`
  pub flush : Answer → ℕ → At → Status e.Table
  flush committed now s =
      let (db, inserted) = insert_batch_with_offset e s.db s.batch s.last_offset in
      running record {
        db = db;
        counters = record s.counters {
          inserted = add64 s.counters.inserted inserted;
          dup_dropped = add64 s.counters.dup_dropped (sub64 (length s.batch) inserted);
          batches = add64 s.counters.batches 1;
        };
        gaps = observe_all now s.batch s.gaps;
        batch = [];
        last_offset = s.last_offset;
        committed = some s.last_offset;
      }
  flush refused now s = lost s
  flush (silent true) now s =
      lost record s { db = (insert_batch_with_offset e s.db s.batch s.last_offset).0 }
  flush (silent false) now s = lost s

  abbrev pub is_empty : List Frame → Bool
  is_empty [] = true
  is_empty (_ ∷ _) = false

  -- One round of the loop of `run_stream`.
  pub consume_round : FromSlice → ℕ → Event → Turn → At → Status e.Table
  consume_round from_slice batch_max (delivered d) turn s =
      let s' = accept d.at (parse_record from_slice d.body) s in
      if leb batch_max (length s'.batch) then flush turn.answer turn.now s' else running s'
  consume_round from_slice batch_max consumer_ended turn s = lost s
  consume_round from_slice batch_max flush_tick turn s =
      if not (is_empty s.batch) then flush turn.answer turn.now s else running s
  consume_round from_slice batch_max (metrics_tick in_time) turn s = probe in_time s
  consume_round from_slice batch_max (probe_tick alive) turn s = probe alive s

  pub consume_loop : FromSlice → ℕ → List (Event × Turn) → Status e.Table → Status e.Table
  consume_loop from_slice batch_max rounds (lost s) = lost s
  consume_loop from_slice batch_max [] (running s) = running s
  consume_loop from_slice batch_max ((event, turn) ∷ rounds) (running s) =
      consume_loop from_slice batch_max rounds (consume_round from_slice batch_max event turn s)

  -- `run_stream`, once it is connected.
  abbrev pub run_stream :
      FromSlice
      → ℕ
      → List (ℕ × ℕ × ℕ × ℕ)
      → List (Event × Turn)
      → Database e.Table
      → Counters
      → GapTracker
      → Status e.Table
  run_stream from_slice batch_max watermarks rounds db counters gaps =
      consume_loop from_slice batch_max rounds (running (fresh watermarks db counters gaps))

  -- The supervisor of crates/coldbore-ingest/src/main.rs in stream mode: one session after the other,
  -- with the counters and the gaps kept. A session ends lost, or it is cut off where its rounds end.
  pub supervise :
      FromSlice
      → ℕ
      → List (List (ℕ × ℕ × ℕ × ℕ) × List (Event × Turn))
      → Database e.Table
      → Counters
      → GapTracker
      → Database e.Table
  supervise from_slice batch_max [] db counters gaps = db
  supervise from_slice batch_max ((watermarks, rounds) ∷ sessions) db counters gaps =
      let s = at_end (run_stream from_slice batch_max watermarks rounds db counters gaps) in
      supervise from_slice batch_max sessions s.db s.counters s.gaps
