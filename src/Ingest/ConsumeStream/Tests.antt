-- ===== src/Ingest/ConsumeStream/Tests.antt =====
-- Runs of crates/coldbore-ingest/src/consume_stream.rs: two sessions, the first cut off in a flush.
use cold_bore.Base.{
  ◌≡◌, refl, ℕ, refl, true, false, List, [], ◌∷◌, ◌++◌, All, Option, none, some, arith, ◌==◌,
  if◌then◌else◌, add64,
}
use cold_bore.Proto.Frame
use cold_bore.Proto.Frame.{Frame}
use cold_bore.Proto.Config.{first}
use cold_bore.Ingest.Counters.{zeros}
use cold_bore.Ingest.Gap
use cold_bore.Ingest.Sink.{Row, Database, insert_batch_with_offset}
use cold_bore.Ingest.Sink.Samples.{table, sample}
use cold_bore.Ingest.Consume.{Bytes, parse_frame, committed, silent}
use cold_bore.Ingest.Sink.Batch.{Stored}
use cold_bore.Ingest.ConsumeStream.{
  parse_record, Turn, Event, delivered, flush_tick, start_position, supervise, accept, flush,
  consume_round, consume_loop, Session, running, run_stream,
}
use cold_bore.Ingest.ConsumeStream.Progress.{Done, delivered_records}
use cold_bore.Ingest.ConsumeStream.CaughtUp.{run_stream_catches_up}
use cold_bore.Ingest.ConsumeStream.Resumed.{Log}
use cold_bore.Ingest.ConsumeStream.Restarts.{Served, resume_covers}

-- A body of one byte is the frame of that number; the record at offset 1 is poison.
abbrev from_slice : Bytes → Option Frame
from_slice [] = none
from_slice (b ∷ _) = if b == 1 then none else some (sample b)

abbrev log : Log
log n = some (n ∷ [])

abbrev record_at : ℕ → Event
record_at n = delivered record { at = n; body = log n }

abbrev turn : Turn
turn = record { answer = committed; now = 5 }

-- The transaction commits, and the answer never comes.
abbrev cut : Turn
cut = record { answer = silent true; now = 5 }

abbrev sessions : List (List (ℕ × ℕ × ℕ × ℕ) × List (Event × Turn))
sessions =
    ([], (record_at 0, turn) ∷ (record_at 1, turn) ∷ (flush_tick, cut) ∷ [])
    ∷ ((1, 1, 1, 1) ∷ [], (record_at 2, turn) ∷ (flush_tick, turn) ∷ [])
    ∷ []

abbrev empty_store : Database (List Row)
empty_store = record { table = []; committed_offset = none }

served :
    Served table from_slice log 0 false first 10
      ((0, 2) ∷ (0, 3) ∷ [])
      sessions
      empty_store
      zeros
      Gap.new
unfolding start_position consume_loop consume_round accept flush parse_frame Frame.validate
    insert_batch_with_offset add64
served = (
  omega arith,
  (refl, refl, omega arith, (refl, refl, omega arith, tt)),
  (omega arith, (refl, refl, omega arith, tt), tt),
)

abbrev at_last : Database (List Row)
at_last = supervise table from_slice 10 sessions empty_store zeros Gap.new

stored_two : at_last.committed_offset ≡ some 2
unfolding supervise consume_loop consume_round accept flush parse_frame Frame.validate
    insert_batch_with_offset add64
stored_two = refl

parsed_two : parse_record from_slice (log 2) ≡ some (sample 2)
unfolding parse_frame Frame.validate
parsed_two = refl

resume_covers_example : Stored table at_last.table (sample 2)
resume_covers_example =
    resume_covers table from_slice log 0 false first 10 ((0, 2) ∷ (0, 3) ∷ []) sessions empty_store
      zeros Gap.new 2 2 (sample 2) served (λ k is. ground arith) stored_two (omega arith)
      (omega arith) parsed_two

-- Two records, a poison one, and the tick.
abbrev three_records : List (Event × Turn)
three_records = (record_at 0, turn) ∷ (record_at 1, turn) ∷ (record_at 2, turn) ∷ []

run_stream_catches_up_example :
    (s : Session (List Row)) × (run_stream table from_slice 2 []
        (three_records ++ (flush_tick, turn) ∷ [])
        empty_store
        zeros
        Gap.new
      ≡ running s)
    × (s.batch ≡ [])
    × All (Done table s.db) (delivered_records from_slice three_records [])
run_stream_catches_up_example =
    run_stream_catches_up table from_slice 2 [] three_records turn empty_store zeros Gap.new
      (omega arith, refl, (omega arith, refl, (omega arith, refl, (tt, refl, tt))))
