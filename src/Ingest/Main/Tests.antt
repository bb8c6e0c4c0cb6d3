-- ===== src/Ingest/Main/Tests.antt =====
-- Runs of crates/coldbore-ingest/src/main.rs: a refused connection, then two sessions of classic mode.
use cold_bore.Base.{ℕ, ◌≤◌, ◌≡◌, List, [], ◌∷◌, All, length, Option, none, some, false, arith}
use cold_bore.Proto.Config.{classic}
use cold_bore.Proto.Frame.{Frame}
use cold_bore.Ingest.Counters.{zeros}
use cold_bore.Ingest.Gap
use cold_bore.Ingest.Sink.{Row, Database}
use cold_bore.Ingest.Sink.Batch.{Stored}
use cold_bore.Ingest.Sink.Samples.{table, sample}
use cold_bore.Ingest.Consume.{
  Bytes, Event, delivered, flush_tick, Turn, committed, ack_ok, ack_unsent,
}
use cold_bore.Ingest.Main.{Input, unconnected, connected, run}
use cold_bore.Ingest.Main.Backoff.{waits_from, run-waits_from}
use cold_bore.Ingest.Main.Acked.{all_acked, restarts_keep_acked}

abbrev from_slice : Bytes → Option Frame
from_slice [] = none
from_slice (b ∷ _) = some (sample b)

abbrev delivery : ℕ → Event
delivery tag = delivered record { delivery_tag = tag; redelivered = false; body = tag ∷ [] }

abbrev commits : Turn
commits = record { answer = committed; now = 5; ack = ack_ok }

abbrev cut_off : Turn
cut_off = record { answer = committed; now = 5; ack = ack_unsent }

abbrev inputs : List Input
inputs =
    unconnected
    ∷ connected [] ((delivery 1, commits) ∷ (flush_tick, commits) ∷ []) []
    ∷ connected ((1, 1, 1, 1) ∷ []) ((delivery 1, commits) ∷ (flush_tick, cut_off) ∷ []) []
    ∷ []

abbrev empty_database : Database (List Row)
empty_database = record { table = []; committed_offset = none }

restarts_keep_acked_example :
    let last = (run table from_slice 10 classic inputs empty_database zeros Gap.new).0 in
    All (Stored table last.db.table) (all_acked last.trace)
restarts_keep_acked_example =
    restarts_keep_acked table from_slice 10 inputs empty_database zeros Gap.new
      (omega arith, (omega arith, tt))

run-waits_from_example :
    let waits = (run table from_slice 10 classic inputs empty_database zeros Gap.new).1 in
    (waits ≡ waits_from 0 (length inputs)) × All (λ w. (500 ≤ w) × (w ≤ 10000)) waits
run-waits_from_example =
    run-waits_from table from_slice 10 classic inputs empty_database zeros Gap.new
