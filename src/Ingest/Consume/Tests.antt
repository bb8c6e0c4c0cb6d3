-- ===== src/Ingest/Consume/Tests.antt =====
-- Runs of crates/coldbore-ingest/src/consume.rs: a poison delivery, two batches, a lost ack.
use cold_bore.Base.{All, ℕ, ◌≡◌, refl, false, List, [], ◌∷◌, ◌++◌, Option, none, some, arith}
use cold_bore.Proto.Frame
use cold_bore.Proto.Frame.{Frame}
use cold_bore.Ingest.Sink.{Row}
use cold_bore.Ingest.Counters.{zeros}
use cold_bore.Ingest.Gap
use cold_bore.Ingest.Gap.{GapTracker, WellGaps}
use cold_bore.Ingest.Sink.Samples.{table, sample}
use cold_bore.Ingest.Consume.{
  Bytes, Session, committed, ack_ok, ack_late, Turn, running, at_end, Event, delivered, flush_tick,
  run_classic,
}
use cold_bore.Ingest.Consume.Settled.{acked_frames, acked-Stored}
use cold_bore.Ingest.Sink.Batch.{Stored}
use cold_bore.Ingest.Consume.Delivered.{delivered_frames, newest_tag}
use cold_bore.Ingest.Consume.Drained.{run_classic_drains}

-- A body of one byte is the frame of that number.
abbrev from_slice : Bytes → Option Frame
from_slice [] = none
from_slice (b ∷ _) = some (sample b)

abbrev delivery : ℕ → Bytes → Event
delivery tag body = delivered record { delivery_tag = tag; redelivered = false; body = body }

abbrev commits : Turn
commits = record { answer = committed; now = 5; ack = ack_ok }

abbrev no_ack : Turn
no_ack = record { answer = committed; now = 6; ack = ack_late }

-- A batch of two is full at the third delivery: the second is poison.
abbrev rounds : List (Event × Turn)
rounds =
    (delivery 1 (1 ∷ []), commits)
    ∷ (delivery 2 [], commits)
    ∷ (delivery 3 (1 ∷ []), commits)
    ∷ (delivery 4 (3 ∷ []), commits)
    ∷ []

-- The ack of the same batch reaches the broker, and the channel fails.
abbrev cut_short : List (Event × Turn)
cut_short =
    (delivery 1 (1 ∷ []), commits) ∷ (delivery 2 [], commits) ∷ (delivery 3 (1 ∷ []), no_ack) ∷ []

abbrev stored_before : List (ℕ × ℕ × ℕ × ℕ)
stored_before = (1, 1, 1, 0) ∷ []

abbrev after_cut : Session (List Row)
after_cut = at_end (run_classic table from_slice 2 stored_before cut_short [] zeros Gap.new)

acked-Stored_example :
    All (Stored table after_cut.table) (acked_frames after_cut.trace.acked after_cut.trace.accepted)
acked-Stored_example =
    acked-Stored table from_slice 2 stored_before cut_short [] zeros Gap.new
      (omega arith, (omega arith, (omega arith, tt)))

abbrev after_rounds : Session (List Row)
after_rounds = at_end (run_classic table from_slice 2 stored_before rounds [] zeros Gap.new)

-- A batch that fills, one that the tick flushes, and a poison delivery.
run_classic_drains_example :
    (s : Session (List Row)) × (run_classic table from_slice 2 stored_before
        (rounds ++ (flush_tick, commits) ∷ [])
        []
        zeros
        Gap.new
      ≡ running s)
    × (s.batch ≡ [])
    × (s.trace.acked ≡ newest_tag from_slice rounds 0)
    × All (Stored table s.table) (delivered_frames from_slice rounds [])
run_classic_drains_example =
    run_classic_drains table from_slice 2 stored_before rounds commits [] zeros Gap.new
      (all_fine, (all_fine, (all_fine, (all_fine, (all_fine, tt)))))
  where
    all_fine : Unit {0} × (commits.answer ≡ committed) × (commits.ack ≡ ack_ok)
    all_fine = (tt, refl, refl)
