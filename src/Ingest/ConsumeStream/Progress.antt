-- ===== src/Ingest/ConsumeStream/Progress.antt =====
-- What the environment gives crates/coldbore-ingest/src/consume_stream.rs while all goes well, and what
-- is done with a record then.
use cold_bore.Base.{ℕ, ◌≤◌, ◌≡◌, true, List, [], ◌∷◌, ◌++◌, Option, none, some}
use cold_bore.Proto.Frame.{Frame}
use cold_bore.Ingest.Sink.{Engine, Database}
use cold_bore.Ingest.Sink.Batch.{Stored}
use cold_bore.Ingest.Consume.{FromSlice, committed}
use cold_bore.Ingest.ConsumeStream.{
  parse_record, Turn, Event, delivered, consumer_ended, flush_tick, metrics_tick, probe_tick,
}

-- The consumer goes on behind an offset: the records come in ascending order, and the snapshot and the
-- probe come back in time.
abbrev pub Goes : ℕ → Event → Type 0
Goes last (delivered d) = last ≤ d.at
Goes last consumer_ended = ⊥
Goes last flush_tick = Unit
Goes last (metrics_tick in_time) = in_time ≡ true
Goes last (probe_tick alive) = alive ≡ true

abbrev pub offset_behind : ℕ → Event → ℕ
offset_behind last (delivered d) = d.at
offset_behind last consumer_ended = last
offset_behind last flush_tick = last
offset_behind last (metrics_tick _) = last
offset_behind last (probe_tick _) = last

-- In every round the database commits, should it be asked.
abbrev pub Healthy : ℕ → List (Event × Turn) → Type 0
Healthy last [] = Unit
Healthy last ((event, turn) ∷ rounds) =
    Goes last event × (turn.answer ≡ committed) × Healthy (offset_behind last event) rounds

-- A valid record: its offset and its frame.
abbrev pub Found : Type 0
Found = ℕ × Frame

abbrev pub found : ℕ → Option Frame → List Found
found at none = []
found at (some f) = (at, f) ∷ []

abbrev pub brought : FromSlice → Event → List Found
brought from_slice (delivered d) = found d.at (parse_record from_slice d.body)
brought from_slice consumer_ended = []
brought from_slice flush_tick = []
brought from_slice (metrics_tick _) = []
brought from_slice (probe_tick _) = []

-- The valid records that were delivered, newest first.
abbrev pub delivered_records : FromSlice → List (Event × Turn) → List Found → List Found
delivered_records from_slice [] rs = rs
delivered_records from_slice ((event, turn) ∷ rounds) rs =
    delivered_records from_slice rounds (brought from_slice event ++ rs)

abbrev pub Reached : Option ℕ → ℕ → Type 0
Reached none at = ⊥
Reached (some stored) at = at ≤ stored

module _ (e : Engine) where
  -- In the table and at most at the stored offset.
  abbrev pub Done : Database e.Table → Found → Type 0
  Done db r = Stored e db.table r.1 × Reached db.committed_offset r.0
