-- ===== src/Ingest/ConsumeStream/Restarts.antt =====
-- Restarts in crates/coldbore-ingest/src/consume_stream.rs: no record is skipped between sessions.
use cold_bore.Base.{some, ◌≡◌, ℕ, ◌≤◌, ◌≡◌, refl, subst, Bool, List, [], ◌∷◌, inr}
use cold_bore.Proto.Config.{StreamFrom}
use cold_bore.Ingest.Counters.{Counters}
use cold_bore.Ingest.Gap.{GapTracker}
use cold_bore.Ingest.Sink.{Engine, Database, stored_offset}
use cold_bore.Ingest.Consume.{FromSlice}
use cold_bore.Proto.Frame.{Frame}
use cold_bore.Ingest.Sink.Batch.{Stored}
use cold_bore.Ingest.ConsumeStream.{
  parse_record, start_position, requested, Turn, Event, Status, running, lost, database, at_end,
  fresh, run_stream, supervise,
}
use cold_bore.Ingest.ConsumeStream.Resumed.{
  Log, Follows, place, Covered, loop-Covered, start-Passed,
}

module _ (e : Engine) (from_slice : FromSlice) (log : Log) (lo : ℕ) where
  -- What a broker does for `cfg.stream_force_from` and `cfg.stream_from` in each session: it starts the
  -- consumer where it asks, and gives it the records from there on. `bounds` are the oldest record
  -- and the end of the stream at that time; `lo` is not behind where the configuration starts.
  abbrev pub Served :
      Bool
      → StreamFrom
      → ℕ
      → List (ℕ × ℕ)
      → List (List (ℕ × ℕ × ℕ × ℕ) × List (Event × Turn))
      → Database e.Table
      → Counters
      → GapTracker
      → Type 0
  Served force stream_from batch_max bounds [] db counters gaps = Unit
  Served force stream_from batch_max [] (session ∷ sessions) db counters gaps = ⊥
  Served force stream_from batch_max ((oldest, end) ∷ bounds) ((watermarks, rounds) ∷ sessions) db
        counters gaps =
      let s = at_end (run_stream e from_slice batch_max watermarks rounds db counters gaps) in
      (place oldest end (requested stream_from) ≤ lo)
      × Follows log (place oldest end (start_position force (stored_offset db) stream_from)) rounds
      × Served force stream_from batch_max bounds sessions s.db s.counters s.gaps

  database-at_end : (status : Status e.Table) → database status ≡ (at_end status).db
  database-at_end (running s) = refl
  database-at_end (lost s) = refl

  supervise-Covered :
      (force : Bool) (stream_from : StreamFrom) (batch_max : ℕ) (bounds : List (ℕ × ℕ))
      (sessions : List (List (ℕ × ℕ × ℕ × ℕ) × List (Event × Turn))) (db : Database e.Table)
      (counters : Counters) (gaps : GapTracker)
      → Served force stream_from batch_max bounds sessions db counters gaps
      → Covered e from_slice log lo db
      → Covered e from_slice log lo (supervise e from_slice batch_max sessions db counters gaps)
  unfolding supervise
  supervise-Covered force stream_from batch_max bounds [] db counters gaps served c = c
  supervise-Covered force stream_from batch_max [] (session ∷ sessions) db counters gaps served c =
      absurd served
  supervise-Covered force stream_from batch_max ((oldest, end) ∷ bounds)
        ((watermarks, rounds) ∷ sessions) db counters gaps served c =
      let status = run_stream e from_slice batch_max watermarks rounds db counters gaps in
      let position = place oldest end (start_position force (stored_offset db) stream_from) in
      let after : Covered e from_slice log lo (at_end status).db =
        subst (Covered e from_slice log lo) (database-at_end status) (
          loop-Covered e from_slice log lo batch_max rounds position
            (running (fresh watermarks db counters gaps)) served.1
            (
              start-Passed e from_slice log lo force (stored_offset db) db stream_from oldest end
                  refl served.0 c,
              inr refl,
              c,
            )) in
      supervise-Covered force stream_from batch_max bounds sessions (at_end status).db
        (at_end status).counters (at_end status).gaps served.2 after

  -- Through any number of sessions, however each ends, in the middle of a flush too, and whether or not
  -- a replay is forced: if the table covers the stored offset at first, then at the end every valid
  -- record of the stream from `lo` up to the stored offset has its frame in the table. So resuming
  -- behind that offset skips no frame.
  pub resume_covers :
      (force : Bool) (stream_from : StreamFrom) (batch_max : ℕ) (bounds : List (ℕ × ℕ))
      (sessions : List (List (ℕ × ℕ × ℕ × ℕ) × List (Event × Turn))) (db : Database e.Table)
      (counters : Counters) (gaps : GapTracker) (stored o : ℕ) (f : Frame)
      → Served force stream_from batch_max bounds sessions db counters gaps
      → Covered e from_slice log lo db
      → (supervise e from_slice batch_max sessions db counters gaps).committed_offset ≡ some stored
      → lo ≤ o
      → o ≤ stored
      → parse_record from_slice (log o) ≡ some f
      → Stored e (supervise e from_slice batch_max sessions db counters gaps).table f
  resume_covers force stream_from batch_max bounds sessions db counters gaps stored o f served c is
        low up parsed =
      (supervise-Covered force stream_from batch_max bounds sessions db counters gaps served c
          stored is).1
        o f low up parsed
