-- ===== src/Ingest/Main.antt =====
-- crates/coldbore-ingest/src/main.rs: the supervisor, which runs one session after the other.
pub mod Backoff
pub mod Acked
mod Tests
use cold_bore.Base.{ℕ, ◌*◌, List, [], ◌∷◌, ltb, if◌then◌else◌}
use cold_bore.Proto.Config.{Mode, classic, stream}
use cold_bore.Ingest.Counters.{Counters}
use cold_bore.Ingest.Gap.{GapTracker}
use cold_bore.Ingest.Sink.{Engine, Database}
use cold_bore.Ingest.Consume
use cold_bore.Ingest.Consume.{FromSlice, run_classic}
use cold_bore.Ingest.ConsumeStream
use cold_bore.Ingest.ConsumeStream.{run_stream}

-- `(backoff * 2).min(Duration::from_secs(10))`, in milliseconds.
pub next_backoff : ℕ → ℕ
next_backoff backoff = if ltb 10000 (backoff * 2) then 10000 else backoff * 2

-- What the environment does to one session: a connection or a query before its loop fails, or the loop
-- starts with the watermarks that the table answered, and goes through rounds of its mode.
pub data Input : Type 0 where
  unconnected : Input
  connected :
      List (ℕ × ℕ × ℕ × ℕ)
      → List (Consume.Event × Consume.Turn)
      → List (ConsumeStream.Event × ConsumeStream.Turn)
      → Input

-- What outlives a session: the database, the counters and the gaps. `trace` is not in the program: the
-- sessions of classic mode that ended, newest first.
pub record State (Table : Type 0) : Type 0 where
  pub db : Database Table
  pub counters : Counters
  pub gaps : GapTracker
  pub trace : List (Consume.Session Table)

module _ (e : Engine) (from_slice : FromSlice) (batch_max : ℕ) where
  abbrev pub after_classic : Consume.Session e.Table → State e.Table → State e.Table
  after_classic s st = record {
    db = record st.db { table = s.table };
    counters = s.counters;
    gaps = s.gaps;
    trace = s ∷ st.trace;
  }

  abbrev pub after_stream : ConsumeStream.Session e.Table → State e.Table → State e.Table
  after_stream s st = record st { db = s.db; counters = s.counters; gaps = s.gaps }

  -- The `match` on the mode.
  pub run_session : Mode → Input → State e.Table → State e.Table
  run_session mode unconnected st = st
  run_session classic (connected watermarks rounds _) st =
      after_classic
        (Consume.at_end
          (run_classic e from_slice batch_max watermarks rounds st.db.table st.counters st.gaps))
        st
  run_session stream (connected watermarks _ rounds) st =
      after_stream
        (ConsumeStream.at_end
          (run_stream e from_slice batch_max watermarks rounds st.db st.counters st.gaps))
        st

  -- The loop of `supervisor`: no session ends with `Ok`, so each is followed by a wait and the next,
  -- until ctrl-c; the waits come with it.
  pub supervise : Mode → List Input → ℕ → State e.Table → State e.Table × List ℕ
  unfolding run_session next_backoff
  supervise mode [] backoff st = (st, [])
  supervise mode (input ∷ inputs) backoff st =
      let (last, waits) =
        supervise mode inputs (next_backoff backoff) (run_session mode input st) in
      (last, backoff ∷ waits)

  -- `run`
  abbrev pub run :
      Mode → List Input → Database e.Table → Counters → GapTracker → State e.Table × List ℕ
  run mode inputs db counters gaps =
      supervise mode inputs 500 record { db = db; counters = counters; gaps = gaps; trace = [] }
