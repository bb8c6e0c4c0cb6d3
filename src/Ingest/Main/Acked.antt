-- ===== src/Ingest/Main/Acked.antt =====
-- Sessions of classic mode one after the other, in crates/coldbore-ingest/src/main.rs.
use cold_bore.Base.{ℕ, List, [], ◌∷◌, ◌++◌, All, All-append, All-weaken}
use cold_bore.Proto.Config.{classic}
use cold_bore.Proto.Frame.{Frame}
use cold_bore.Ingest.Counters.{Counters}
use cold_bore.Ingest.Gap.{GapTracker}
use cold_bore.Ingest.Sink.{Engine, Database}
use cold_bore.Ingest.Sink.Batch.{Stored}
use cold_bore.Ingest.Consume.{FromSlice, Session, at_end, run_classic}
use cold_bore.Ingest.Consume.Settled.{AscendingTags, acked_frames, acked-Stored}
use cold_bore.Ingest.Consume.Keeps.{run_classic-keeps}
use cold_bore.Ingest.Main.{State, Input, unconnected, connected, run_session, supervise, run}

-- The accepted frames that the broker had as acked when their sessions ended.
abbrev pub all_acked : {Table : Type 0} → List (Session Table) → List Frame
all_acked [] = []
all_acked (s ∷ sessions) = acked_frames s.trace.acked s.trace.accepted ++ all_acked sessions

-- A broker numbers the deliveries of each channel in ascending order.
abbrev pub Numbered : Engine → List Input → Type 0
Numbered e [] = Unit
Numbered e (unconnected ∷ inputs) = Numbered e inputs
Numbered e (connected _ rounds _ ∷ inputs) = AscendingTags e 0 rounds × Numbered e inputs

module _ (e : Engine) (from_slice : FromSlice) (batch_max : ℕ) where
  abbrev AllStored : State e.Table → Type 0
  AllStored st = All (Stored e st.db.table) (all_acked st.trace)

  supervise-AllStored :
      (inputs : List Input) (backoff : ℕ) (st : State e.Table)
      → Numbered e inputs
      → AllStored st
      → AllStored (supervise e from_slice batch_max classic inputs backoff st).0
  unfolding supervise run_session
  supervise-AllStored [] backoff st numbered h = h
  supervise-AllStored (unconnected ∷ inputs) backoff st numbered h =
      supervise-AllStored inputs _ st numbered h
  supervise-AllStored (connected watermarks rounds other ∷ inputs) backoff st (up, numbered) h =
      let s =
        at_end
          (run_classic e from_slice batch_max watermarks rounds st.db.table st.counters st.gaps) in
      supervise-AllStored inputs _ _ numbered (
        All-append (Stored e s.table) (acked_frames s.trace.acked s.trace.accepted)
          (all_acked st.trace)
          (acked-Stored e from_slice batch_max watermarks rounds st.db.table st.counters st.gaps up)
          (All-weaken (Stored e st.db.table) (Stored e s.table) (all_acked st.trace)
            (run_classic-keeps e from_slice batch_max watermarks rounds st.db.table st.counters
              st.gaps)
            h))

  -- In classic mode, through any number of sessions, however each ends: whatever the broker had as acked
  -- in any of them, among the deliveries that were accepted, is in the table at the end. A restart of a
  -- session costs no acked frame.
  pub restarts_keep_acked :
      (inputs : List Input) (db : Database e.Table) (counters : Counters) (gaps : GapTracker)
      → Numbered e inputs
      → let last = (run e from_slice batch_max classic inputs db counters gaps).0 in
        All (Stored e last.db.table) (all_acked last.trace)
  restarts_keep_acked inputs db counters gaps numbered =
      supervise-AllStored inputs 500
        (record { db = db; counters = counters; gaps = gaps; trace = [] }) numbered tt
