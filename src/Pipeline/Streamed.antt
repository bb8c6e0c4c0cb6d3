-- ===== src/Pipeline/Streamed.antt =====
-- From the generator of crates/coldbore-edge/src/sim.rs to the table of crates/coldbore-ingest/src/sink.rs
-- in stream mode. That the stream has a record of each confirmed message is a condition here: with
-- retransmits, the broker's deduplication (Edge/UplinkStream/Dedup) can break it.
use cold_bore.Base.{ℕ, ◌≤◌, ◌≡◌, refl, sym, ◌∙◌, List, [], ◌∷◌, ◌++◌, map, some, All, All-split}
use cold_bore.Proto.Frame.{Frame, IsSound}
use cold_bore.Proto.Config.{stream, EdgeConfig}
use cold_bore.Edge.Sim.{Waves}
use cold_bore.Edge.Message.{build_message}
use cold_bore.Edge.Main.{World}
use cold_bore.Edge.Main.Accounted.{Ledger, IdsLast, tasks, books, sent, in_mode}
use cold_bore.Ingest.Counters.{Counters}
use cold_bore.Ingest.Gap.{GapTracker}
use cold_bore.Ingest.Sink.{Database, Engine}
use cold_bore.Ingest.Sink.Batch.{Stored}
use cold_bore.Ingest.Consume.{FromSlice, committed}
use cold_bore.Ingest.ConsumeStream.{
  Event, Turn, delivered, flush_tick, Session, running, run_stream,
}
use cold_bore.Ingest.ConsumeStream.Progress.{Healthy, Found, brought, delivered_records, Done}
use cold_bore.Ingest.ConsumeStream.CaughtUp.{run_stream_catches_up}
use cold_bore.Pipeline.{Serde, contains-SameIdentity, parse_frame-to_vec}
use cold_bore.Pipeline.EndToEnd.{HandsOn, Elsewhere, handed_on-Elsewhere}

-- A record of the stream: the frame that the edge published and under which id, the record's offset,
-- and the ingest's clock in that round.
pub record Appended : Type 0 where
  pub frame : Frame
  pub publishing_id : ℕ
  pub at : ℕ
  pub now : ℕ

abbrev pub turn_at : ℕ → Turn
turn_at now = record { answer = committed; now = now }

abbrev pub deliver_record : Serde → Appended → Event × Turn
deliver_record serde r = (
  delivered
      record { at = r.at; body = some (build_message serde.to_vec r.frame r.publishing_id).body },
  turn_at r.now,
)

-- The broker numbers the records of a stream in ascending order.
abbrev pub Numbered : ℕ → List Appended → Type 0
Numbered last [] = Unit
Numbered last (r ∷ rs) = (last ≤ r.at) × Numbered r.at rs

delivered_records-All :
    (P : Found → Type 0) (from_slice : FromSlice) (rounds : List (Event × Turn)) (rs : List Found)
    → All P (delivered_records from_slice rounds rs)
    → All (λ r. All P (brought from_slice r.0)) rounds × All P rs
delivered_records-All P from_slice [] rs h = (tt, h)
delivered_records-All P from_slice ((event, turn) ∷ rounds) rs h =
    let (later, now) =
      delivered_records-All P from_slice rounds (brought from_slice event ++ rs) h in
    let (here, before) = All-split P (brought from_slice event) rs now in ((here, later), before)

deliver_record-Healthy :
    (serde : Serde) (last : ℕ) (rs : List Appended) (now : ℕ)
    → Numbered last rs
    → Healthy last (map (deliver_record serde) rs ++ (flush_tick, turn_at now) ∷ [])
deliver_record-Healthy serde last [] now h = (tt, refl, tt)
deliver_record-Healthy serde last (r ∷ rs) now (h, hs) =
    (h, refl, deliver_record-Healthy serde r.at rs now hs)

module _ (serde : Serde) (e : Engine) where
  brought_record-Stored :
      (db : Database e.Table) (r : Appended)
      → IsSound r.frame
      → All (Done e db) (brought serde.from_slice (deliver_record serde r).0)
      → Stored e db.table r.frame
  unfolding build_message
  brought_record-Stored db r sound h =
      let (g, is, same, time) = parse_frame-to_vec serde r.frame sound in
      let there : All (Done e db) ((r.at, g) ∷ []) = rw is at h in
      sym (contains-SameIdentity r.frame g (e.rows db.table) same time) ∙ there.0.0

  All-records :
      (db : Database e.Table) (rs : List Appended)
      → All (λ r. IsSound r.frame) rs
      → All (λ r. All (Done e db) (brought serde.from_slice r.0)) (map (deliver_record serde) rs)
      → All (Stored e db.table) (map (λ r. r.frame) rs)
  All-records db [] sound h = tt
  All-records db (r ∷ rs) (sound, sounds) (h, hs) =
      (brought_record-Stored db r sound h, All-records db rs sounds hs)

module _ (e : Engine) (serde : Serde) (waves : Waves) (cfg : EdgeConfig) (epoch : ℕ)
    (world : World) where
  abbrev pub stream_sent : List Frame
  stream_sent = sent waves (in_mode stream cfg) epoch world

  abbrev pub stream_books : Ledger
  stream_books = books waves (in_mode stream cfg) epoch world

  -- Stream mode, from the generator to the table: whatever the links, the broker and the operators do
  -- to the edge, if the channel hands on what was sent in order, the publishing ids have not run out,
  -- the stream has a record for each message that the broker confirmed, and a session whose database
  -- commits reads these in the order of their offsets, and their frames are valid, then with the next
  -- flush tick the session goes on, and of the frames that the generator sent, at most as many are
  -- missing from the table as missing ones are in the channel, in the uplink's custody, in flight, or
  -- were given up by a full buffer.
  pub stream_samples-Elsewhere :
      (queued : List Frame) (records : List Appended) (batch_max : ℕ)
      (watermarks : List (ℕ × ℕ × ℕ × ℕ)) (now : ℕ) (db : Database e.Table) (counters : Counters)
      (gaps : GapTracker)
      → IdsLast (tasks waves (in_mode stream cfg) epoch world).uplink
      → queued ++ stream_books.received ≡ stream_sent
      → HandsOn stream_books (map (λ r. r.frame) records)
      → Numbered 0 records
      → All (λ r. IsSound r.frame) records
      → (s : Session e.Table) × (run_stream e serde.from_slice batch_max watermarks
            (map (deliver_record serde) records ++ (flush_tick, turn_at now) ∷ [])
            db
            counters
            gaps
          ≡ running s)
        × Elsewhere e s.db.table stream_sent queued stream_books
  stream_samples-Elsewhere queued records batch_max watermarks now db counters gaps last channel
        hands numbered sound =
      let rounds = map (deliver_record serde) records in
      let (s, is, _, done) =
        run_stream_catches_up e serde.from_slice batch_max watermarks rounds (turn_at now) db
          counters gaps (deliver_record-Healthy serde 0 records now numbered) in
      let each = (delivered_records-All (Done e s.db) serde.from_slice rounds [] done).0 in
      (
        s,
        is,
        handed_on-Elsewhere e waves (in_mode stream cfg) epoch world queued _ s.db.table last
            channel hands (All-records serde e s.db records sound each),
      )
