-- ===== src/Pipeline.antt =====
-- From crates/coldbore-edge/src/uplink.rs to crates/coldbore-ingest/src/sink.rs: what the edge publishes
-- of a frame, the classic consumer stores. The broker hands on payloads; serde_json is a parameter.
pub mod EndToEnd
pub mod Streamed
mod Tests
use cold_bore.Base.{
  ℕ, ◌≡◌, refl, subst, sym, ap, ◌∙◌, Bool, true, List, [], ◌∷◌, ◌++◌, map, Option, some, All, ◌||◌,
  ok,
}
use cold_bore.Proto.Frame
use cold_bore.Proto.Frame.{Frame, IsSound, validate-IsSound}
use cold_bore.Proto.Frame.Keys.{SameIdentity}
use cold_bore.Edge.Message.{start_publish}
use cold_bore.Ingest.Counters.{Counters}
use cold_bore.Ingest.Gap.{GapTracker}
use cold_bore.Ingest.Sink.{Row, to_row, contains, Engine}
use cold_bore.Ingest.Sink.Batch.{Stored}
use cold_bore.Ingest.Consume.{
  Event, Turn, delivered, flush_tick, committed, ack_ok, parse_frame, Session, running, run_classic,
}
use cold_bore.Ingest.Consume.Delivered.{brought, delivered_frames-All, Healthy}
use cold_bore.Ingest.Consume.Drained.{run_classic_drains}

-- serde_json on frames. A frame with finite readings is written such that it is read again: the integers
-- as they were, and readings that are finite too, whatever their last digits.
pub record Serde : Type 0 where
  pub to_vec : Frame → List ℕ
  pub from_slice : List ℕ → Option Frame
  pub reads_back :
      (f : Frame)
      → IsSound f
      → (g : Frame) × (from_slice (to_vec f) ≡ some g)
        × IsSound g
        × SameIdentity g f
        × (g.t_ms ≡ f.t_ms)

-- A frame that the edge publishes, and its delivery: the tag, whether the broker marks it as
-- redelivered, and the ingest's clock in that round.
pub record Passage : Type 0 where
  pub frame : Frame
  pub tag : ℕ
  pub redelivered : Bool
  pub now : ℕ

abbrev pub in_health : ℕ → Turn
in_health now = record { answer = committed; now = now; ack = ack_ok }

abbrev pub deliver : Serde → Passage → Event × Turn
deliver serde s = (
  delivered record {
    delivery_tag = s.tag;
    redelivered = s.redelivered;
    body = (start_publish serde.to_vec s.frame).payload;
  },
  in_health s.now,
)

pub contains-SameIdentity :
    (f g : Frame) (rows : List Row)
    → SameIdentity g f
    → g.t_ms ≡ f.t_ms
    → contains (to_row g) rows ≡ contains (to_row f) rows
unfolding contains
contains-SameIdentity f g [] (p, w, e, q) t = refl
contains-SameIdentity f g (x ∷ rows) (p, w, e, q) t =
    rw (p, w, e, q, t) (rw (contains-SameIdentity f g rows (p, w, e, q) t) refl)

module _ (serde : Serde) where
  pub parse_frame-to_vec :
      (f : Frame)
      → IsSound f
      → (g : Frame) × (parse_frame serde.from_slice (serde.to_vec f) ≡ some g)
        × SameIdentity g f
        × (g.t_ms ≡ f.t_ms)
  unfolding parse_frame
  parse_frame-to_vec f sound =
      let (g, is, sound', same, time) = serde.reads_back f sound in
      (g, rw (is, parse_frame) (rw ((validate-IsSound g).0.1 sound') refl), same, time)

module _ (serde : Serde) (e : Engine) where
  brought-Stored :
      (t : e.Table) (s : Passage)
      → IsSound s.frame
      → All (Stored e t) (brought serde.from_slice (deliver serde s).0)
      → Stored e t s.frame
  unfolding start_publish
  brought-Stored t s sound h =
      let (g, is, same, time) = parse_frame-to_vec serde s.frame sound in
      let there : All (Stored e t) (g ∷ []) = rw is at h in
      sym (contains-SameIdentity s.frame g (e.rows t) same time) ∙ there.0

  brought_rounds-Stored :
      (t : e.Table) (sends : List Passage)
      → All (λ s. IsSound s.frame) sends
      → All (λ r. All (Stored e t) (brought serde.from_slice r.0)) (map (deliver serde) sends)
      → All (λ s. Stored e t s.frame) sends
  brought_rounds-Stored t [] sound h = tt
  brought_rounds-Stored t (s ∷ sends) (sound, sounds) (h, hs) =
      (brought-Stored t s sound h, brought_rounds-Stored t sends sounds hs)

  deliver-Healthy :
      (sends : List Passage) (now : ℕ)
      → Healthy (map (deliver serde) sends ++ (flush_tick, in_health now) ∷ [])
  deliver-Healthy [] now = ((tt, refl, refl), tt)
  deliver-Healthy (s ∷ sends) now = ((tt, refl, refl), deliver-Healthy sends now)

  -- The messages that the edge publishes of valid frames, delivered in any order and any number of
  -- times, with whatever tags, to a classic session whose database commits and whose acks are taken:
  -- with the next flush tick the session goes on, and each of the frames is in the table.
  pub published_frames-Stored :
      (batch_max : ℕ) (watermarks : List (ℕ × ℕ × ℕ × ℕ)) (sends : List Passage) (now : ℕ)
      (table : e.Table) (counters : Counters) (gaps : GapTracker)
      → All (λ s. IsSound s.frame) sends
      → (s : Session e.Table) × (run_classic e serde.from_slice batch_max watermarks
            (map (deliver serde) sends ++ (flush_tick, in_health now) ∷ [])
            table
            counters
            gaps
          ≡ running s)
        × All (λ sent. Stored e s.table sent.frame) sends
  published_frames-Stored batch_max watermarks sends now table counters gaps sound =
      let rounds = map (deliver serde) sends in
      let (s, is, _, _, stored) =
        run_classic_drains e serde.from_slice batch_max watermarks rounds (in_health now) table
          counters gaps (deliver-Healthy sends now) in
      let each = (delivered_frames-All (Stored e s.table) serde.from_slice rounds [] stored).1 in
      (s, is, brought_rounds-Stored s.table sends sound each)
