-- ===== src/Ingest/Consume/Keeps.antt =====
-- crates/coldbore-ingest/src/consume.rs only adds to the table.
use cold_bore.Base.{
  ℕ, inl, inr, Bool, true, false, not, List, [], ◌∷◌, Option, none, some, leb, length, Bool-cases,
}
use cold_bore.Proto.Frame.{Frame}
use cold_bore.Ingest.Counters.{Counters}
use cold_bore.Ingest.Gap.{GapTracker}
use cold_bore.Ingest.Sink.{Engine}
use cold_bore.Ingest.Sink.Batch.{Stored, inserted_before}
use cold_bore.Ingest.Consume.{
  Delivery, FromSlice, Answer, committed, refused, silent, Ack, ack_ok, ack_late, ack_unsent, Turn,
  Status, running, lost, Event, delivered, consumer_ended, flush_tick, metrics_tick, probe_tick,
  probe, At, accept, accept_parsed, parse_frame, account, at_end, run_classic, ack_batch,
  flush_answered, is_empty, consume_round, consume_loop, fresh, seed_all,
}

module _ (e : Engine) (from_slice : FromSlice) (batch_max : ℕ) where
  flush-keeps :
      (answer : Answer) (now : ℕ) (ack : Ack) (s : At e) (f : Frame)
      → Stored e s.table f
      → Stored e (at_end (flush_answered e answer now ack s)).table f
  unfolding flush_answered ack_batch account
  flush-keeps committed now ack_ok s f h = inserted_before e s.table s.batch f h
  flush-keeps committed now ack_late s f h = inserted_before e s.table s.batch f h
  flush-keeps committed now ack_unsent s f h = inserted_before e s.table s.batch f h
  flush-keeps refused now ack s f h = h
  flush-keeps (silent true) now ack s f h = inserted_before e s.table s.batch f h
  flush-keeps (silent false) now ack s f h = h

  accept-keeps :
      (d : Delivery) (parsed : Option Frame) (s : At e) (f : Frame)
      → Stored e s.table f
      → Stored e (accept_parsed e d parsed s).table f
  unfolding accept_parsed
  accept-keeps d none s f h = h
  accept-keeps d (some g) s f h = h

  probe-keeps :
      (alive : Bool) (s : At e) (f : Frame)
      → Stored e s.table f
      → Stored e (at_end (probe alive s)).table f
  probe-keeps true s f h = h
  probe-keeps false s f h = h

  round-keeps :
      (event : Event) (turn : Turn) (s : At e) (f : Frame)
      → Stored e s.table f
      → Stored e (at_end (consume_round e from_slice batch_max event turn s)).table f
  unfolding consume_round accept
  round-keeps (delivered d) turn s f h =
      let s' = accept e from_slice d s in
      let kept = accept-keeps d (parse_frame from_slice d.body) s f h in
      elim (Bool-cases (leb batch_max (length s'.batch))) [
        | inl full ↦ rw full (flush-keeps turn.answer turn.now turn.ack s' f kept)
        | inr room ↦ rw room kept
      ]
  round-keeps consumer_ended turn s f h = h
  round-keeps flush_tick turn s f h = elim (Bool-cases (not (is_empty e s.batch))) [
    | inl there ↦ rw there (flush-keeps turn.answer turn.now turn.ack s f h)
    | inr empty ↦ rw empty h
  ]
  round-keeps (metrics_tick in_time) turn s f h = probe-keeps in_time s f h
  round-keeps (probe_tick alive) turn s f h = probe-keeps alive s f h

  loop-keeps :
      (rounds : List (Event × Turn)) (status : Status e.Table) (f : Frame)
      → Stored e (at_end status).table f
      → Stored e (at_end (consume_loop e from_slice batch_max rounds status)).table f
  unfolding consume_loop
  loop-keeps [] (running s) f h = h
  loop-keeps [] (lost s) f h = h
  loop-keeps (round ∷ rounds) (lost s) f h = h
  loop-keeps ((event, turn) ∷ rounds) (running s) f h =
      loop-keeps rounds (consume_round e from_slice batch_max event turn s) f
        (round-keeps event turn s f h)

  -- A session takes no frame out of the table.
  pub run_classic-keeps :
      (watermarks : List (ℕ × ℕ × ℕ × ℕ)) (rounds : List (Event × Turn)) (table : e.Table)
      (counters : Counters) (gaps : GapTracker) (f : Frame)
      → Stored e table f
      → Stored e
          (at_end (run_classic e from_slice batch_max watermarks rounds table counters gaps)).table
          f
  run_classic-keeps watermarks rounds table counters gaps =
      loop-keeps rounds (running (fresh table counters (seed_all watermarks gaps)))
