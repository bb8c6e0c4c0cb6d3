-- ===== src/Ingest/Consume/Drained.antt =====
-- Progress in crates/coldbore-ingest/src/consume.rs: while the database and the broker answer, whatever
-- is delivered gets stored and acked by the next flush tick.
use cold_bore.Base.{
  ℕ, ◌≡◌, ◌≢◌, refl, sym, subst, ◌⊎◌, inl, inr, true, false, List, [], ◌∷◌, ◌++◌, map, Option, none,
  some, leb, length, All, All-weaken, Bool-cases, arith,
}
use cold_bore.Proto.Frame.{Frame}
use cold_bore.Ingest.Sink.{to_row, contains, Engine, insert_batch}
use cold_bore.Ingest.Sink.Batch.{
  contains-push_old, contains-push_new, Stored, inserted_batch, inserted_before,
}
use cold_bore.Ingest.Counters.{Counters}
use cold_bore.Ingest.Gap.{GapTracker}
use cold_bore.Ingest.Consume.{
  Delivery, FromSlice, parse_frame, committed, ack_ok, Turn, Status, running, Event, delivered,
  consumer_ended, flush_tick, metrics_tick, probe_tick, At, accept_parsed, accept, account, fresh,
  run_classic, seed_all, ack_batch, flush_answered, is_empty, consume_round, consume_loop,
}
use cold_bore.Ingest.Consume.Delivered.{
  Goes, Healthy, frame_of, brought, delivered_frames, tag_of, tag_behind, newest_tag,
}

snoc-nonempty : (fs : List Frame) (f : Frame) → fs ++ f ∷ [] ≢ []
snoc-nonempty [] f h = cc
snoc-nonempty (x ∷ xs) f h = cc

module _ (e : Engine) where
  -- A frame is stored or in the batch.
  abbrev InHand : At e → Frame → Type 0
  InHand s f = Stored e s.table f ⊎ (contains (to_row f) (map to_row s.batch) ≡ true)

  -- With an empty batch, the newest accepted delivery is acked.
  abbrev UpToDate : ℕ → At e → Type 0
  UpToDate tag s = (s.highest_tag ≡ tag) × (s.batch ≡ [] → s.trace.acked ≡ tag)

  abbrev Fine : ℕ → At e → List Frame → Type 0
  Fine tag s fs = UpToDate tag s × All (InHand s) fs

  accept-Fine :
      (d : Delivery) (parsed : Option Frame) (tag : ℕ) (s : At e) (fs : List Frame)
      → Fine tag s fs
      → Fine (tag_of tag d parsed) (accept_parsed e d parsed s) (frame_of parsed ++ fs)
  unfolding accept_parsed
  accept-Fine d none tag s fs h = h
  accept-Fine d (some f) tag s fs h = (
    (refl, λ empty. absurd (snoc-nonempty s.batch f empty)),
    (inr (contains-push_new s.batch f), All-weaken (InHand s) _ fs (InHand-push s f) h.1),
  )
    where
      InHand-push :
          (s : At e) (f x : Frame)
          → InHand s x
          → Stored e s.table x ⊎ (contains (to_row x) (map to_row (s.batch ++ f ∷ [])) ≡ true)
      InHand-push s f x (inl k) = inl k
      InHand-push s f x (inr k) = inr (contains-push_old (to_row x) s.batch f k)

  InHand-Stored :
      (s : At e) (f : Frame) → InHand s f → Stored e (insert_batch e s.table s.batch).0 f
  InHand-Stored s f (inl k) = inserted_before e s.table s.batch f k
  InHand-Stored s f (inr k) = inserted_batch e s.table s.batch f k

  abbrev Flushed : Status e.Table → ℕ → List Frame → Type 0
  Flushed status tag fs =
      (s : At e) × (status ≡ running s)
      × (s.batch ≡ [])
      × (s.highest_tag ≡ tag)
      × (s.trace.acked ≡ tag)
      × All (Stored e s.table) fs

  flush_answered-Flushed :
      (now tag : ℕ) (s : At e) (fs : List Frame)
      → Fine tag s fs
      → Flushed (flush_answered e committed now ack_ok s) tag fs
  unfolding flush_answered ack_batch account
  flush_answered-Flushed now tag s fs h =
      (_, refl, refl, h.0.0, h.0.0, All-weaken (InHand s) _ fs (InHand-Stored s) h.1)

  flush-Flushed :
      (turn : Turn) (tag : ℕ) (s : At e) (fs : List Frame)
      → turn.answer ≡ committed
      → turn.ack ≡ ack_ok
      → Fine tag s fs
      → Flushed (flush_answered e turn.answer turn.now turn.ack s) tag fs
  flush-Flushed turn tag s fs commits acks h =
      rw (commits, acks) (flush_answered-Flushed turn.now tag s fs h)

  abbrev GoesOn : Status e.Table → ℕ → List Frame → Type 0
  GoesOn status tag fs = (s : At e) × (status ≡ running s) × Fine tag s fs

  Flushed-GoesOn :
      (status : Status e.Table) (tag : ℕ) (fs : List Frame)
      → Flushed status tag fs
      → GoesOn status tag fs
  Flushed-GoesOn status tag fs (s, is, empty, highest, acked, stored) = (
    s,
    is,
    ((highest, λ _. acked), All-weaken (Stored e s.table) (InHand s) fs (λ f k. inl k) stored),
  )

  InHand-empty : (s : At e) → s.batch ≡ [] → (f : Frame) → InHand s f → Stored e s.table f
  unfolding contains
  InHand-empty s empty f (inl k) = k
  InHand-empty s empty f (inr k) = absurd (ground arith)

  empty_or_not : (fs : List Frame) → ((fs ≡ []) × (is_empty e fs ≡ true)) ⊎ (is_empty e fs ≡ false)
  empty_or_not [] = inl (refl, refl)
  empty_or_not (f ∷ fs) = inr refl

  tick-Flushed :
      (from_slice : FromSlice) (batch_max : ℕ) (turn : Turn) (tag : ℕ) (s : At e) (fs : List Frame)
      → turn.answer ≡ committed
      → turn.ack ≡ ack_ok
      → Fine tag s fs
      → Flushed (consume_round e from_slice batch_max flush_tick turn s) tag fs
  unfolding consume_round
  tick-Flushed from_slice batch_max turn tag s fs commits acks h = elim (empty_or_not s.batch) [
    | inl (empty, is) ↦
        rw is (
          s,
          refl,
          empty,
          h.0.0,
          h.0.1 empty,
          All-weaken (InHand s) _ fs (InHand-empty s empty) h.1,
        )
    | inr there ↦ rw there (flush-Flushed turn tag s fs commits acks h)
  ]

  round-GoesOn :
      (from_slice : FromSlice) (batch_max : ℕ) (event : Event) (turn : Turn) (tag : ℕ) (s : At e)
      (fs : List Frame)
      → Goes event
      → turn.answer ≡ committed
      → turn.ack ≡ ack_ok
      → Fine tag s fs
      → GoesOn
          (consume_round e from_slice batch_max event turn s)
          (tag_behind from_slice tag event)
          (brought from_slice event ++ fs)
  unfolding consume_round accept
  round-GoesOn from_slice batch_max (delivered d) turn tag s fs goes commits acks h =
      let s' = accept e from_slice d s in
      let fs' = frame_of (parse_frame from_slice d.body) ++ fs in
      let tag' = tag_behind from_slice tag (delivered d) in
      let fine : Fine tag' s' fs' = accept-Fine d (parse_frame from_slice d.body) tag s fs h in
      elim (Bool-cases (leb batch_max (length s'.batch))) [
        | inl full ↦
            rw full (Flushed-GoesOn _ tag' fs' (flush-Flushed turn tag' s' fs' commits acks fine))
        | inr room ↦ rw room (s', refl, fine)
      ]
  round-GoesOn from_slice batch_max consumer_ended turn tag s fs goes commits acks h = absurd goes
  round-GoesOn from_slice batch_max flush_tick turn tag s fs goes commits acks h =
      Flushed-GoesOn _ tag fs (tick-Flushed from_slice batch_max turn tag s fs commits acks h)
  round-GoesOn from_slice batch_max (metrics_tick in_time) turn tag s fs goes commits acks h =
      rw goes (s, refl, h)
  round-GoesOn from_slice batch_max (probe_tick alive) turn tag s fs goes commits acks h =
      rw goes (s, refl, h)

  loop-Flushed :
      (from_slice : FromSlice) (batch_max : ℕ) (rounds : List (Event × Turn)) (turn : Turn)
      (tag : ℕ) (s : At e) (fs : List Frame)
      → Healthy (rounds ++ (flush_tick, turn) ∷ [])
      → Fine tag s fs
      → Flushed
          (consume_loop e from_slice batch_max (rounds ++ (flush_tick, turn) ∷ []) (running s))
          (newest_tag from_slice rounds tag)
          (delivered_frames from_slice rounds fs)
  unfolding consume_loop
  loop-Flushed from_slice batch_max [] turn tag s fs healthy h =
      let (s', is, empty, highest, acked, stored) =
        tick-Flushed from_slice batch_max turn tag s fs healthy.0.1 healthy.0.2 h in
      subst (λ status. Flushed (consume_loop e from_slice batch_max [] status) tag fs) (sym is)
        (s', refl, empty, highest, acked, stored)
  loop-Flushed from_slice batch_max ((event, now) ∷ rounds) turn tag s fs
        ((goes, commits, acks), healthy) h =
      let tag' = tag_behind from_slice tag event in
      let (s', is, fine) =
        round-GoesOn from_slice batch_max event now tag s fs goes commits acks h in
      subst
        (λ status.
          Flushed (consume_loop e from_slice batch_max (rounds ++ (flush_tick, turn) ∷ []) status)
            (newest_tag from_slice rounds tag')
            (delivered_frames from_slice rounds (brought from_slice event ++ fs)))
        (sym is)
        (loop-Flushed from_slice batch_max rounds turn tag' s' (brought from_slice event ++ fs)
          healthy fine)

  -- As long as the consumer goes on, the probe and the snapshot come back in time, the database
  -- commits and the broker takes the acks, a session goes on; and at each flush tick its batch is
  -- empty, every valid frame that was delivered so far is in the table, and the newest accepted
  -- delivery is acked.
  pub run_classic_drains :
      (from_slice : FromSlice) (batch_max : ℕ) (watermarks : List (ℕ × ℕ × ℕ × ℕ))
      (rounds : List (Event × Turn)) (turn : Turn) (table : e.Table) (counters : Counters)
      (gaps : GapTracker)
      → Healthy (rounds ++ (flush_tick, turn) ∷ [])
      → (s : At e) × (run_classic e from_slice batch_max watermarks
            (rounds ++ (flush_tick, turn) ∷ [])
            table
            counters
            gaps
          ≡ running s)
        × (s.batch ≡ [])
        × (s.trace.acked ≡ newest_tag from_slice rounds 0)
        × All (Stored e s.table) (delivered_frames from_slice rounds [])
  run_classic_drains from_slice batch_max watermarks rounds turn table counters gaps healthy =
      let (s, is, empty, _, acked, stored) =
        loop-Flushed from_slice batch_max rounds turn 0
          (fresh table counters (seed_all watermarks gaps)) [] healthy ((refl, λ _. refl), tt) in
      (s, is, empty, acked, stored)
