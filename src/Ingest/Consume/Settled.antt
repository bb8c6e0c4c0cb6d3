-- ===== src/Ingest/Consume/Settled.antt =====
-- Ack after commit in crates/coldbore-ingest/src/consume.rs: what the broker has as acked is stored.
use cold_bore.Base.{
  if◌then◌else◌, ℕ, ◌≤◌, ◌<◌, ◌≡◌, ◌⊎◌, inl, inr, Bool, true, false, not, List, [], ◌∷◌, ◌++◌, map,
  Option, none, some, leb, length, All, All-weaken, Bool-cases, arith,
}
use cold_bore.Proto.Frame.{Frame}
use cold_bore.Ingest.Sink.{to_row, contains, Engine, insert_batch}
use cold_bore.Ingest.Sink.Batch.{
  contains-push_old, contains-push_new, Stored, inserted_batch, inserted_before,
}
use cold_bore.Ingest.Counters.{Counters}
use cold_bore.Ingest.Gap.{GapTracker}
use cold_bore.Ingest.Consume.{
  Delivery, FromSlice, parse_frame, Answer, committed, refused, silent, Ack, ack_ok, ack_late,
  ack_unsent, Turn, Status, running, lost, Event, delivered, consumer_ended, flush_tick,
  metrics_tick, probe_tick, probe, At, accept_parsed, accept, account, fresh, at_end, seed_all,
  run_classic, ack_batch, flush_answered, is_empty, consume_round, consume_loop,
}

-- The accepted frames that the broker has as acked, by their tags.
abbrev pub acked_frames : ℕ → List (ℕ × Frame) → List Frame
acked_frames acked [] = []
acked_frames acked (a ∷ rest) =
    if leb a.0 acked then a.1 ∷ acked_frames acked rest else acked_frames acked rest

module _ (e : Engine) where
  -- Where an accepted frame is: in the table, or in the batch with its tag not acked.
  abbrev pub Kept : e.Table → List Frame → ℕ → ℕ × Frame → Type 0
  Kept t batch acked a =
      Stored e t a.1 ⊎ ((contains (to_row a.1) (map to_row batch) ≡ true) × (acked < a.0))

  abbrev pub AckedStored : At e → Type 0
  AckedStored s = All (λ a. (a.0 ≤ s.trace.acked) → Stored e s.table a.1) s.trace.accepted

  -- What holds while a session runs, with every tag so far at most `bound`.
  abbrev pub Settled : ℕ → At e → Type 0
  Settled bound s =
      (s.trace.acked ≤ s.highest_tag)
      × (s.highest_tag ≤ bound)
      × All (Kept s.table s.batch s.trace.acked) s.trace.accepted

  abbrev Holds : ℕ → Status e.Table → Type 0
  Holds bound (running s) = Settled bound s
  Holds bound (lost s) = AckedStored s

  Kept-Stored :
      (t : e.Table) (batch : List Frame) (acked : ℕ) (a : ℕ × Frame)
      → Kept t batch acked a
      → a.0 ≤ acked
      → Stored e t a.1
  Kept-Stored t batch acked a (inl k) h = k
  Kept-Stored t batch acked a (inr k) h = absurd (omega (arith, k.1, h))

  Settled-AckedStored : (bound : ℕ) (s : At e) → Settled bound s → AckedStored s
  Settled-AckedStored bound s h =
      All-weaken (Kept s.table s.batch s.trace.acked)
        (λ a. (a.0 ≤ s.trace.acked) → Stored e s.table a.1) s.trace.accepted
        (Kept-Stored s.table s.batch s.trace.acked) h.2

  Kept-push :
      (t : e.Table) (batch : List Frame) (acked : ℕ) (f : Frame) (a : ℕ × Frame)
      → Kept t batch acked a
      → Kept t (batch ++ f ∷ []) acked a
  Kept-push t batch acked f a (inl k) = inl k
  Kept-push t batch acked f a (inr k) = inr (contains-push_old (to_row a.1) batch f k.0, k.1)

  Kept-commit :
      (t : e.Table) (batch : List Frame) (acked : ℕ) (a : ℕ × Frame)
      → Kept t batch acked a
      → Stored e (insert_batch e t batch).0 a.1
  Kept-commit t batch acked a (inl k) = inserted_before e t batch a.1 k
  Kept-commit t batch acked a (inr k) = inserted_batch e t batch a.1 k.0

  accept-Settled :
      (d : Delivery) (parsed : Option Frame) (bound : ℕ) (s : At e)
      → bound < d.delivery_tag
      → Settled bound s
      → Settled d.delivery_tag (accept_parsed e d parsed s)
  unfolding accept_parsed
  accept-Settled d none bound s up h = (h.0, omega (arith, h.1, up), h.2)
  accept-Settled d (some f) bound s up h = (
    omega (arith, h.0, h.1, up),
    omega arith,
    (
      inr (contains-push_new s.batch f, omega (arith, h.0, h.1, up)),
      All-weaken (Kept s.table s.batch s.trace.acked)
          (Kept s.table (s.batch ++ f ∷ []) s.trace.acked) s.trace.accepted
          (Kept-push s.table s.batch s.trace.acked f) h.2,
    ),
  )

  All-committed :
      (bound : ℕ) (s : At e)
      → Settled bound s
      → All (λ a. Stored e (insert_batch e s.table s.batch).0 a.1) s.trace.accepted
  All-committed bound s h =
      All-weaken (Kept s.table s.batch s.trace.acked)
        (λ a. Stored e (insert_batch e s.table s.batch).0 a.1) s.trace.accepted
        (Kept-commit s.table s.batch s.trace.acked) h.2

  Stored-then :
      (t : e.Table) (acked : ℕ) (accepted : List (ℕ × Frame))
      → All (λ a. Stored e t a.1) accepted
      → All (λ a. (a.0 ≤ acked) → Stored e t a.1) accepted
  Stored-then t acked accepted =
      All-weaken (λ a. Stored e t a.1) (λ a. (a.0 ≤ acked) → Stored e t a.1) accepted (λ a h _. h)

  flush-Settled :
      (answer : Answer) (now : ℕ) (ack : Ack) (bound : ℕ) (s : At e)
      → Settled bound s
      → Holds bound (flush_answered e answer now ack s)
  unfolding flush_answered ack_batch account
  flush-Settled committed now ack_ok bound s h = (
    omega arith,
    h.1,
    All-weaken (λ a. Stored e (insert_batch e s.table s.batch).0 a.1)
        (Kept (insert_batch e s.table s.batch).0 [] s.highest_tag) s.trace.accepted (λ a k. inl k)
        (All-committed bound s h),
  )
  flush-Settled committed now ack_late bound s h =
      Stored-then (insert_batch e s.table s.batch).0 s.highest_tag s.trace.accepted
        (All-committed bound s h)
  flush-Settled committed now ack_unsent bound s h =
      Stored-then (insert_batch e s.table s.batch).0 s.trace.acked s.trace.accepted
        (All-committed bound s h)
  flush-Settled refused now ack bound s h = Settled-AckedStored bound s h
  flush-Settled (silent true) now ack bound s h =
      Stored-then (insert_batch e s.table s.batch).0 s.trace.acked s.trace.accepted
        (All-committed bound s h)
  flush-Settled (silent false) now ack bound s h = Settled-AckedStored bound s h

  probe-Settled :
      (alive : Bool) (bound : ℕ) (s : At e) → Settled bound s → Holds bound (probe alive s)
  probe-Settled true bound s h = h
  probe-Settled false bound s h = Settled-AckedStored bound s h

  -- The tag that the last delivery so far had.
  abbrev pub next_bound : ℕ → Event → ℕ
  next_bound bound (delivered d) = d.delivery_tag
  next_bound bound consumer_ended = bound
  next_bound bound flush_tick = bound
  next_bound bound (metrics_tick _) = bound
  next_bound bound (probe_tick _) = bound

  -- A broker gives the deliveries of a channel ascending tags from 1.
  abbrev pub AscendingTags : ℕ → List (Event × Turn) → Type 0
  AscendingTags bound [] = Unit
  AscendingTags bound ((delivered d, turn) ∷ rounds) =
      (bound < d.delivery_tag) × AscendingTags d.delivery_tag rounds
  AscendingTags bound ((consumer_ended, turn) ∷ rounds) = AscendingTags bound rounds
  AscendingTags bound ((flush_tick, turn) ∷ rounds) = AscendingTags bound rounds
  AscendingTags bound ((metrics_tick _, turn) ∷ rounds) = AscendingTags bound rounds
  AscendingTags bound ((probe_tick _, turn) ∷ rounds) = AscendingTags bound rounds

  acked_frames-All :
      (t : e.Table) (acked : ℕ) (accepted : List (ℕ × Frame))
      → All (λ a. (a.0 ≤ acked) → Stored e t a.1) accepted
      → All (Stored e t) (acked_frames acked accepted)
  acked_frames-All t acked [] h = tt
  acked_frames-All t acked (a ∷ rest) h = elim (Bool-cases (leb a.0 acked)) [
    | inl q ↦ rw q (h.0 (ground arith), acked_frames-All t acked rest h.1)
    | inr q ↦ rw q (acked_frames-All t acked rest h.1)
  ]

  round-Settled :
      (from_slice : FromSlice) (batch_max : ℕ) (event : Event) (turn : Turn) (bound : ℕ) (s : At e)
      (rounds : List (Event × Turn))
      → AscendingTags bound ((event, turn) ∷ rounds)
      → Settled bound s
      → Holds (next_bound bound event) (consume_round e from_slice batch_max event turn s)
        × AscendingTags (next_bound bound event) rounds
  unfolding consume_round accept
  round-Settled from_slice batch_max (delivered d) turn bound s rounds up h =
      let s' = accept e from_slice d s in
      let good : Settled d.delivery_tag s' =
        accept-Settled d (parse_frame from_slice d.body) bound s up.0 h in
      (
        elim (Bool-cases (leb batch_max (length s'.batch))) [
          | inl full ↦ rw full (flush-Settled turn.answer turn.now turn.ack d.delivery_tag s' good)
          | inr room ↦ rw room good
        ],
        up.1,
      )
  round-Settled from_slice batch_max consumer_ended turn bound s rounds up h =
      (Settled-AckedStored bound s h, up)
  round-Settled from_slice batch_max flush_tick turn bound s rounds up h = (
    elim (Bool-cases (not (is_empty e s.batch))) [
      | inl some_there ↦ rw some_there (flush-Settled turn.answer turn.now turn.ack bound s h)
      | inr none_there ↦ rw none_there h
    ],
    up,
  )
  round-Settled from_slice batch_max (metrics_tick in_time) turn bound s rounds up h =
      (probe-Settled in_time bound s h, up)
  round-Settled from_slice batch_max (probe_tick alive) turn bound s rounds up h =
      (probe-Settled alive bound s h, up)

  loop-Settled :
      (from_slice : FromSlice) (batch_max : ℕ) (rounds : List (Event × Turn)) (bound : ℕ)
      (status : Status e.Table)
      → AscendingTags bound rounds
      → Holds bound status
      → AckedStored (at_end (consume_loop e from_slice batch_max rounds status))
  unfolding consume_loop
  loop-Settled from_slice batch_max [] bound (running s) up h = Settled-AckedStored bound s h
  loop-Settled from_slice batch_max [] bound (lost s) up h = h
  loop-Settled from_slice batch_max (r ∷ rounds) bound (lost s) up h = h
  loop-Settled from_slice batch_max ((event, turn) ∷ rounds) bound (running s) up h =
      let (good, later) = round-Settled from_slice batch_max event turn bound s rounds up h in
      loop-Settled from_slice batch_max rounds (next_bound bound event)
        (consume_round e from_slice batch_max event turn s) later good

  -- Whatever the broker, the database and the clocks do in a session, each delivery that the broker has
  -- as acked, among those that the loop accepted, has its frame in the table, if the broker numbers the
  -- deliveries in ascending order: no frame is acked before the commit that contains it.
  pub acked-Stored :
      (from_slice : FromSlice) (batch_max : ℕ) (watermarks : List (ℕ × ℕ × ℕ × ℕ))
      (rounds : List (Event × Turn)) (table : e.Table) (counters : Counters) (gaps : GapTracker)
      → AscendingTags 0 rounds
      → let s = at_end (run_classic e from_slice batch_max watermarks rounds table counters gaps) in
        All (Stored e s.table) (acked_frames s.trace.acked s.trace.accepted)
  acked-Stored from_slice batch_max watermarks rounds table counters gaps up =
      let s = at_end (run_classic e from_slice batch_max watermarks rounds table counters gaps) in
      acked_frames-All s.table s.trace.acked s.trace.accepted (
        loop-Settled from_slice batch_max rounds 0
          (running (fresh table counters (seed_all watermarks gaps))) up
          (omega arith, omega arith, tt))
