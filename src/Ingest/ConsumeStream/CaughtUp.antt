-- ===== src/Ingest/ConsumeStream/CaughtUp.antt =====
-- Progress in crates/coldbore-ingest/src/consume_stream.rs: while the database answers, the stored
-- offset catches up with the records at the next flush tick.
use cold_bore.Base.{
  ℕ, ◌≤◌, ◌≡◌, refl, sym, subst, ◌⊎◌, inl, inr, true, false, List, [], ◌∷◌, ◌++◌, map, Option, none,
  some, leb, length, All, All-weaken, Bool-cases, arith,
}
use cold_bore.Proto.Frame.{Frame}
use cold_bore.Ingest.Sink.{
  to_row, contains, Engine, Database, insert_batch, insert_batch_with_offset,
}
use cold_bore.Ingest.Sink.Batch.{
  contains-push_old, contains-push_new, Stored, inserted_batch, inserted_before,
}
use cold_bore.Ingest.Counters.{Counters}
use cold_bore.Ingest.Gap.{GapTracker}
use cold_bore.Ingest.Consume.{FromSlice, committed}
use cold_bore.Ingest.ConsumeStream.Progress.{
  Goes, offset_behind, Healthy, Found, found, brought, delivered_records, Done,
}
use cold_bore.Ingest.ConsumeStream.{
  parse_record, Turn, Status, running, Event, delivered, consumer_ended, flush_tick, metrics_tick,
  probe_tick, At, accept, flush, is_empty, fresh, run_stream, consume_round, consume_loop,
}

module _ (e : Engine) where
  -- Done, or in the batch; never behind the newest offset.
  abbrev InHand : At e → Found → Type 0
  InHand s r =
      (r.0 ≤ s.last_offset) × (Done e s.db r ⊎ (contains (to_row r.1) (map to_row s.batch) ≡ true))

  abbrev Fine : ℕ → At e → List Found → Type 0
  Fine last s rs = (s.last_offset ≤ last) × All (InHand s) rs

  accept-Fine :
      (at : ℕ) (parsed : Option Frame) (last : ℕ) (s : At e) (rs : List Found)
      → last ≤ at
      → Fine last s rs
      → Fine at (accept e at parsed s) (found at parsed ++ rs)
  unfolding accept
  accept-Fine at none last s rs up h =
      (omega arith, All-weaken (InHand s) _ rs (λ r k. (omega (arith, h.0, k.0), k.1)) h.1)
  accept-Fine at (some f) last s rs up h = (
    omega arith,
    ((omega arith, inr (contains-push_new s.batch f)), All-weaken (InHand s) _ rs later h.1),
  )
    where
      later :
          (r : Found)
          → InHand s r
          → (r.0 ≤ at)
            × (Done e s.db r ⊎ (contains (to_row r.1) (map to_row (s.batch ++ f ∷ [])) ≡ true))
      later r (le, inl k) = (omega (arith, h.0), inl k)
      later r (le, inr k) = (omega (arith, h.0), inr (contains-push_old (to_row r.1) s.batch f k))

  -- The batch is empty and every record is done.
  abbrev Flushed : ℕ → Status e.Table → List Found → Type 0
  Flushed last status rs =
      (s : At e) × (status ≡ running s)
      × (s.batch ≡ [])
      × (s.last_offset ≤ last)
      × All (InHand s) rs
      × All (Done e s.db) rs

  abbrev GoesOn : ℕ → Status e.Table → List Found → Type 0
  GoesOn last status rs = (s : At e) × (status ≡ running s) × Fine last s rs

  flush-Flushed :
      (now last : ℕ) (s : At e) (rs : List Found)
      → Fine last s rs
      → Flushed last (flush e committed now s) rs
  unfolding flush insert_batch_with_offset
  flush-Flushed now last s rs h =
      (_, refl, refl, h.0, All-weaken (InHand s) _ rs both h.1, All-weaken (InHand s) _ rs done h.1)
    where
      done :
          (r : Found)
          → InHand s r
          → Stored e (insert_batch e s.db.table s.batch).0 r.1 × (r.0 ≤ s.last_offset)
      done r (le, inl k) = (inserted_before e s.db.table s.batch r.1 k.0, le)
      done r (le, inr k) = (inserted_batch e s.db.table s.batch r.1 k, le)

      both :
          (r : Found)
          → InHand s r
          → (r.0 ≤ s.last_offset)
            × ((Stored e (insert_batch e s.db.table s.batch).0 r.1 × (r.0 ≤ s.last_offset))
                ⊎ (contains (to_row r.1) (map to_row []) ≡ true))
      both r k = (k.0, inl (done r k))

  answered-Flushed :
      (turn : Turn) (last : ℕ) (s : At e) (rs : List Found)
      → turn.answer ≡ committed
      → Fine last s rs
      → Flushed last (flush e turn.answer turn.now s) rs
  answered-Flushed turn last s rs commits h = rw commits (flush-Flushed turn.now last s rs h)

  Flushed-GoesOn :
      (last : ℕ) (status : Status e.Table) (rs : List Found)
      → Flushed last status rs
      → GoesOn last status rs
  Flushed-GoesOn last status rs (s, is, empty, le, in_hand, done) = (s, is, (le, in_hand))

  InHand-empty : (s : At e) → s.batch ≡ [] → (r : Found) → InHand s r → Done e s.db r
  unfolding contains
  InHand-empty s empty r (le, inl k) = k
  InHand-empty s empty r (le, inr k) = absurd (ground arith)

  empty_or_not : (fs : List Frame) → ((fs ≡ []) × (is_empty e fs ≡ true)) ⊎ (is_empty e fs ≡ false)
  empty_or_not [] = inl (refl, refl)
  empty_or_not (f ∷ fs) = inr refl

  tick-Flushed :
      (from_slice : FromSlice) (batch_max : ℕ) (turn : Turn) (last : ℕ) (s : At e) (rs : List Found)
      → turn.answer ≡ committed
      → Fine last s rs
      → Flushed last (consume_round e from_slice batch_max flush_tick turn s) rs
  unfolding consume_round
  tick-Flushed from_slice batch_max turn last s rs commits h = elim (empty_or_not s.batch) [
    | inl (empty, is) ↦
        rw is (s, refl, empty, h.0, h.1, All-weaken (InHand s) _ rs (InHand-empty s empty) h.1)
    | inr there ↦ rw there (answered-Flushed turn last s rs commits h)
  ]

  round-GoesOn :
      (from_slice : FromSlice) (batch_max : ℕ) (event : Event) (turn : Turn) (last : ℕ) (s : At e)
      (rs : List Found)
      → Goes last event
      → turn.answer ≡ committed
      → Fine last s rs
      → GoesOn
          (offset_behind last event)
          (consume_round e from_slice batch_max event turn s)
          (brought from_slice event ++ rs)
  unfolding consume_round
  round-GoesOn from_slice batch_max (delivered d) turn last s rs goes commits h =
      let parsed = parse_record from_slice d.body in
      let s' = accept e d.at parsed s in
      let rs' = found d.at parsed ++ rs in
      let fine : Fine d.at s' rs' = accept-Fine d.at parsed last s rs goes h in
      elim (Bool-cases (leb batch_max (length s'.batch))) [
        | inl full ↦
            rw full (Flushed-GoesOn d.at _ rs' (answered-Flushed turn d.at s' rs' commits fine))
        | inr room ↦ rw room (s', refl, fine)
      ]
  round-GoesOn from_slice batch_max consumer_ended turn last s rs goes commits h = absurd goes
  round-GoesOn from_slice batch_max flush_tick turn last s rs goes commits h =
      Flushed-GoesOn last _ rs (tick-Flushed from_slice batch_max turn last s rs commits h)
  round-GoesOn from_slice batch_max (metrics_tick in_time) turn last s rs goes commits h =
      rw goes (s, refl, h)
  round-GoesOn from_slice batch_max (probe_tick alive) turn last s rs goes commits h =
      rw goes (s, refl, h)

  abbrev Caught : Status e.Table → List Found → Type 0
  Caught status rs = (s : At e) × (status ≡ running s) × (s.batch ≡ []) × All (Done e s.db) rs

  loop-Caught :
      (from_slice : FromSlice) (batch_max : ℕ) (rounds : List (Event × Turn)) (turn : Turn)
      (last : ℕ) (s : At e) (rs : List Found)
      → Healthy last (rounds ++ (flush_tick, turn) ∷ [])
      → Fine last s rs
      → Caught
          (consume_loop e from_slice batch_max (rounds ++ (flush_tick, turn) ∷ []) (running s))
          (delivered_records from_slice rounds rs)
  unfolding consume_loop
  loop-Caught from_slice batch_max [] turn last s rs healthy h =
      let (s', is, empty, _, _, done) =
        tick-Flushed from_slice batch_max turn last s rs healthy.1 h in
      subst (λ status. Caught (consume_loop e from_slice batch_max [] status) rs) (sym is)
        (s', refl, empty, done)
  loop-Caught from_slice batch_max ((event, now) ∷ rounds) turn last s rs (goes, commits, healthy)
        h =
      let rs' = brought from_slice event ++ rs in
      let (s', is, fine) = round-GoesOn from_slice batch_max event now last s rs goes commits h in
      subst
        (λ status.
          Caught (consume_loop e from_slice batch_max (rounds ++ (flush_tick, turn) ∷ []) status)
            (delivered_records from_slice rounds rs'))
        (sym is)
        (loop-Caught from_slice batch_max rounds turn (offset_behind last event) s' rs' healthy
          fine)

  -- As long as the records come in ascending order, the probe and the snapshot come back in time and
  -- the database commits, a session goes on; and at each flush tick its batch is empty, every valid
  -- record that was delivered so far has its frame in the table, and the stored offset is at least the
  -- offset of that record.
  pub run_stream_catches_up :
      (from_slice : FromSlice) (batch_max : ℕ) (watermarks : List (ℕ × ℕ × ℕ × ℕ))
      (rounds : List (Event × Turn)) (turn : Turn) (db : Database e.Table) (counters : Counters)
      (gaps : GapTracker)
      → Healthy 0 (rounds ++ (flush_tick, turn) ∷ [])
      → (s : At e) × (run_stream e from_slice batch_max watermarks
            (rounds ++ (flush_tick, turn) ∷ [])
            db
            counters
            gaps
          ≡ running s)
        × (s.batch ≡ [])
        × All (Done e s.db) (delivered_records from_slice rounds [])
  run_stream_catches_up from_slice batch_max watermarks rounds turn db counters gaps healthy =
      loop-Caught from_slice batch_max rounds turn 0 (fresh watermarks db counters gaps) [] healthy
        (omega arith, tt)
