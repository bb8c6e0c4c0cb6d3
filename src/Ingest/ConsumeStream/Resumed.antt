-- ===== src/Ingest/ConsumeStream/Resumed.antt =====
-- Exact resume in crates/coldbore-ingest/src/consume_stream.rs: the stored offset covers the data.
use cold_bore.Base.{
  ℕ, suc, ◌≤◌, ◌<◌, ◌≡◌, refl, sym, ap, subst, ◌∙◌, ◌≢◌, ◌⊎◌, inl, inr, Bool, true, false, not,
  List, [], ◌∷◌, ◌++◌, map, Option, none, some, leb, length, Bool-cases, arith, add64_exact,
  u64_mod,
}
use cold_bore.Proto.Frame.{Frame}
use cold_bore.Proto.Config.{StreamFrom}
use cold_bore.Ingest.Sink.{
  to_row, contains, Engine, Database, insert_batch, insert_batch_with_offset,
}
use cold_bore.Ingest.Sink.Batch.{
  contains-push_old, contains-push_new, Stored, inserted_batch, inserted_before,
}
use cold_bore.Ingest.Consume.{Bytes, FromSlice, Answer, committed, refused, silent}
use cold_bore.Ingest.ConsumeStream.{
  OffsetSpecification, first, next, offset, start_position, requested, Status, running, lost, Turn,
  Event, delivered, consumer_ended, flush_tick, metrics_tick, probe_tick, parse_record, probe,
  database, At, accept, flush, is_empty, consume_round, consume_loop,
}

-- The records of the stream, by offset.
abbrev pub Log : Type 0
Log = ℕ → Option Bytes

-- A consumer at a position is given the records of the stream one after the other.
abbrev pub Follows : Log → ℕ → List (Event × Turn) → Type 0
Follows log position [] = Unit
Follows log position ((delivered d, turn) ∷ rounds) =
    (d.at ≡ position)
    × (d.body ≡ log position)
    × (suc position < u64_mod)
    × Follows log (suc position) rounds
Follows log position ((consumer_ended, turn) ∷ rounds) = Follows log position rounds
Follows log position ((flush_tick, turn) ∷ rounds) = Follows log position rounds
Follows log position ((metrics_tick _, turn) ∷ rounds) = Follows log position rounds
Follows log position ((probe_tick _, turn) ∷ rounds) = Follows log position rounds

abbrev pub next_position : ℕ → Event → ℕ
next_position position (delivered d) = suc position
next_position position consumer_ended = position
next_position position flush_tick = position
next_position position (metrics_tick _) = position
next_position position (probe_tick _) = position

-- Where the broker starts a consumer: its first retained record, the end of the stream, or an offset.
abbrev pub place : ℕ → ℕ → OffsetSpecification → ℕ
place oldest end first = oldest
place oldest end next = end
place oldest end (offset n) = n

below_or_here : (o p : ℕ) → o < suc p → (o < p) ⊎ (o ≡ p)
below_or_here o p h = ground arith

absurd_some : {A : Type 0} (x : A) → none ≢ some x
absurd_some x h = cc

some_same : {A : Type 0} (x y : A) → some x ≡ some y → x ≡ y
some_same x y h = cc

module _ (e : Engine) (from_slice : FromSlice) (log : Log) (lo : ℕ) where
  -- Every valid frame of the stream from `lo` up to the stored offset is in the table.
  abbrev pub Covered : Database e.Table → Type 0
  Covered db =
      (k : ℕ)
      → db.committed_offset ≡ some k
      → (suc k < u64_mod)
        × ((o : ℕ) (f : Frame)
            → lo ≤ o
            → o ≤ k
            → parse_record from_slice (log o) ≡ some f
            → Stored e db.table f)

  -- Every valid frame that the session has passed is in the table or in the batch.
  abbrev pub Passed : ℕ → e.Table → List Frame → Type 0
  Passed position t batch =
      (o : ℕ) (f : Frame)
      → lo ≤ o
      → o < position
      → parse_record from_slice (log o) ≡ some f
      → Stored e t f ⊎ (contains (to_row f) (map to_row batch) ≡ true)

  -- The last offset is the one just before the position, unless there is nothing to flush.
  abbrev pub Reached : ℕ → At e → Type 0
  Reached position s = (position ≡ suc s.last_offset) × (position < u64_mod)

  abbrev pub Inv : ℕ → At e → Type 0
  Inv position s =
      Passed position s.db.table s.batch × (Reached position s ⊎ (s.batch ≡ [])) × Covered s.db

  abbrev pub Holds : ℕ → Status e.Table → Type 0
  Holds position (running s) = Inv position s
  Holds position (lost s) = Covered s.db

  Kept-push :
      (s : At e) (f g : Frame)
      → Stored e s.db.table f ⊎ (contains (to_row f) (map to_row s.batch) ≡ true)
      → Stored e s.db.table f ⊎ (contains (to_row f) (map to_row (s.batch ++ g ∷ [])) ≡ true)
  Kept-push s f g (inl k) = inl k
  Kept-push s f g (inr k) = inr (contains-push_old (to_row f) s.batch g k)

  accept-Passed :
      (parsed : Option Frame) (at position : ℕ) (s : At e)
      → parse_record from_slice (log position) ≡ parsed
      → Passed position s.db.table s.batch
      → Passed (suc position) (accept e at parsed s).db.table (accept e at parsed s).batch
  unfolding accept
  accept-Passed none at position s is h o f low up parsed = elim (below_or_here o position up) [
    | inl before ↦ h o f low before parsed
    | inr here ↦
        absurd
          (absurd_some f (sym is ∙ ap (λ n. parse_record from_slice (log n)) (sym here) ∙ parsed))
  ]
  accept-Passed (some g) at position s is h o f low up parsed = elim (below_or_here o position up) [
    | inl before ↦ Kept-push s f g (h o f low before parsed)
    | inr here ↦ inr (
        subst (λ x. contains (to_row x) (map to_row (s.batch ++ g ∷ [])) ≡ true)
          (some_same g f (sym is ∙ ap (λ n. parse_record from_slice (log n)) (sym here) ∙ parsed))
          (contains-push_new s.batch g))
  ]

  all-Stored :
      (position : ℕ) (s : At e) (o : ℕ) (f : Frame)
      → Stored e s.db.table f ⊎ (contains (to_row f) (map to_row s.batch) ≡ true)
      → Stored e (insert_batch e s.db.table s.batch).0 f
  all-Stored position s o f (inl k) = inserted_before e s.db.table s.batch f k
  all-Stored position s o f (inr k) = inserted_batch e s.db.table s.batch f k

  committed-Covered :
      (position : ℕ) (s : At e)
      → Passed position s.db.table s.batch
      → Reached position s
      → Covered (insert_batch_with_offset e s.db s.batch s.last_offset).0
  unfolding insert_batch_with_offset
  committed-Covered position s h r k is =
      let here : s.last_offset ≡ k = some_same s.last_offset k is in
      (
        omega (arith, r.0, r.1, here),
        λ o f low up parsed.
            all-Stored position s o f (h o f low (omega (arith, r.0, here, up)) parsed),
      )

  flush-Holds :
      (answer : Answer) (now position : ℕ) (s : At e)
      → Passed position s.db.table s.batch
      → Reached position s
      → Covered s.db
      → Holds position (flush e answer now s)
  unfolding flush insert_batch_with_offset
  flush-Holds committed now position s h r c = (
    λ o f low up parsed. inl (all-Stored position s o f (h o f low up parsed)),
    inr refl,
    committed-Covered position s h r,
  )
  flush-Holds refused now position s h r c = c
  flush-Holds (silent true) now position s h r c = committed-Covered position s h r
  flush-Holds (silent false) now position s h r c = c

  probe-Holds :
      (alive : Bool) (position : ℕ) (s : At e) → Inv position s → Holds position (probe alive s)
  probe-Holds true position s h = h
  probe-Holds false position s h = h.2

  accept_last :
      (at : ℕ) (parsed : Option Frame) (s : At e) → (accept e at parsed s).last_offset ≡ at
  unfolding accept
  accept_last at none s = refl
  accept_last at (some f) s = refl

  accept_db : (at : ℕ) (parsed : Option Frame) (s : At e) → (accept e at parsed s).db ≡ s.db
  unfolding accept
  accept_db at none s = refl
  accept_db at (some f) s = refl

  not_empty : (b : List Frame) → not (is_empty e b) ≡ true → b ≢ []
  not_empty [] h k = ground arith
  not_empty (f ∷ fs) h k = ground arith

  tick-Reached :
      (position : ℕ) (s : At e)
      → not (is_empty e s.batch) ≡ true
      → Reached position s ⊎ (s.batch ≡ [])
      → Reached position s
  tick-Reached position s there (inl r) = r
  tick-Reached position s there (inr none_there) = absurd (not_empty s.batch there none_there)

  round-Holds :
      (batch_max : ℕ) (event : Event) (turn : Turn) (position : ℕ) (s : At e)
      (rounds : List (Event × Turn))
      → Follows log position ((event, turn) ∷ rounds)
      → Inv position s
      → Holds (next_position position event) (consume_round e from_slice batch_max event turn s)
        × Follows log (next_position position event) rounds
  unfolding consume_round
  round-Holds batch_max (delivered d) turn position s rounds follows h =
      let parsed = parse_record from_slice d.body in
      let s' = accept e d.at parsed s in
      let passed : Passed (suc position) s'.db.table s'.batch =
        accept-Passed parsed d.at position s (sym (ap (λ b. parse_record from_slice b) follows.1))
          h.0 in
      let reached : Reached (suc position) s' =
        (ap suc (sym follows.0 ∙ sym (accept_last d.at parsed s)), follows.2) in
      let covered : Covered s'.db = subst Covered (sym (accept_db d.at parsed s)) h.2 in
      (
        elim (Bool-cases (leb batch_max (length s'.batch))) [
          | inl full ↦
              rw full (flush-Holds turn.answer turn.now (suc position) s' passed reached covered)
          | inr room ↦ rw room (passed, inl reached, covered)
        ],
        follows.3,
      )
  round-Holds batch_max consumer_ended turn position s rounds follows h = (h.2, follows)
  round-Holds batch_max flush_tick turn position s rounds follows h = (
    elim (Bool-cases (not (is_empty e s.batch))) [
      | inl there ↦
          rw there (
            flush-Holds turn.answer turn.now position s h.0 (tick-Reached position s there h.1) h.2)
      | inr none_there ↦ rw none_there h
    ],
    follows,
  )
  round-Holds batch_max (metrics_tick in_time) turn position s rounds follows h =
      (probe-Holds in_time position s h, follows)
  round-Holds batch_max (probe_tick alive) turn position s rounds follows h =
      (probe-Holds alive position s h, follows)

  pub loop-Covered :
      (batch_max : ℕ) (rounds : List (Event × Turn)) (position : ℕ) (status : Status e.Table)
      → Follows log position rounds
      → Holds position status
      → Covered (database (consume_loop e from_slice batch_max rounds status))
  unfolding consume_loop
  loop-Covered batch_max [] position (running s) follows h = h.2
  loop-Covered batch_max [] position (lost s) follows h = h
  loop-Covered batch_max (r ∷ rounds) position (lost s) follows h = h
  loop-Covered batch_max ((event, turn) ∷ rounds) position (running s) follows h =
      let (good, later) = round-Holds batch_max event turn position s rounds follows h in
      loop-Covered batch_max rounds (next_position position event)
        (consume_round e from_slice batch_max event turn s) later good

  pub start-Passed :
      (force : Bool) (stored : Option ℕ) (db : Database e.Table) (stream_from : StreamFrom)
      (oldest end : ℕ)
      → stored ≡ db.committed_offset
      → place oldest end (requested stream_from) ≤ lo
      → Covered db
      → Passed (place oldest end (start_position force stored stream_from)) db.table []
  unfolding start_position
  start-Passed false (some k) db stream_from oldest end is low c o f from_lo up parsed =
      let (small, there) = c k (sym is) in
      inl (there o f from_lo (omega (arith, up, add64_exact k 1 (omega (arith, small)))) parsed)
  start-Passed false none db stream_from oldest end is low c o f from_lo up parsed =
      absurd (omega (arith, low, up, from_lo))
  start-Passed true stored db stream_from oldest end is low c o f from_lo up parsed =
      absurd (omega (arith, low, up, from_lo))
