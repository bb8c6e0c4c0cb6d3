-- ===== src/Edge/UplinkStream/Dedup.antt =====
-- Retransmits of crates/coldbore-edge/src/uplink_stream.rs against a broker that deduplicates by
-- publishing id.
use cold_bore.Base.{
  false, ℕ, zero, suc, ◌≤◌, ◌<◌, ◌≡◌, refl, ap, ◌∙◌, List, [], ◌∷◌, ◌++◌, All, arith,
}
use cold_bore.Proto.Frame.{Frame}
use cold_bore.Edge.UplinkStream.{Session, Staged, send_off, pop_retry, stage_retries}

-- A stream, for one named producer. A message whose id is below `floor` is filtered out; any other is
-- stored, and then ids up to its own are below the floor. (The broker keeps the highest id per
-- producer, no more; it confirms what it filters out.)
pub record Stream : Type 1 where
  pub State : Type 0
  pub stored : State → List (ℕ × Frame)
  pub floor : State → ℕ
  pub publish : State → ℕ × Frame → State
  pub filters : (t : State) (m : ℕ × Frame) → m.0 < floor t → publish t m ≡ t
  pub stores :
      (t : State) (m : ℕ × Frame)
      → floor t ≤ m.0
      → (stored (publish t m) ≡ m ∷ stored t) × (floor (publish t m) ≡ suc m.0)

-- The messages that a batch of `room` makes of the retry stack.
abbrev first_messages : ℕ → List (Frame × ℕ) → List (ℕ × Frame)
first_messages zero queue = []
first_messages (suc room) [] = []
first_messages (suc room) (r ∷ rest) = (r.1, r.0) ∷ first_messages room rest

append_one :
    (ms : List (ℕ × Frame)) (m : ℕ × Frame) (rest : List (ℕ × Frame))
    → (ms ++ m ∷ []) ++ rest ≡ ms ++ m ∷ rest
append_one [] m rest = refl
append_one (x ∷ xs) m rest = ap (◌∷◌ x) (append_one xs m rest)

append_none : (ms : List (ℕ × Frame)) → ms ≡ ms ++ []
append_none [] = refl
append_none (x ∷ xs) = ap (◌∷◌ x) (append_none xs)

pop_retry-messages :
    (queue : List (Frame × ℕ)) (take : Frame × ℕ → List (Frame × ℕ) → Staged) (done : Staged)
    (room : ℕ) (messages : List (ℕ × Frame))
    → ((r : Frame × ℕ) (rest : List (Frame × ℕ))
        → (take r rest).0 ≡ (messages ++ (r.1, r.0) ∷ []) ++ first_messages room rest)
    → done.0 ≡ messages
    → (pop_retry queue take done).0 ≡ messages ++ first_messages (suc room) queue
pop_retry-messages [] take done room messages t d = d ∙ append_none messages
pop_retry-messages (r ∷ rest) take done room messages t d =
    t r rest ∙ append_one messages (r.1, r.0) (first_messages room rest)

stage_retries-messages :
    (room now : ℕ) (messages : List (ℕ × Frame)) (s : Session)
    → (stage_retries room now messages s).0 ≡ messages ++ first_messages room s.custody.retry_ids
unfolding stage_retries
stage_retries-messages zero now messages s = append_none messages
stage_retries-messages (suc room) now messages s =
    pop_retry-messages s.custody.retry_ids _ (messages, s) room messages
      (λ r rest. stage_retries-messages room now (messages ++ (r.1, r.0) ∷ []) (record s {
        custody = record s.custody { retry_ids = rest };
        inflight = send_off r.1 (r.0, false, now) s.inflight;
      }))
      refl

module _ (b : Stream) where
  abbrev pub publish_all : b.State → List (ℕ × Frame) → b.State
  publish_all t [] = t
  publish_all t (m ∷ ms) = publish_all (b.publish t m) ms

  All-filtered :
      (room id : ℕ) (queue : List (Frame × ℕ)) (t : b.State)
      → b.floor t ≡ suc id
      → All (λ r. r.1 < id) queue
      → publish_all t (first_messages room queue) ≡ t
  All-filtered zero id queue t fl below = refl
  All-filtered (suc room) id [] t fl below = refl
  All-filtered (suc room) id (r ∷ rest) t fl below =
      let same : b.publish t (r.1, r.0) ≡ t = b.filters t (r.1, r.0) (omega (arith, fl, below.0)) in
      ap (λ u. publish_all u (first_messages room rest)) same
      ∙ All-filtered room id rest t fl below.1

  -- With an id on top of the retry stack that is newer than those below it, and that the broker has not
  -- seen, a batch of retransmits stores the frame on top and no other: the broker filters out the older
  -- ids that follow in the same batch, although none of their frames was ever stored.
  pub retransmits_filtered :
      (room now id : ℕ) (frame : Frame) (rest : List (Frame × ℕ)) (s : Session) (t : b.State)
      → s.custody.retry_ids ≡ (frame, id) ∷ rest
      → All (λ r. r.1 < id) rest
      → b.floor t ≤ id
      → b.stored (publish_all t (stage_retries (suc room) now [] s).0) ≡ (id, frame) ∷ b.stored t
  retransmits_filtered room now id frame rest s t e below low =
      let (there, fl) = b.stores t (id, frame) low in
      ap (λ ms. b.stored (publish_all t ms))
        (stage_retries-messages (suc room) now [] s ∙ ap (first_messages (suc room)) e)
      ∙ ap b.stored (All-filtered room id rest (b.publish t (id, frame)) fl below)
      ∙ there
