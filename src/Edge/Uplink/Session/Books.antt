-- ===== src/Edge/Uplink/Session/Books.antt =====
-- The books of a session of crates/coldbore-edge/src/uplink.rs, and that `reap_all` leaves nothing on the
-- wire.
use cold_bore.Base.{
  ℕ, ◌+◌, ◌-◌, ◌≤◌, ◌≡◌, refl, ◌∙◌, inl, inr, Bool-cases, ◌==◌, Bool, true, false, List, [], ◌∷◌,
  length, weigh, weigh-append, arith,
}
use cold_bore.Proto.Frame.{Frame}
use cold_bore.Edge.Counters.{Counters}
use cold_bore.Edge.Uplink.{UplinkState, initial_backoff, max_backoff}
use cold_bore.Edge.Uplink.Custody.{held, live, IsSorted}
use cold_bore.Edge.Uplink.Session.{
  Session, Confirm, ack, nack, failed, requeue, reap_one, reap_rest, reap_all, Status, running,
  lost, shutdown, panics, note_ack, count_retransmit,
}

-- The books balance for the frames `pending` on the wire: for every weight, what is held, on the wire,
-- confirmed and given up weighs as much as what came in, injected duplicates left aside. A duplicate
-- that a failed publish put into the retry queue counts as one more frame that came in.
pub record Account (pending : List (Frame × Bool)) (s : Session) : Type 0 where
  pub sorted : IsSorted s.st
  pub balanced :
      (w : Frame → ℕ)
      → held w s.st
          + weigh (live w) pending
          + weigh (live w) s.trace.acked
          + weigh w s.trace.dropped
        ≡ weigh w s.trace.received + weigh w s.trace.promoted
  pub backoff_bounds : (initial_backoff ≤ s.st.backoff) × (s.st.backoff ≤ max_backoff)

-- Between two rounds: the books balance, and there are as many confirm futures as frames on the wire.
pub record Inv (s : Session) : Type 0 where
  pub account : Account s.pending s
  pub paired : s.inflight ≡ length s.pending

requeue-held :
    (w : Frame → ℕ) (e : Frame × Bool) (st : UplinkState)
    → held w (requeue e st) ≡ held w st + live w e
unfolding requeue
requeue-held w (frame, false) st = omega (arith, weigh-append w st.retry (frame ∷ []))
requeue-held w (frame, true) st = omega arith

requeue-IsSorted : (e : Frame × Bool) (st : UplinkState) → IsSorted st → IsSorted (requeue e st)
unfolding requeue
requeue-IsSorted (frame, false) st h = h
requeue-IsSorted (frame, true) st h = h

requeue_backoff : (e : Frame × Bool) (st : UplinkState) → (requeue e st).backoff ≡ st.backoff
unfolding requeue
requeue_backoff (frame, false) st = refl
requeue_backoff (frame, true) st = refl

-- A frame whose confirm did not come goes back in line.
pub requeue-Account :
    (e : Frame × Bool) (rest : List (Frame × Bool)) (s : Session) (c : Counters)
    → Account (e ∷ rest) s
    → Account rest (record s { counters = c; st = requeue e s.st })
requeue-Account e rest s c a = record {
  sorted = requeue-IsSorted e s.st a.sorted;
  balanced = λ w. omega (arith, a.balanced w, requeue-held w e s.st);
  backoff_bounds = rw (requeue_backoff e s.st) a.backoff_bounds;
}

pub acked-Account :
    (e : Frame × Bool) (rest : List (Frame × Bool)) (s : Session) (c : Counters)
    → Account (e ∷ rest) s
    → Account rest (record s { counters = c; trace = note_ack e s.trace })
unfolding note_ack
acked-Account e rest s c a = record {
  sorted = a.sorted;
  balanced = λ w. omega (arith, a.balanced w);
  backoff_bounds = a.backoff_bounds;
}

reap_one-Account :
    (c : Confirm) (e : Frame × Bool) (rest : List (Frame × Bool)) (s : Session)
    → Account (e ∷ rest) s
    → Account rest (reap_one c e s)
unfolding reap_one
reap_one-Account ack e rest s a = acked-Account e rest s _ a
reap_one-Account nack e rest s a = requeue-Account e rest s _ a
reap_one-Account failed e rest s a = requeue-Account e rest s _ a

-- After `reap_all` nothing is on the wire, and nothing was lost.
pub record Reaped (s : Session) : Type 0 where
  pub account : Account [] s
  pub none_pending : s.pending ≡ []
  pub none_inflight : s.inflight ≡ 0

reap_rest-Reaped :
    (pending : List (Frame × Bool)) (s : Session) → Account pending s → Reaped (reap_rest pending s)
unfolding reap_rest
reap_rest-Reaped [] s a = record {
  account = record { sorted = a.sorted; balanced = a.balanced; backoff_bounds = a.backoff_bounds };
  none_pending = refl;
  none_inflight = refl;
}
reap_rest-Reaped (e ∷ rest) s a =
    reap_rest-Reaped rest _ (requeue-Account e rest s (count_retransmit s.counters) a)

-- What holds after a step, by how it ended; that the `expect` of an empty queue panics is ruled out.
abbrev pub Good : Status → Type 0
Good (running s) = Inv s
Good (lost s) = Reaped s
Good (shutdown s) = Reaped s
Good panics = ⊥

reap_one_inflight :
    (c : Confirm) (e : Frame × Bool) (s : Session) → (reap_one c e s).inflight ≡ s.inflight
unfolding reap_one
reap_one_inflight ack e s = refl
reap_one_inflight nack e s = refl
reap_one_inflight failed e s = refl

fewer-Account :
    (pending : List (Frame × Bool)) (s : Session)
    → Account pending s
    → Account pending (record s { inflight = s.inflight - 1 })
fewer-Account pending s a = record {
  sorted = a.sorted;
  balanced = a.balanced;
  backoff_bounds = a.backoff_bounds;
}

-- Whatever confirms still come, with as many futures as frames on the wire.
pub reap_all-Good :
    (ends : Session → Status) (cs : List Confirm) (pending : List (Frame × Bool)) (s : Session)
    → ((s' : Session) → Reaped s' → Good (ends s'))
    → Account pending s
    → s.inflight ≡ length pending
    → Good (reap_all ends cs pending s)
unfolding reap_all reap_rest
reap_all-Good ends [] pending s k a n = k _ (reap_rest-Reaped pending s a)
reap_all-Good ends (c ∷ cs) [] s k a n = rw n (k _ (reap_rest-Reaped [] s a))
reap_all-Good ends (c ∷ cs) (e ∷ rest) s k a n = elim (Bool-cases (s.inflight == 0)) [
  | inl none_left ↦ rw none_left (k _ (reap_rest-Reaped (e ∷ rest) s a))
  | inr left ↦ rw left (
      reap_all-Good ends cs rest (reap_one c e (record s { inflight = s.inflight - 1 })) k
        (reap_one-Account c e rest _ (fewer-Account (e ∷ rest) s a))
        (reap_one_inflight c e (record s { inflight = s.inflight - 1 }) ∙ omega (arith, n)))
]
