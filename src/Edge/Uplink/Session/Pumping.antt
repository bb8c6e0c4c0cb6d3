-- ===== src/Edge/Uplink/Session/Pumping.antt =====
-- The pump of `publish_loop` in crates/coldbore-edge/src/uplink.rs keeps the books.
use cold_bore.Base.{
  ℕ, zero, suc, ◌≡◌, Bool, true, false, List, [], ◌∷◌, Option, none, some, length, length-append,
  weigh-append, arith,
}
use cold_bore.Proto.Frame.{Frame}
use cold_bore.Edge.Uplink.{UplinkState, next_publishable}
use cold_bore.Edge.Uplink.Custody.{live}
use cold_bore.Edge.Uplink.Handover.{Takes, next_publishable-Takes}
use cold_bore.Edge.Uplink.Session.{
  lost, Session, Confirm, Status, Publish, sent, error, timed_out, Attempt, publish_failed,
  publish_sent, offered, pump,
}
use cold_bore.Edge.Uplink.Session.Books.{Account, Inv, Good, reap_all-Good}

publish_failed-Good :
    (reaps : List Confirm) (e : Frame × Bool) (s : Session)
    → Account (e ∷ s.pending) s
    → s.inflight ≡ length s.pending
    → Good (publish_failed reaps e s)
unfolding publish_failed
publish_failed-Good reaps (frame, true) s a n =
    reap_all-Good lost reaps s.pending _ (λ s' r. r)
      (record {
        sorted = a.sorted;
        balanced = λ w. omega (arith, a.balanced w);
        backoff_bounds = a.backoff_bounds;
      })
      n
publish_failed-Good reaps (frame, false) s a n =
    reap_all-Good lost reaps s.pending _ (λ s' r. r)
      (record {
        sorted = a.sorted;
        balanced = λ w. omega (arith, a.balanced w);
        backoff_bounds = a.backoff_bounds;
      })
      n

publish_sent-Inv :
    (e : Frame × Bool) (s : Session)
    → Account (e ∷ s.pending) s
    → s.inflight ≡ length s.pending
    → Inv (publish_sent e s)
unfolding publish_sent
publish_sent-Inv e s a p = record {
  account = record {
    sorted = a.sorted;
    balanced = λ w. omega (arith, a.balanced w, weigh-append (live w) s.pending (e ∷ []));
    backoff_bounds = a.backoff_bounds;
  };
  paired = omega (arith, p, length-append s.pending (e ∷ []));
}

-- What `next_publishable` hands over is on its way to the wire.
took-Account :
    (s : Session) (e : Frame × Bool) (st : UplinkState)
    → Account s.pending s
    → Takes s.st st (some e)
    → Account (e ∷ s.pending) (record s { st = st })
took-Account s e st a t = record {
  sorted = t.sorted a.sorted;
  balanced = λ w. omega (arith, a.balanced w, t.held_less w);
  backoff_bounds = rw t.same_backoff a.backoff_bounds;
}

took_none-Inv :
    (s : Session) (st : UplinkState) → Inv s → Takes s.st st none → Inv (record s { st = st })
took_none-Inv s st v t = record {
  account = record {
    sorted = t.sorted v.account.sorted;
    balanced = λ w. omega (arith, v.account.balanced w, t.held_less w);
    backoff_bounds = rw t.same_backoff v.account.backoff_bounds;
  };
  paired = v.paired;
}

offered-Good :
    (result : Publish) (reaps : List Confirm) (o : Option (Frame × Bool)) (st : UplinkState)
    (s : Session) (go_on : Session → Status)
    → ((s' : Session) → Inv s' → Good (go_on s'))
    → Inv s
    → Takes s.st st o
    → Good (offered result reaps o (record s { st = st }) go_on)
offered-Good result reaps none st s go_on k v t = took_none-Inv s st v t
offered-Good sent reaps (some e) st s go_on k v t =
    k _ (publish_sent-Inv e (record s { st = st }) (took-Account s e st v.account t) v.paired)
offered-Good error reaps (some e) st s go_on k v t =
    publish_failed-Good reaps e (record s { st = st }) (took-Account s e st v.account t) v.paired
offered-Good timed_out reaps (some e) st s go_on k v t =
    publish_failed-Good reaps e (record s { st = st }) (took-Account s e st v.account t) v.paired

pub pump-Good :
    (room : ℕ) (attempts : ℕ → Attempt) (reaps : List Confirm) (s : Session)
    → Inv s
    → Good (pump room attempts reaps s)
unfolding pump
pump-Good zero attempts reaps s v = v
pump-Good (suc room) attempts reaps s v =
    let a = attempts room in
    offered-Good a.result reaps (next_publishable a.reads s.st).0 (next_publishable a.reads s.st).1
      s (pump room attempts reaps) (pump-Good room attempts reaps) v
      (next_publishable-Takes a.reads s.st)
