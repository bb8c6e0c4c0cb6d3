-- ===== src/Edge/Uplink/Session/Supervisor.antt =====
-- The supervisor `run` of crates/coldbore-edge/src/uplink.rs keeps the books.
use cold_bore.Base.{
  ℕ, zero, suc, ◌+◌, ◌≡◌, refl, sym, ap, subst, ◌∙◌, List, [], ◌∷◌, length, Bool-cases, inl, inr,
  arith,
}
use cold_bore.Base.Map.{Ascending, Ascending-lower}
use cold_bore.Proto.Frame.{Frame}
use cold_bore.Edge.Uplink.{new, empty_buffers}
use cold_bore.Edge.Uplink.Custody.{weigh_buffers}
use cold_bore.Edge.Uplink.Session.{Session, Status, running, lost, shutdown, panics, accept, gauge}
use cold_bore.Edge.Uplink.Session.Conserved.{publish_round-Good, accept-Inv}
use cold_bore.Edge.Uplink.Session.Books.{Account, Inv, Reaped, Good}
use cold_bore.Edge.Uplink.Session.Run.{
  Round, continue, publish_loop, connected, buffer_all, back_off, reset_backoff, Connection,
  unreached, broken, serving, connect_and_serve, Life, disconnected, reconnect, live_once, live_on,
  run, start,
}

continue-Good :
    (rest : Session → Status) (r : Status)
    → ((s : Session) → Inv s → Good (rest s))
    → Good r
    → Good (continue rest r)
continue-Good rest (running s) k g = k s g
continue-Good rest (lost s) k g = g
continue-Good rest (shutdown s) k g = g
continue-Good rest panics k g = g

publish_loop-Good :
    (window : ℕ) (rs : List Round) (s : Session) → Inv s → Good (publish_loop window rs s)
unfolding publish_loop
publish_loop-Good window [] s v = v
publish_loop-Good window (r ∷ rs) s v =
    continue-Good (publish_loop window rs) _ (publish_loop-Good window rs)
      (publish_round-Good window r.attempts r.event r.reaps s v)

connected-Inv : (now : ℕ) (s : Session) → Reaped s → Inv (connected now s)
connected-Inv now s v = record {
  account = record {
    sorted = v.account.sorted;
    balanced = v.account.balanced;
    backoff_bounds = omega arith;
  };
  paired = refl;
}

-- Between sessions the books balance with nothing on the wire.
pub Reaped-Inv : (s : Session) → Reaped s → Inv s
Reaped-Inv s v = record {
  account = subst (λ q. Account q s) (sym v.none_pending) v.account;
  paired = v.none_inflight ∙ ap length (sym v.none_pending);
}

buffer_all-Inv : (fs : List Frame) (s : Session) → Inv s → Inv (buffer_all fs s)
unfolding buffer_all
buffer_all-Inv [] s v = v
buffer_all-Inv (f ∷ fs) s v = buffer_all-Inv fs (accept f s) (accept-Inv f s v)

buffer_all-wire :
    (fs : List Frame) (s : Session)
    → ((buffer_all fs s).pending ≡ s.pending) × ((buffer_all fs s).inflight ≡ s.inflight)
unfolding buffer_all accept
buffer_all-wire [] s = (refl, refl)
buffer_all-wire (f ∷ fs) s = buffer_all-wire fs (accept f s)

buffer_all-Reaped : (fs : List Frame) (s : Session) → Reaped s → Reaped (buffer_all fs s)
buffer_all-Reaped fs s v =
    let b = buffer_all-Inv fs s (Reaped-Inv s v) in
    let (p, n) = buffer_all-wire fs s in
    let e = p ∙ v.none_pending in
    record {
      account = subst (λ q. Account q (buffer_all fs s)) e b.account;
      none_pending = e;
      none_inflight = n ∙ v.none_inflight;
    }

back_off-Reaped : (s : Session) → Reaped s → Reaped (back_off (gauge s))
unfolding gauge
back_off-Reaped s v = record {
  account = record {
    sorted = v.account.sorted;
    balanced = v.account.balanced;
    backoff_bounds = ground (arith, v.account.backoff_bounds);
  };
  none_pending = v.none_pending;
  none_inflight = v.none_inflight;
}

disconnected-Good : (l : Life) (s : Session) → Reaped s → Good (disconnected l s)
disconnected-Good l s v =
    let b = buffer_all-Reaped l.offline s v in
    elim (Bool-cases l.closed) [ inl e ↦ rw e b | inr e ↦ rw e (back_off-Reaped _ b) ]

reconnect-Good : (l : Life) (r : Status) → Good r → Good (reconnect l r)
reconnect-Good l (running s) g = g
reconnect-Good l (lost s) g = disconnected-Good l s g
reconnect-Good l (shutdown s) g = g
reconnect-Good l panics g = g

reset_backoff-Reaped : (s : Session) → Reaped s → Reaped (reset_backoff s)
reset_backoff-Reaped s v = record {
  account = record {
    sorted = v.account.sorted;
    balanced = v.account.balanced;
    backoff_bounds = omega arith;
  };
  none_pending = v.none_pending;
  none_inflight = v.none_inflight;
}

connect_and_serve-Good :
    (window : ℕ) (l : Life) (c : Connection) (s : Session)
    → Reaped s
    → Good (connect_and_serve window l c s)
connect_and_serve-Good window l unreached s v = v
connect_and_serve-Good window l broken s v = reset_backoff-Reaped s v
connect_and_serve-Good window l serving s v =
    publish_loop-Good window l.rounds _ (connected-Inv l.now s v)

live_once-Good : (window : ℕ) (l : Life) (s : Session) → Reaped s → Good (live_once window l s)
unfolding live_once
live_once-Good window l s v = reconnect-Good l _ (connect_and_serve-Good window l l.connects s v)

live_on-Good :
    (rest : Session → Status) (r : Status)
    → ((s : Session) → Reaped s → Good (rest s))
    → Good r
    → Good (live_on rest r)
live_on-Good rest (lost s) k g = k s g
live_on-Good rest (running s) k g = g
live_on-Good rest (shutdown s) k g = g
live_on-Good rest panics k g = g

run-Good : (window : ℕ) (ls : List Life) (s : Session) → Reaped s → Good (run window ls s)
unfolding run
run-Good window [] s v = v
run-Good window (l ∷ ls) s v =
    live_on-Good (run window ls) _ (run-Good window ls) (live_once-Good window l s v)

pub empty_buffers-Ascending : (first n : ℕ) → Ascending first (empty_buffers first n)
empty_buffers-Ascending first zero = tt
empty_buffers-Ascending first (suc n) = (
  omega arith,
  subst (λ k. Ascending k (empty_buffers (first + 1) n)) (omega arith)
      (empty_buffers-Ascending (first + 1) n),
)

pub empty_buffers-weigh :
    (w : Frame → ℕ) (first n : ℕ) → weigh_buffers w (empty_buffers first n) ≡ 0
empty_buffers-weigh w first zero = refl
empty_buffers-weigh w first (suc n) = omega (arith, empty_buffers-weigh w (first + 1) n)

start-Reaped : (pads buffer_cap : ℕ) → Reaped (start pads buffer_cap)
unfolding start new
start-Reaped pads buffer_cap = record {
  account = record {
    sorted = Ascending-lower 0 1 _ (empty_buffers-Ascending 1 pads) (omega arith);
    balanced = λ w. omega (arith, empty_buffers-weigh w 1 pads);
    backoff_bounds = omega arith;
  };
  none_pending = refl;
  none_inflight = refl;
}

-- From its start the uplink, through any number of lost connections, failed publishes, nacks, confirms
-- that never come, link faults, reordering, duplicates and shutdowns: neither `expect` on the confirm
-- queue panics; there are as many confirm futures as frames on the wire, and none of either once
-- `reap_all` ran; and, duplicates aside, the frames received are, as a bag, those in custody, those on
-- the wire, those that the broker confirmed and those that a full buffer gave up. (An injected
-- duplicate whose publish failed counts as received once more.) The backoff stays within 500 and
-- 10000 ms.
pub run_conserves :
    (window pads buffer_cap : ℕ) (ls : List Life) → Good (run window ls (start pads buffer_cap))
run_conserves window pads buffer_cap ls =
    run-Good window ls (start pads buffer_cap) (start-Reaped pads buffer_cap)
