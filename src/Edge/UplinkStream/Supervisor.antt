-- ===== src/Edge/UplinkStream/Supervisor.antt =====
-- The supervisor `run` of crates/coldbore-edge/src/uplink_stream.rs.
use cold_bore.Base.{◌≡◌, ◌<◌, u64_mod, ℕ, refl, subst, List, [], ◌∷◌, Bool-cases, inl, inr, arith}
use cold_bore.Base.Map.{Ascending-lower}
use cold_bore.Proto.Frame.{Frame}
use cold_bore.Edge.Uplink.{new, initial_backoff}
use cold_bore.Edge.Uplink.Session.Supervisor.{empty_buffers-Ascending, empty_buffers-weigh}
use cold_bore.Edge.UplinkStream.{Session, Status, running, lost, shutdown}
use cold_bore.Edge.UplinkStream.Select.{accept}
use cold_bore.Edge.UplinkStream.Run.{
  at_end, Round, continue, publish_loop, connected, buffer_all, back_off, Life, disconnected,
  reconnect, live_once, live_on, run, start,
}
use cold_bore.Edge.UplinkStream.Books.{Inv, Books}
use cold_bore.Edge.UplinkStream.Reclaim.{Drained}
use cold_bore.Edge.UplinkStream.Conserved.{Good, other-Inv, accept-Inv, publish_round-Good}

continue-Good :
    (rest : Session → Status) (r : Status)
    → ((s : Session) → Inv s → Good (rest s))
    → Good r
    → Good (continue rest r)
continue-Good rest (running s) k g = k s g
continue-Good rest (lost s) k g = g
continue-Good rest (shutdown s) k g = g

publish_loop-Good :
    (window : ℕ) (rs : List Round) (s : Session) → Inv s → Good (publish_loop window rs s)
unfolding publish_loop
publish_loop-Good window [] s h = h
publish_loop-Good window (r ∷ rs) s h =
    continue-Good (publish_loop window rs) _ (publish_loop-Good window rs)
      (publish_round-Good window r.attempts r.event r.order s h)

-- The map of the session that died was empty when it was dropped.
connected-Inv : (now : ℕ) (s : Session) → Drained s → Inv (connected now s)
connected-Inv now s d =
    subst (λ m. Inv (record (connected now s) { inflight = m })) d.none_inflight
      (other-Inv s.counters s.st.dup_queue initial_backoff now s d.inv)

buffer_all-Drained : (fs : List Frame) (s : Session) → Drained s → Drained (buffer_all fs s)
unfolding buffer_all accept
buffer_all-Drained [] s d = d
buffer_all-Drained (f ∷ fs) s d =
    buffer_all-Drained fs (accept f s)
      record { inv = accept-Inv f s d.inv; none_inflight = d.none_inflight }

back_off-Drained : (s : Session) → Drained s → Drained (back_off s)
back_off-Drained s d = record {
  inv =
      other-Inv (back_off s).counters s.st.dup_queue (back_off s).st.backoff s.last_confirm s d.inv;
  none_inflight = d.none_inflight;
}

disconnected-Good : (l : Life) (s : Session) → Drained s → Good (disconnected l s)
disconnected-Good l s d =
    let b = buffer_all-Drained l.offline s d in
    elim (Bool-cases l.closed) [ inl e ↦ rw e b | inr e ↦ rw e (back_off-Drained _ b) ]

reconnect-Good : (l : Life) (r : Status) → Good r → Good (reconnect l r)
reconnect-Good l (running s) g = g
reconnect-Good l (lost s) g = disconnected-Good l s g
reconnect-Good l (shutdown s) g = g

live_once-Good : (window : ℕ) (l : Life) (s : Session) → Drained s → Good (live_once window l s)
unfolding live_once
live_once-Good window l s d = elim (Bool-cases l.connects) [
  | inl e ↦
      rw e (reconnect-Good l _ (publish_loop-Good window l.rounds _ (connected-Inv l.now s d)))
  | inr e ↦ rw e (disconnected-Good l s d)
]

live_on-Good :
    (rest : Session → Status) (r : Status)
    → ((s : Session) → Drained s → Good (rest s))
    → Good r
    → Good (live_on rest r)
live_on-Good rest (lost s) k g = k s g
live_on-Good rest (running s) k g = g
live_on-Good rest (shutdown s) k g = g

run-Good : (window : ℕ) (ls : List Life) (s : Session) → Drained s → Good (run window ls s)
unfolding run
run-Good window [] s d = d
run-Good window (l ∷ ls) s d =
    live_on-Good (run window ls) _ (run-Good window ls) (live_once-Good window l s d)

start-Drained : (pads buffer_cap : ℕ) → Drained (start pads buffer_cap)
unfolding start new
start-Drained pads buffer_cap = record {
  inv = λ small. record {
    sorted = Ascending-lower 0 1 _ (empty_buffers-Ascending 1 pads) (omega arith);
    balanced = λ w. omega (arith, empty_buffers-weigh w 1 pads);
    unique = λ k. omega arith;
    below = λ k up. omega arith;
    numbered = refl;
  };
  none_inflight = refl;
}

-- The books balance, and a session that has ended has nothing in flight.
abbrev pub Sound : Status → Type 0
Sound (running s) = Books s
Sound (lost s) = Books s × (s.inflight ≡ [])
Sound (shutdown s) = Books s × (s.inflight ≡ [])

Good-Sound : (r : Status) → Good r → (at_end r).trace.given < u64_mod → Sound r
Good-Sound (running s) g small = g small
Good-Sound (lost s) g small = (g.inv small, g.none_inflight)
Good-Sound (shutdown s) g small = (g.inv small, g.none_inflight)

-- From its start the stream uplink, through any number of lost connections, failed batches, negative,
-- late and missing confirmations, sweeps and shutdowns, if fewer than 2^64 publishing ids were given
-- out: duplicates aside, the frames received are, as a bag, those in custody, those waiting for a
-- retransmit, those in flight, those confirmed and those that a full buffer gave up; no publishing id
-- stands for two frames that are in flight or wait for a retransmit; and nothing is in flight once a
-- session has ended.
pub stream_run_conserves :
    (window pads buffer_cap : ℕ) (ls : List Life)
    → (at_end (run window ls (start pads buffer_cap))).trace.given < u64_mod
    → Sound (run window ls (start pads buffer_cap))
stream_run_conserves window pads buffer_cap ls =
    Good-Sound (run window ls (start pads buffer_cap))
      (run-Good window ls (start pads buffer_cap) (start-Drained pads buffer_cap))
