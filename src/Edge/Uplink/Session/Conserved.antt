-- ===== src/Edge/Uplink/Session/Conserved.antt =====
-- The rounds of `publish_loop` of crates/coldbore-edge/src/uplink.rs: every frame that came in is
-- held, on the wire, confirmed, or given up by a full buffer.
use cold_bore.Base.{
  ℕ, ◌-◌, ◌≡◌, ◌≢◌, refl, ap, subst, ◌∙◌, inl, inr, Bool, true, false, ◌&&◌, List, [], ◌∷◌,
  Bool-cases, ltb, ◌==◌, if◌then◌else◌, length, weigh-append, arith,
}
use cold_bore.Proto.Float.{F64, lt64, f64_zero}
use cold_bore.Proto.Frame.{Frame}
use cold_bore.Edge.Uplink.{buffer_frame}
use cold_bore.Edge.Uplink.Custody.{buffer_frame-held, buffer_frame-IsSorted, buffer_frame_backoff}
use cold_bore.Edge.Uplink.Session.{
  Session, Confirm, ack, nack, failed, reap_all, Status, running, lost, shutdown, panics, Attempt,
  Event, reaped, received, channel_closed, drain_tick, probe_tick, inject, settle, settle_front,
  accept, probe, select, gauge, then_select, publish_round, confirm_stall_timeout,
}
use cold_bore.Edge.Uplink.Session.Books.{
  Account, Inv, Reaped, Good, requeue-Account, acked-Account, reap_all-Good,
}
use cold_bore.Edge.Uplink.Session.Pumping.{pump-Good}

inject-Inv : (e : Frame × Bool) (p draw : F64) (s : Session) → Inv s → Inv (inject e p draw s)
unfolding inject
inject-Inv (frame, true) p draw s v = v
inject-Inv (frame, false) p draw s v = elim (Bool-cases (lt64 f64_zero p && lt64 draw p)) [
  | inl h ↦ rw h (record {
    account = record {
      sorted = v.account.sorted;
      balanced = v.account.balanced;
      backoff_bounds = v.account.backoff_bounds;
    };
    paired = v.paired;
  })
  | inr h ↦ rw h v
]

settle-Good :
    (c : Confirm) (p draw : F64) (reaps : List Confirm) (e : Frame × Bool) (s : Session)
    → Account (e ∷ s.pending) s
    → s.inflight ≡ length s.pending
    → Good (settle c p draw reaps e s)
unfolding settle
settle-Good ack p draw reaps e s a n =
    inject-Inv e p draw _ (record { account = acked-Account e s.pending s _ a; paired = n })
settle-Good nack p draw reaps e s a n = record {
  account = requeue-Account e s.pending s _ a;
  paired = n;
}
settle-Good failed p draw reaps e s a n =
    reap_all-Good lost reaps s.pending _ (λ s' r. r) (requeue-Account e s.pending s s.counters a) n

settle_front-Good :
    (c : Confirm) (p draw : F64) (now : ℕ) (reaps : List Confirm) (queue : List (Frame × Bool))
    (s : Session)
    → s.pending ≡ queue
    → s.inflight ≢ 0
    → Inv s
    → Good (settle_front c p draw now reaps queue s)
settle_front-Good c p draw now reaps [] s e n v = n (v.paired ∙ ap length e)
settle_front-Good c p draw now reaps (x ∷ rest) s e n v =
    let a = subst (λ q. Account q s) e v.account in
    settle-Good c p draw reaps x _
      (record { sorted = a.sorted; balanced = a.balanced; backoff_bounds = a.backoff_bounds })
      (omega (arith, v.paired, ap length e))

pub accept-Inv : (frame : Frame) (s : Session) → Inv s → Inv (accept frame s)
unfolding accept
accept-Inv frame s v = record {
  account = record {
    sorted = buffer_frame-IsSorted s.st frame s.counters v.account.sorted;
    balanced = λ w. omega (
      arith,
      v.account.balanced w,
      buffer_frame-held w s.st frame s.counters v.account.sorted,
      weigh-append w (buffer_frame s.st frame s.counters).2 s.trace.dropped,
    );
    backoff_bounds = rw (buffer_frame_backoff s.st frame s.counters) v.account.backoff_bounds;
  };
  paired = v.paired;
}

teardown-Good :
    (ends : Session → Status) (reaps : List Confirm) (s : Session)
    → ((s' : Session) → Reaped s' → Good (ends s'))
    → Inv s
    → Good (reap_all ends reaps s.pending s)
teardown-Good ends reaps s k v = reap_all-Good ends reaps s.pending s k v.account v.paired

idle-Inv : (now : ℕ) (s : Session) → Inv s → Inv (record s { last_progress = now })
idle-Inv now s v = record {
  account = record {
    sorted = v.account.sorted;
    balanced = v.account.balanced;
    backoff_bounds = v.account.backoff_bounds;
  };
  paired = v.paired;
}

alive-Good :
    (alive : Bool) (reaps : List Confirm) (s : Session)
    → Inv s
    → Good (if alive then running s else reap_all lost reaps s.pending s)
alive-Good true reaps s v = v
alive-Good false reaps s v = teardown-Good lost reaps s (λ s' r. r) v

probe-Good :
    (now : ℕ) (alive : Bool) (reaps : List Confirm) (s : Session)
    → Inv s
    → Good (probe now alive reaps s)
unfolding probe
probe-Good now alive reaps s v = elim (Bool-cases (s.inflight == 0)) [
  | inl h ↦ rw h (alive-Good alive reaps _ (idle-Inv now s v))
  | inr h ↦ rw h (elim (Bool-cases (ltb confirm_stall_timeout (now - s.last_progress))) [
    | inl e ↦ rw e (teardown-Good lost reaps s (λ s' r. r) v)
    | inr e ↦ rw e (alive-Good alive reaps s v)
  ])
]

pub select-Good : (e : Event) (reaps : List Confirm) (s : Session) → Inv s → Good (select e reaps s)
unfolding select
select-Good (reaped c p draw now) reaps s v = elim (Bool-cases (s.inflight == 0)) [
  | inl h ↦ rw h v
  | inr h ↦ rw h (settle_front-Good c p draw now reaps s.pending s refl (ground arith) v)
]
select-Good (received frame) reaps s v = accept-Inv frame s v
select-Good channel_closed reaps s v = teardown-Good shutdown reaps s (λ s' r. r) v
select-Good drain_tick reaps s v = v
select-Good (probe_tick now alive) reaps s v = probe-Good now alive reaps s v

then_select-Good :
    (e : Event) (reaps : List Confirm) (r : Status) → Good r → Good (then_select e reaps r)
unfolding gauge
then_select-Good e reaps (running s) g = select-Good e reaps _ (record {
  account = record {
    sorted = g.account.sorted;
    balanced = g.account.balanced;
    backoff_bounds = g.account.backoff_bounds;
  };
  paired = g.paired;
})
then_select-Good e reaps (lost s) g = g
then_select-Good e reaps (shutdown s) g = g
then_select-Good e reaps panics g = g

pub publish_round-Good :
    (window : ℕ) (attempts : ℕ → Attempt) (e : Event) (reaps : List Confirm) (s : Session)
    → Inv s
    → Good (publish_round window attempts e reaps s)
unfolding publish_round
publish_round-Good window attempts e reaps s v =
    then_select-Good e reaps _ (pump-Good (window - s.inflight) attempts reaps s v)
