-- ===== src/Edge/UplinkStream/Conserved.antt =====
-- `publish_loop` of crates/coldbore-edge/src/uplink_stream.rs: every frame that came in is held, waits
-- for a retransmit, is in flight, confirmed, or given up by a full buffer.
use cold_bore.Base.{
  ℕ, zero, suc, ◌+◌, ◌-◌, ◌≡◌, refl, sym, ap, ◌∙◌, inl, inr, Bool, true, false, ◌&&◌, not, List, [],
  ◌∷◌, ◌++◌, Option, none, some, Bool-cases, ltb, leb, ◌==◌, if◌then◌else◌, length, weigh,
  weigh-append, arith,
}
use cold_bore.Base.Map.{lookup, remove}
use cold_bore.Proto.Float.{F64, f64_zero, lt64}
use cold_bore.Proto.Frame.{Frame}
use cold_bore.Edge.Counters.{Counters}
use cold_bore.Edge.Uplink.{buffer_frame}
use cold_bore.Edge.Uplink.Custody.{buffer_frame-held, buffer_frame-IsSorted}
use cold_bore.Edge.UplinkStream.{
  Sent, Session, stage_retries, reclaim, Status, running, lost, shutdown, Attempt, stage_batch,
  send_failed, send_done, pump, confirm_stall_timeout, ids_of,
}
use cold_bore.Edge.UplinkStream.Select.{
  Event, confirmed, received, channel_closed, sweep_tick, drain_tick, inject, settle, accept, sweep,
  select, gauge, then_select, publish_round,
}
use cold_bore.Edge.UplinkStream.Books.{on_wire, is_id, Inv, entry, weigh-remove}
use cold_bore.Edge.UplinkStream.Staging.{stage_retries-Inv, stage_fresh-Inv}
use cold_bore.Edge.UplinkStream.Reclaim.{reclaim_entry-Inv, reclaim-Inv, Drained, drain-Drained}

abbrev pub Good : Status → Type 0
Good (running s) = Inv s
Good (lost s) = Drained s
Good (shutdown s) = Drained s

-- What the books do not depend on.
pub other-Inv :
    (c : Counters) (dups : List Frame) (backoff now : ℕ) (s : Session)
    → Inv s
    → Inv (record s {
      counters = c;
      st = record s.st { dup_queue = dups; backoff = backoff };
      last_confirm = now;
    })
other-Inv c dups backoff now s h small =
    let b = h small in
    record {
      sorted = b.sorted;
      balanced = b.balanced;
      unique = b.unique;
      below = b.below;
      numbered = b.numbered;
    }

pub send_done-Inv : (messages : List (ℕ × Frame)) (s : Session) → Inv s → Inv (send_done messages s)
unfolding send_done
send_done-Inv messages s h = other-Inv _ s.st.dup_queue s.st.backoff s.last_confirm s h

pub stage_batch-Inv :
    (window : ℕ) (a : Attempt) (s : Session) → Inv s → Inv (stage_batch window a s).1
unfolding stage_batch
stage_batch-Inv window a s h =
    let (retried, s') = stage_retries _ a.now [] s in
    stage_fresh-Inv _ a.reads a.now retried s' (stage_retries-Inv _ a.now [] s h)

pump-Good :
    (fuel window : ℕ) (attempts : ℕ → Attempt) (s : Session)
    → Inv s
    → Good (pump fuel window attempts s)
unfolding pump send_failed
pump-Good zero window attempts s h = h
pump-Good (suc fuel) window attempts s h =
    let a = attempts fuel in
    let (messages, s') = stage_batch window a s in
    let staged : Inv s' = stage_batch-Inv window a s h in
    elim (Bool-cases (leb window (length s.inflight))) [
      | inl e ↦ rw e h
      | inr e ↦ rw e (elim (Bool-cases (length messages == 0)) [
        | inl e' ↦ rw e' staged
        | inr e' ↦ rw e' (elim (Bool-cases a.sends) [
          | inl e'' ↦ rw e'' (
              pump-Good fuel window attempts (send_done messages s')
                (send_done-Inv messages s' staged))
          | inr e'' ↦ rw e'' (
              drain-Drained a.order (reclaim false (ids_of messages) s')
                (reclaim-Inv false (ids_of messages) s' staged))
        ])
      ])
    ]

touched-Inv : (now : ℕ) (s : Session) → Inv s → Inv (record s { last_confirm = now })
touched-Inv now s h = other-Inv s.counters s.st.dup_queue s.st.backoff now s h

gauge-Inv : (s : Session) → Inv s → Inv (gauge s)
unfolding gauge
gauge-Inv s h = other-Inv _ s.st.dup_queue s.st.backoff s.last_confirm s h

pub accept-Inv : (frame : Frame) (s : Session) → Inv s → Inv (accept frame s)
unfolding accept
accept-Inv frame s h small =
    let b = h small in
    record {
      sorted = buffer_frame-IsSorted s.st frame s.counters b.sorted;
      balanced = λ w. omega (
        arith,
        b.balanced w,
        buffer_frame-held w s.st frame s.counters b.sorted,
        weigh-append w (buffer_frame s.st frame s.counters).2 s.trace.dropped,
      );
      unique = b.unique;
      below = b.below;
      numbered = b.numbered;
    }

inject-Inv :
    (frame : Frame) (is_dup : Bool) (p draw : F64) (s : Session)
    → Inv s
    → Inv (inject frame is_dup p draw s)
inject-Inv frame true p draw s h = h
inject-Inv frame false p draw s h = elim (Bool-cases (lt64 f64_zero p && lt64 draw p)) [
  | inl e ↦ rw e (other-Inv _ (s.st.dup_queue ++ frame ∷ []) s.st.backoff s.last_confirm s h)
  | inr e ↦ rw e h
]

settle-Inv :
    (id : ℕ) (ok : Bool) (p draw : F64) (found : Option Sent) (s : Session)
    → lookup id s.inflight ≡ found
    → Inv s
    → Inv (settle id ok p draw found s)
unfolding settle
settle-Inv id ok p draw none s e h = h
settle-Inv id false p draw (some v) s e h = reclaim_entry-Inv true id (some v) s e h
settle-Inv id true p draw (some (frame, is_dup, at)) s e h =
    inject-Inv frame is_dup p draw _ (λ small.
      let b = h small in
      let less : (w : ℕ × Sent → ℕ)
          → weigh w (remove id s.inflight) + w (id, (frame, is_dup, at)) ≡ weigh w s.inflight =
        λ w.
          ap (λ x. weigh w (remove id s.inflight) + entry w id x) (sym e)
          ∙ weigh-remove w id s.inflight in
      record {
        sorted = b.sorted;
        balanced = λ w. omega (arith, b.balanced w, less (on_wire w));
        unique = λ k. omega (arith, b.unique k, less (λ x. is_id k x.0));
        below = λ k up. omega (arith, b.below k up, less (λ x. is_id k x.0));
        numbered = b.numbered;
      })

sweep-Good :
    (now : ℕ) (alive : Bool) (order : List ℕ) (s : Session) → Inv s → Good (sweep now alive order s)
unfolding sweep
sweep-Good now alive order s h =
    let idle = (length s.inflight == 0) && (length s.custody.retry_ids == 0) in
    let kept = if idle then record s { last_confirm = now } else s in
    let kept_books : Inv kept = elim (Bool-cases idle) [
      | inl e ↦ rw e (touched-Inv now s h)
      | inr e ↦ rw e h
    ] in
    elim (Bool-cases (not idle && ltb confirm_stall_timeout (now - s.last_confirm))) [
      | inl e ↦ rw e (drain-Drained order s h)
      | inr e ↦ rw e (elim (Bool-cases (not alive)) [
        | inl e' ↦ rw e' (drain-Drained order kept kept_books)
        | inr e' ↦ rw e' (reclaim-Inv true _ kept kept_books)
      ])
    ]

select-Good : (event : Event) (order : List ℕ) (s : Session) → Inv s → Good (select event order s)
unfolding select
select-Good (confirmed id ok now p draw) order s h =
    settle-Inv id ok p draw (lookup id s.inflight) (record s { last_confirm = now }) refl
      (touched-Inv now s h)
select-Good (received frame) order s h = accept-Inv frame s h
select-Good channel_closed order s h = drain-Drained order s h
select-Good (sweep_tick now alive) order s h = sweep-Good now alive order s h
select-Good drain_tick order s h = h

then_select-Good :
    (event : Event) (order : List ℕ) (r : Status) → Good r → Good (then_select event order r)
then_select-Good event order (running s) g = select-Good event order (gauge s) (gauge-Inv s g)
then_select-Good event order (lost s) g = g
then_select-Good event order (shutdown s) g = g

pub publish_round-Good :
    (window : ℕ) (attempts : ℕ → Attempt) (event : Event) (order : List ℕ) (s : Session)
    → Inv s
    → Good (publish_round window attempts event order s)
unfolding publish_round
publish_round-Good window attempts event order s h =
    then_select-Good event order _ (pump-Good window window attempts s h)
