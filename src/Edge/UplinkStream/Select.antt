-- ===== src/Edge/UplinkStream/Select.antt =====
-- The branches of `select!` in crates/coldbore-edge/src/uplink_stream.rs, and one round of `publish_loop`.
use cold_bore.Base.{
  ℕ, ◌-◌, Bool, true, false, ◌&&◌, not, List, [], ◌∷◌, ◌++◌, Option, none, some, ltb, ◌==◌,
  if◌then◌else◌, length, add64,
}
use cold_bore.Base.Map.{lookup, remove}
use cold_bore.Proto.Float.{F64, f64_zero, lt64}
use cold_bore.Proto.Frame.{Frame}
use cold_bore.Edge.Uplink.{buffer_frame, buffered}
use cold_bore.Edge.UplinkStream.{
  Attempt, Sent, Session, Status, confirm_stall_timeout, confirm_timeout, drain_inflight_to_retry,
  keys, lost, pump, reclaim, reclaim_entry, running, shutdown,
}

pub data Event : Type 0 where
  -- The id, is it confirmed, the time, and the duplicate rate and the number drawn.
  confirmed : ℕ → Bool → ℕ → F64 → F64 → Event
  received : Frame → Event
  channel_closed : Event
  -- The time, is the AMQP side alive, and the map's order.
  sweep_tick : ℕ → Bool → Event
  drain_tick : Event

abbrev pub inject : Frame → Bool → F64 → F64 → Session → Session
inject frame true p draw s = s
inject frame false p draw s =
    if lt64 f64_zero p && lt64 draw p
    then record s {
      counters = record s.counters { dup_injected = add64 s.counters.dup_injected 1 };
      st = record s.st { dup_queue = s.st.dup_queue ++ frame ∷ [] };
    }
    else s

-- A confirmation of an id that is in flight; any other is ignored.
unfoldable pub settle : ℕ → Bool → F64 → F64 → Option Sent → Session → Session
unfolding reclaim_entry
settle id ok p draw none s = s
settle id true p draw (some (frame, is_dup, sent_at)) s = inject frame is_dup p draw (record s {
  counters = record s.counters { confirmed = add64 s.counters.confirmed 1 };
  inflight = remove id s.inflight;
  trace = record s.trace { acked = (frame, is_dup) ∷ s.trace.acked };
})
settle id false p draw (some entry) s = reclaim_entry true id (some entry) s

unfoldable pub accept : Frame → Session → Session
accept frame s =
    let (st, c, gone) = buffer_frame s.st frame s.counters in
    record s {
      st = st;
      counters = c;
      trace = record s.trace {
        received = frame ∷ s.trace.received;
        dropped = gone ++ s.trace.dropped;
      };
    }

-- The ids whose confirmation is presumed lost, in the map's order.
abbrev pub stale_entry : ℕ → ℕ → Option Sent → List ℕ → List ℕ
stale_entry now id none ids = ids
stale_entry now id (some (frame, is_dup, sent_at)) ids =
    if ltb confirm_timeout (now - sent_at) then id ∷ ids else ids

unfoldable pub stale : ℕ → List (ℕ × Sent) → List ℕ → List ℕ
stale now m [] = []
stale now m (id ∷ ids) = stale_entry now id (lookup id m) (stale now m ids)

unfoldable pub sweep : ℕ → Bool → List ℕ → Session → Status
unfolding stale
sweep now alive order s =
    let idle = (length s.inflight == 0) && (length s.custody.retry_ids == 0) in
    let kept = if idle then record s { last_confirm = now } else s in
    if not idle && ltb confirm_stall_timeout (now - s.last_confirm)
    then lost (drain_inflight_to_retry order s)
    else if not alive
    then lost (drain_inflight_to_retry order kept)
    else running (reclaim true (stale now kept.inflight (order ++ keys kept.inflight)) kept)

-- The branch of the biased `select!` that is taken.
unfoldable pub select : Event → List ℕ → Session → Status
unfolding settle accept sweep
select (confirmed id ok now p draw) order s =
    running (settle id ok p draw (lookup id s.inflight) (record s { last_confirm = now }))
select (received frame) order s = running (accept frame s)
select channel_closed order s = shutdown (drain_inflight_to_retry order s)
select (sweep_tick now alive) order s = sweep now alive order s
select drain_tick order s = running s

unfoldable pub gauge : Session → Session
gauge s = record s {
  counters = record s.counters { buffered = add64 (buffered s.st) (length s.custody.retry_ids) };
}

abbrev pub then_select : Event → List ℕ → Status → Status
then_select event order (running s) = select event order (gauge s)
then_select event order (lost s) = lost s
then_select event order (shutdown s) = shutdown s

-- One round of `publish_loop`.
unfoldable pub publish_round : ℕ → (ℕ → Attempt) → Event → List ℕ → Session → Status
publish_round window attempts event order s =
    then_select event order (pump window window attempts s)
