-- ===== src/Edge/UplinkStream.antt =====
-- crates/coldbore-edge/src/uplink_stream.rs: the stream publisher. The environment chooses as for the
-- classic uplink, and the order in which the HashMap `inflight` is walked. `trace` is not in the
-- program: it records what became of each frame.
pub mod Select
pub mod Run
pub mod Books
pub mod Staging
pub mod Reclaim
pub mod Conserved
pub mod Supervisor
pub mod Dedup
pub mod Pumped
mod Tests
use cold_bore.Base.{
  ℕ, zero, suc, ◌+◌, ◌-◌, ◌*◌, Bool, true, false, ◌&&◌, not, List, [], ◌∷◌, ◌++◌, map, Option, none,
  some, ltb, leb, ◌==◌, if◌then◌else◌, length, add64,
}
use cold_bore.Base.Map.{lookup, remove}
use cold_bore.Proto.Float.{F64, f64_zero, lt64}
use cold_bore.Proto.Frame.{Frame}
use cold_bore.Edge.Counters.{Counters}
use cold_bore.Edge.Counters.{zeros}
use cold_bore.Edge.Uplink.{
  UplinkState, Reads, new, next_publishable, buffer_frame, buffered, initial_backoff, max_backoff,
}

abbrev pub publish_batch : ℕ
publish_batch = 128

abbrev pub confirm_timeout : ℕ
confirm_timeout = 10000

abbrev pub confirm_stall_timeout : ℕ
confirm_stall_timeout = 30000

-- `retry_ids` is a stack: the list's head is what `pop` takes.
pub record StreamCustody : Type 0 where
  pub next_id : ℕ
  pub retry_ids : List (Frame × ℕ)

-- The frame, is it an injected duplicate, and when it was sent.
abbrev pub Sent : Type 0
Sent = Frame × Bool × ℕ

pub record Trace : Type 0 where
  pub received : List Frame
  pub acked : List (Frame × Bool)
  pub dropped : List Frame
  -- How many publishing ids were given out.
  pub given : ℕ

pub record Session : Type 0 where
  pub st : UplinkState
  pub counters : Counters
  pub custody : StreamCustody
  pub inflight : List (ℕ × Sent)
  pub last_confirm : ℕ
  pub trace : Trace

-- `inflight.insert(id, ..)`
abbrev pub send_off : ℕ → Sent → List (ℕ × Sent) → List (ℕ × Sent)
send_off id entry m = (id, entry) ∷ remove id m

abbrev pub push_retry : Frame → Bool → ℕ → StreamCustody → StreamCustody
push_retry frame true id c = c
push_retry frame false id c = record c { retry_ids = (frame, id) ∷ c.retry_ids }

-- A batch that is being put together: the ids and frames of its messages, in order, are also what is
-- staged.
abbrev pub Staged : Type 0
Staged = List (ℕ × Frame) × Session

-- `retry_ids.pop()`, and what is done with it.
abbrev pub pop_retry : List (Frame × ℕ) → (Frame × ℕ → List (Frame × ℕ) → Staged) → Staged → Staged
pop_retry [] take done = done
pop_retry (r ∷ rest) take done = take r rest

-- Retransmits first, under their ids.
unfoldable pub stage_retries : ℕ → ℕ → List (ℕ × Frame) → Session → Staged
stage_retries zero now messages s = (messages, s)
stage_retries (suc room) now messages s =
    pop_retry s.custody.retry_ids
      (λ r rest. stage_retries room now (messages ++ (r.1, r.0) ∷ []) (record s {
        custody = record s.custody { retry_ids = rest };
        inflight = send_off r.1 (r.0, false, now) s.inflight;
      }))
      (messages, s)

abbrev pub handed_out : Option (Frame × Bool) → (Frame → Bool → Staged) → Staged → Staged
handed_out none take done = done
handed_out (some (frame, is_dup)) take done = take frame is_dup

-- Then what the custody hands out, under new ids.
unfoldable pub stage_fresh : ℕ → (ℕ → Reads) → ℕ → List (ℕ × Frame) → Session → Staged
stage_fresh zero reads now messages s = (messages, s)
stage_fresh (suc room) reads now messages s =
    let (entry, st) = next_publishable (reads room) s.st in
    handed_out entry
      (λ frame is_dup.
        stage_fresh room reads now (messages ++ (s.custody.next_id, frame) ∷ []) (record s {
          st = st;
          custody = record s.custody { next_id = add64 s.custody.next_id 1 };
          trace = record s.trace { given = suc s.trace.given };
          inflight = send_off s.custody.next_id (frame, is_dup, now) s.inflight;
        }))
      (messages, record s { st = st })

-- `if let Some((frame, is_dup, _)) = inflight.remove(&id)`, the frame going back for a retransmit
-- unless it is a duplicate; the sweep counts it.
unfoldable pub reclaim_entry : Bool → ℕ → Option Sent → Session → Session
reclaim_entry counted id none s = s
reclaim_entry counted id (some (frame, is_dup, sent_at)) s = record s {
  counters =
      if counted
      then record s.counters { retransmits = add64 s.counters.retransmits 1 }
      else s.counters;
  custody = push_retry frame is_dup id s.custody;
  inflight = remove id s.inflight;
}

unfoldable pub reclaim : Bool → List ℕ → Session → Session
unfolding reclaim_entry
reclaim counted [] s = s
reclaim counted (id ∷ ids) s =
    reclaim counted ids (reclaim_entry counted id (lookup id s.inflight) s)

abbrev pub keys : List (ℕ × Sent) → List ℕ
keys [] = []
keys ((id, _) ∷ m) = id ∷ keys m

-- `drain_inflight_to_retry`, in the order in which the map yields its entries.
unfoldable pub drain_inflight_to_retry : List ℕ → Session → Session
drain_inflight_to_retry order s =
    let s' = reclaim false order s in reclaim false (keys s'.inflight) s'

pub data Status : Type 0 where
  running : Session → Status
  lost : Session → Status
  shutdown : Session → Status

-- One turn of the pump: what is read, when, whether `batch_send` succeeds in time, and the map's order.
pub record Attempt : Type 0 where
  pub reads : ℕ → Reads
  pub now : ℕ
  pub sends : Bool
  pub order : List ℕ

abbrev pub ids_of : List (ℕ × Frame) → List ℕ
ids_of [] = []
ids_of ((id, _) ∷ messages) = id ∷ ids_of messages

abbrev pub smaller : ℕ → ℕ → ℕ
smaller a b = if leb a b then a else b

unfoldable pub stage_batch : ℕ → Attempt → Session → Staged
unfolding stage_retries stage_fresh
stage_batch window a s =
    let room = smaller (window - length s.inflight) publish_batch in
    let (retried, s') = stage_retries room a.now [] s in
    stage_fresh (room - length retried) a.reads a.now retried s'

-- The publish failed wholesale.
unfoldable pub send_failed : List ℕ → List (ℕ × Frame) → Session → Status
unfolding reclaim drain_inflight_to_retry
send_failed order messages s =
    lost (drain_inflight_to_retry order (reclaim false (ids_of messages) s))

unfoldable pub send_done : List (ℕ × Frame) → Session → Session
send_done messages s = record s {
  counters = record s.counters { published = add64 s.counters.published (length messages) };
}

-- The pump: batches up to the confirm window, for as many turns as are given.
unfoldable pub pump : ℕ → ℕ → (ℕ → Attempt) → Session → Status
unfolding stage_batch send_failed send_done
pump zero window attempts s = running s
pump (suc fuel) window attempts s =
    let a = attempts fuel in
    let (messages, s') = stage_batch window a s in
    let go_on = pump fuel window attempts (send_done messages s') in
    if leb window (length s.inflight)
    then running s
    else if length messages == 0
    then running s'
    else if a.sends
    then go_on
    else send_failed a.order messages s'
