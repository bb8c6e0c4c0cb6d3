-- ===== src/Edge/Uplink/Session.antt =====
-- crates/coldbore-edge/src/uplink.rs: `publish_loop`, `reap_all` and the supervisor `run`. What the
-- broker answers, which branch of `select!` is ready and what the clocks say is the environment's
-- choice: one `Turn` for each round of a loop. `trace` is not in the program; it records what
-- became of each frame.
pub mod Conserved
pub mod Pumping
pub mod Books
pub mod Supervisor
pub mod Run
use cold_bore.Base.{
  ℕ, zero, suc, ◌+◌, ◌-◌, ◌*◌, ◌≤◌, Bool, true, false, ◌&&◌, ◌||◌, not, List, [], ◌∷◌, ◌++◌, Option,
  none, some, ltb, leb, ◌==◌, if◌then◌else◌, length, add64,
}
use cold_bore.Proto.Float.{F64, f64_zero, lt64}
use cold_bore.Proto.Frame.{Frame}
use cold_bore.Edge.Counters.{Counters}
use cold_bore.Edge.Uplink.{
  UplinkState, Reads, next_publishable, buffer_frame, buffered, initial_backoff, max_backoff,
}

-- What became of the frames so far.
pub record Trace : Type 0 where
  pub received : List Frame
  -- Confirmed by the broker, and was it an injected duplicate?
  pub acked : List (Frame × Bool)
  -- Given up by a full pad buffer.
  pub dropped : List Frame
  -- Injected duplicates whose publish failed: they stand in the retry queue like frames.
  pub promoted : List Frame

-- `inflight` is the number of confirm futures; they yield in the order of `pending`.
pub record Session : Type 0 where
  pub st : UplinkState
  pub counters : Counters
  pub pending : List (Frame × Bool)
  pub inflight : ℕ
  pub last_progress : ℕ
  pub trace : Trace

-- How a confirm future resolves: an ack, any other confirmation, or an error.
pub data Confirm : Type 0 where
  ack nack failed : Confirm

-- `if !is_dup { retry.push_back(frame); }`
unfoldable pub requeue : Frame × Bool → UplinkState → UplinkState
requeue (frame, false) st = record st { retry = st.retry ++ frame ∷ [] }
requeue (frame, true) st = st

unfoldable pub count_confirmed : Counters → Counters
count_confirmed c = record c { confirmed = add64 c.confirmed 1 }

pub count_retransmit : Counters → Counters
count_retransmit c = record c { retransmits = add64 c.retransmits 1 }

unfoldable pub note_ack : Frame × Bool → Trace → Trace
note_ack entry t = record t { acked = entry ∷ t.acked }

-- One confirm that still resolves while `reap_all` waits.
pub reap_one : Confirm → Frame × Bool → Session → Session
reap_one ack entry s = record s {
  counters = count_confirmed s.counters;
  trace = note_ack entry s.trace;
}
reap_one nack entry s = record s { counters = count_retransmit s.counters; st = requeue entry s.st }
reap_one failed entry s = record s {
  counters = count_retransmit s.counters;
  st = requeue entry s.st;
}

-- The confirms that never came.
unfoldable pub reap_rest : List (Frame × Bool) → Session → Session
reap_rest [] s = record s { pending = []; inflight = 0 }
reap_rest (entry ∷ rest) s =
    reap_rest rest (record s { counters = count_retransmit s.counters; st = requeue entry s.st })

-- How a session stands after a step; `panics` is an `expect` on an
-- empty `pending`.
pub data Status : Type 0 where
  running : Session → Status
  -- The connection is lost: the supervisor backs off and reconnects.
  lost : Session → Status
  -- The generator is gone: `run` returns.
  shutdown : Session → Status
  panics : Status

-- `reap_all`: the confirms that resolve before the deadline, in order, while a future is left; then the
-- rest. What follows is how the session ends.
unfoldable pub reap_all : (Session → Status) → List Confirm → List (Frame × Bool) → Session → Status
reap_all ends [] pending s = ends (reap_rest pending s)
reap_all ends (c ∷ cs) [] s = if s.inflight == 0 then ends (reap_rest [] s) else panics
reap_all ends (c ∷ cs) (entry ∷ rest) s =
    let next = reap_all ends cs rest (reap_one c entry (record s { inflight = s.inflight - 1 })) in
    if s.inflight == 0 then ends (reap_rest (entry ∷ rest) s) else next

-- `start_publish` within its time bound.
pub data Publish : Type 0 where
  sent error timed_out : Publish

pub record Attempt : Type 0 where
  pub reads : Reads
  pub result : Publish

abbrev pub note_promoted : Frame × Bool → Trace → Trace
note_promoted (frame, true) t = record t { promoted = frame ∷ t.promoted }
note_promoted (frame, false) t = t

-- The publish failed: the frame goes to the front of the line, and the session ends.
pub publish_failed : List Confirm → Frame × Bool → Session → Status
publish_failed reaps (frame, is_dup) s =
    let back = record s {
      st = record s.st { retry = frame ∷ s.st.retry };
      trace = note_promoted (frame, is_dup) s.trace;
    } in
    reap_all lost reaps back.pending back

unfoldable pub publish_sent : Frame × Bool → Session → Session
publish_sent entry s = record s {
  counters = record s.counters { published = add64 s.counters.published 1 };
  pending = s.pending ++ entry ∷ [];
  inflight = s.inflight + 1;
}

abbrev pub published : Publish → List Confirm → Frame × Bool → Session → (Session → Status) → Status
published sent reaps entry s go_on = go_on (publish_sent entry s)
published error reaps entry s go_on = publish_failed reaps entry s
published timed_out reaps entry s go_on = publish_failed reaps entry s

abbrev pub offered :
    Publish → List Confirm → Option (Frame × Bool) → Session → (Session → Status) → Status
offered result reaps none s go_on = running s
offered result reaps (some entry) s go_on = published result reaps entry s go_on

-- The pump: with `room` left in the confirm window.
unfoldable pub pump : ℕ → (ℕ → Attempt) → List Confirm → Session → Status
pump zero attempts reaps s = running s
pump (suc room) attempts reaps s =
    let a = attempts room in
    let (entry, st) = next_publishable a.reads s.st in
    offered a.result reaps entry (record s { st = st }) (pump room attempts reaps)

-- The branch of `select!` that is taken.
pub data Event : Type 0 where
  -- A confirm, the duplicate rate read and the number drawn if it is an ack, and the time.
  reaped : Confirm → F64 → F64 → ℕ → Event
  received : Frame → Event
  channel_closed : Event
  drain_tick : Event
  -- The time, and did the liveness probe succeed?
  probe_tick : ℕ → Bool → Event

abbrev pub confirm_stall_timeout : ℕ
confirm_stall_timeout = 15000

unfoldable pub inject : Frame × Bool → F64 → F64 → Session → Session
inject (frame, true) p draw s = s
inject (frame, false) p draw s =
    if lt64 f64_zero p && lt64 draw p
    then record s {
      counters = record s.counters { dup_injected = add64 s.counters.dup_injected 1 };
      st = record s.st { dup_queue = s.st.dup_queue ++ frame ∷ [] };
    }
    else s

-- The confirm of the front of `pending`.
unfoldable pub settle : Confirm → F64 → F64 → List Confirm → Frame × Bool → Session → Status
settle ack p draw reaps entry s = running (
    inject entry p draw
      (record s { counters = count_confirmed s.counters; trace = note_ack entry s.trace }))
settle nack p draw reaps entry s =
    running (record s { counters = count_retransmit s.counters; st = requeue entry s.st })
settle failed p draw reaps entry s =
    let back = record s { st = requeue entry s.st } in reap_all lost reaps back.pending back

abbrev pub settle_front :
    Confirm → F64 → F64 → ℕ → List Confirm → List (Frame × Bool) → Session → Status
settle_front c p draw now reaps [] s = panics
settle_front c p draw now reaps (entry ∷ rest) s =
    settle c p draw reaps entry
      (record s { pending = rest; inflight = s.inflight - 1; last_progress = now })

-- A frame from the generator.
unfoldable pub accept : Frame → Session → Session
accept frame s =
    let (st, c, gone) = buffer_frame s.st frame s.counters in
    record s {
      st = st;
      counters = c;
      trace = record s.trace {
        received = frame ∷ s.trace.received;
        dropped = gone ++ s.trace.dropped;
      };
    }

pub probe : ℕ → Bool → List Confirm → Session → Status
probe now alive reaps s =
    let idle = s.inflight == 0 in
    let kept = if idle then record s { last_progress = now } else s in
    if not idle && ltb confirm_stall_timeout (now - s.last_progress)
    then reap_all lost reaps s.pending s
    else if alive
    then running kept
    else reap_all lost reaps kept.pending kept

-- A confirm can only be yielded while there is one in flight.
unfoldable pub select : Event → List Confirm → Session → Status
select (reaped c p draw now) reaps s =
    if s.inflight == 0 then running s else settle_front c p draw now reaps s.pending s
select (received frame) reaps s = running (accept frame s)
select channel_closed reaps s = reap_all shutdown reaps s.pending s
select drain_tick reaps s = running s
select (probe_tick now alive) reaps s = probe now alive reaps s

unfoldable pub gauge : Session → Session
gauge s = record s { counters = record s.counters { buffered = buffered s.st } }

abbrev pub then_select : Event → List Confirm → Status → Status
then_select event reaps (running s) = select event reaps (gauge s)
then_select event reaps (lost s) = lost s
then_select event reaps (shutdown s) = shutdown s
then_select event reaps panics = panics

-- One round of `publish_loop`.
unfoldable pub publish_round : ℕ → (ℕ → Attempt) → Event → List Confirm → Session → Status
publish_round window attempts event reaps s =
    then_select event reaps (pump (window - s.inflight) attempts reaps s)
