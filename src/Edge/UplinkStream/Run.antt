-- ===== src/Edge/UplinkStream/Run.antt =====
-- `publish_loop` and the supervisor `run` of crates/coldbore-edge/src/uplink_stream.rs.
use cold_bore.Base.{ℕ, ◌*◌, Bool, List, [], ◌∷◌, if◌then◌else◌}
use cold_bore.Proto.Frame.{Frame}
use cold_bore.Edge.Counters.{zeros}
use cold_bore.Edge.Uplink.{new, buffered, initial_backoff, max_backoff}
use cold_bore.Edge.UplinkStream.{Attempt, Session, Status, lost, running, shutdown, smaller}
use cold_bore.Edge.UplinkStream.Select.{Event, accept, publish_round}

-- The environment's part in one round of `publish_loop`.
pub record Round : Type 0 where
  pub attempts : ℕ → Attempt
  pub event : Event
  pub order : List ℕ

abbrev pub continue : (Session → Status) → Status → Status
continue rest (running s) = rest s
continue rest (lost s) = lost s
continue rest (shutdown s) = shutdown s

-- `publish_loop` for as many rounds as are given, or until it returns.
unfoldable pub publish_loop : ℕ → List Round → Session → Status
publish_loop window [] s = running s
publish_loop window (r ∷ rs) s =
    continue (publish_loop window rs) (publish_round window r.attempts r.event r.order s)

-- `connect_and_serve`, once connected: the map starts empty, and the backoff is reset.
abbrev pub connected : ℕ → Session → Session
connected now s = record s {
  st = record s.st { backoff = initial_backoff };
  inflight = [];
  last_confirm = now;
}

unfoldable pub buffer_all : List Frame → Session → Session
buffer_all [] s = s
buffer_all (f ∷ fs) s = buffer_all fs (accept f s)

-- After the wait the gauge leaves the retransmits out, and the backoff doubles up to its cap.
abbrev pub back_off : Session → Session
back_off s = record s {
  counters = record s.counters { buffered = buffered s.st };
  st = record s.st { backoff = smaller (s.st.backoff * 2) max_backoff };
}

-- One turn of the supervisor's loop: does it connect and when, the session's rounds, and the frames
-- that come in while it waits; the generator may end there.
pub record Life : Type 0 where
  pub connects : Bool
  pub now : ℕ
  pub rounds : List Round
  pub offline : List Frame
  pub closed : Bool

abbrev pub disconnected : Life → Session → Status
disconnected l s =
    let b = buffer_all l.offline s in if l.closed then shutdown b else lost (back_off b)

abbrev pub reconnect : Life → Status → Status
reconnect l (running s) = running s
reconnect l (lost s) = disconnected l s
reconnect l (shutdown s) = shutdown s

-- A session that is still running after its rounds is left there.
unfoldable pub live_once : ℕ → Life → Session → Status
live_once window l s =
    reconnect l (if l.connects then publish_loop window l.rounds (connected l.now s) else lost s)

abbrev pub live_on : (Session → Status) → Status → Status
live_on rest (lost s) = rest s
live_on rest (running s) = running s
live_on rest (shutdown s) = shutdown s

-- `run`, through as many lives as are given.
unfoldable pub run : ℕ → List Life → Session → Status
run window [] s = lost s
run window (l ∷ ls) s = live_on (run window ls) (live_once window l s)

-- `run` starts with `UplinkState::new`, publishing id 0 and nothing received.
unfoldable pub start : ℕ → ℕ → Session
start pads buffer_cap = record {
  st = new pads buffer_cap;
  counters = zeros;
  custody = record { next_id = 0; retry_ids = [] };
  inflight = [];
  last_confirm = 0;
  trace = record { received = []; acked = []; dropped = []; given = 0 };
}

abbrev pub at_end : Status → Session
at_end (running s) = s
at_end (lost s) = s
at_end (shutdown s) = s
