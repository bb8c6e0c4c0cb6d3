-- ===== src/Edge/Uplink/Session/Run.antt =====
-- `publish_loop` and the supervisor `run` of crates/coldbore-edge/src/uplink.rs: connect, serve until the
-- connection dies, buffer while disconnected, reconnect after a capped exponential backoff.
use cold_bore.Base.{ℕ, ◌*◌, Bool, List, [], ◌∷◌, leb, if◌then◌else◌}
use cold_bore.Proto.Frame.{Frame}
use cold_bore.Edge.Counters.{zeros}
use cold_bore.Edge.Uplink.{new, initial_backoff, max_backoff}
use cold_bore.Edge.Uplink.Session.{
  Session, Confirm, Status, running, lost, shutdown, panics, Attempt, Event, accept, gauge,
  publish_round,
}

-- The environment's part in one round of `publish_loop`.
pub record Round : Type 0 where
  pub attempts : ℕ → Attempt
  pub event : Event
  pub reaps : List Confirm

abbrev pub continue : (Session → Status) → Status → Status
continue rest (running s) = rest s
continue rest (lost s) = lost s
continue rest (shutdown s) = shutdown s
continue rest panics = panics

-- `publish_loop` for as many rounds as are given, or until it returns.
unfoldable pub publish_loop : ℕ → List Round → Session → Status
publish_loop window [] s = running s
publish_loop window (r ∷ rs) s =
    continue (publish_loop window rs) (publish_round window r.attempts r.event r.reaps s)

-- `connect_and_serve`, once connected at time `now`: the backoff is reset.
abbrev pub connected : ℕ → Session → Session
connected now s = record s {
  st = record s.st { backoff = initial_backoff };
  pending = [];
  inflight = 0;
  last_progress = now;
}

-- The frames that come in until the backoff is over.
unfoldable pub buffer_all : List Frame → Session → Session
buffer_all [] s = s
buffer_all (f ∷ fs) s = buffer_all fs (accept f s)

-- `st.backoff = (st.backoff * 2).min(MAX_BACKOFF)`
abbrev pub min_backoff : ℕ → ℕ
min_backoff b = if leb b max_backoff then b else max_backoff

abbrev pub back_off : Session → Session
back_off s = record s { st = record s.st { backoff = min_backoff (s.st.backoff * 2) } }

-- An error after the reset, where the channels for control and metrics are made: the backoff stays
-- reset.
abbrev pub reset_backoff : Session → Session
reset_backoff s = record s { st = record s.st { backoff = initial_backoff } }

-- How far `connect_and_serve` comes: not to the reset of the backoff, only so far, or to its loop.
pub data Connection : Type 0 where
  unreached broken serving : Connection

-- One turn of the supervisor's loop: how far it connects and when, the rounds of the session if it
-- gets there, and the frames that come in while it waits. The generator may end there.
pub record Life : Type 0 where
  pub connects : Connection
  pub now : ℕ
  pub rounds : List Round
  pub offline : List Frame
  pub closed : Bool

abbrev pub disconnected : Life → Session → Status
disconnected l s =
    let b = buffer_all l.offline s in if l.closed then shutdown b else lost (back_off (gauge b))

abbrev pub reconnect : Life → Status → Status
reconnect l (running s) = running s
reconnect l (lost s) = disconnected l s
reconnect l (shutdown s) = shutdown s
reconnect l panics = panics

abbrev pub connect_and_serve : ℕ → Life → Connection → Session → Status
connect_and_serve window l unreached s = lost s
connect_and_serve window l broken s = lost (reset_backoff s)
connect_and_serve window l serving s = publish_loop window l.rounds (connected l.now s)

-- A session that is still running after its rounds is left there.
unfoldable pub live_once : ℕ → Life → Session → Status
live_once window l s = reconnect l (connect_and_serve window l l.connects s)

abbrev pub live_on : (Session → Status) → Status → Status
live_on rest (lost s) = rest s
live_on rest (running s) = running s
live_on rest (shutdown s) = shutdown s
live_on rest panics = panics

-- `run`, through as many lives as are given.
unfoldable pub run : ℕ → List Life → Session → Status
run window [] s = lost s
run window (l ∷ ls) s = live_on (run window ls) (live_once window l s)

-- `run` starts with `UplinkState::new` and nothing received.
unfoldable pub start : ℕ → ℕ → Session
start pads buffer_cap = record {
  st = new pads buffer_cap;
  counters = zeros;
  pending = [];
  inflight = 0;
  last_progress = 0;
  trace = record { received = []; acked = []; dropped = []; promoted = [] };
}
