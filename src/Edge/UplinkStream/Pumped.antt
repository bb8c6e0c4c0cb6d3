-- ===== src/Edge/UplinkStream/Pumped.antt =====
-- The pump of crates/coldbore-edge/src/uplink_stream.rs ends by itself within the turns it is given.
use cold_bore.Base.{ℕ, ◌+◌, ◌≤◌, ◌<◌, ◌≡◌, ◌⊎◌, List, [], length, u64_mod}
use cold_bore.Proto.Frame.{Frame}
use cold_bore.Edge.UplinkStream.{
  Session, Staged, Status, running, lost, shutdown, Attempt, stage_batch,
}
use cold_bore.Edge.UplinkStream.Run.{at_end}
use cold_bore.Edge.UplinkStream.Books.{Books}

-- A staged batch has put one frame in flight for each message, and taken ids.
abbrev Grown : Staged → Session → List (ℕ × Frame) → Type 0
Grown r s messages =
    (s.trace.given ≤ r.1.trace.given)
    × (r.1.trace.given < u64_mod
        → length r.1.inflight + length messages ≡ length s.inflight + length r.0)

-- Why the pump stopped: the window is full, or the last batch had no message.
abbrev pub Ended : ℕ → Status → Type 0
Ended window (running s) =
    (window ≤ length s.inflight)
    ⊎ ((a : Attempt) × (t : Session) × (stage_batch window a t ≡ ([], s)))
Ended window (lost s) = Unit
Ended window (shutdown s) = Unit

-- The pump's outcome, and that it only gives out ids.
abbrev Pumps : ℕ → Session → Status → Type 0
Pumps window s r =
    (s.trace.given ≤ (at_end r).trace.given) × ((at_end r).trace.given < u64_mod → Ended window r)
