-- ===== src/Edge/Uplink.antt =====
-- crates/coldbore-edge/src/uplink.rs, `UplinkState`: the frames in edge custody. A VecDeque is a list,
-- front first. What the code reads of the fault state, and what the random source answers, stand in a
-- record of reads, one for each time that the code looks, so that commands may come in between.
pub mod Shuffle
pub mod Rounds
pub mod Session
pub mod Custody
pub mod Handover
pub mod Capacity
pub mod Order
pub mod Severed
pub mod Calm
pub mod Kept
pub mod InOrder
mod Tests
use cold_bore.Base.{
  ℕ, zero, suc, ◌+◌, ◌*◌, ◌≤◌, Bool, true, false, ◌&&◌, ◌||◌, not, List, [], ◌∷◌, ◌++◌, Option,
  none, some, ltb, leb, ◌==◌, if◌then◌else◌, length, weigh, add64,
}
use cold_bore.Base.Map.{lookup, insert}
use cold_bore.Proto.Frame.{Frame}
use cold_bore.Edge.Counters.{Counters}
use Shuffle.{shuffle_all}

abbrev pub initial_backoff : ℕ
initial_backoff = 500

abbrev pub max_backoff : ℕ
max_backoff = 10000

pub record UplinkState : Type 0 where
  pub pad_buffers : List (ℕ × List Frame)
  pub retry : List Frame
  pub dup_queue : List Frame
  pub shuffle : List Frame
  pub publish_queue : List Frame
  pub buffer_cap : ℕ
  pub backoff : ℕ

-- `(first..).take(n).map(|p| (p, VecDeque::new())).collect()`
abbrev pub empty_buffers : ℕ → ℕ → List (ℕ × List Frame)
empty_buffers first zero = []
empty_buffers first (suc n) = (first, []) ∷ empty_buffers (first + 1) n

-- `UplinkState::new`, of `cfg.pads` and `cfg.buffer_cap`.
unfoldable pub new : ℕ → ℕ → UplinkState
new pads buffer_cap = record {
  pad_buffers = empty_buffers 1 pads;
  retry = [];
  dup_queue = [];
  shuffle = [];
  publish_queue = [];
  buffer_cap = buffer_cap;
  backoff = initial_backoff;
}

-- `entry(pad).or_default()`
abbrev pub or_default : Option (List Frame) → List Frame
or_default none = []
or_default (some buf) = buf

-- `pop_front`, as what is left and what came off.
abbrev pub rest_of : List Frame → List Frame
rest_of [] = []
rest_of (f ∷ fs) = fs

abbrev pub front_of : List Frame → List Frame
front_of [] = []
front_of (f ∷ fs) = f ∷ []

abbrev pub is_full : UplinkState → List Frame → Bool
is_full st buf = leb st.buffer_cap (length buf)

abbrev pub buffer_of : UplinkState → ℕ → List Frame
buffer_of st pad = or_default (lookup pad st.pad_buffers)

-- `buffer_frame`: the new state, the counters, and the frame that a full buffer gives up.
unfoldable pub buffer_frame : UplinkState → Frame → Counters → UplinkState × Counters × List Frame
buffer_frame st frame c =
    let buf = buffer_of st frame.pad in
    let full = is_full st buf in
    let kept = if full then rest_of buf else buf in
    (
      record st { pad_buffers = insert frame.pad (kept ++ frame ∷ []) st.pad_buffers },
      (if full then record c { buffer_dropped = add64 c.buffer_dropped 1 } else c),
      (if full then front_of buf else []),
    )

-- `buffered`: the duplicates in `dup_queue` are not counted.
pub buffered : UplinkState → ℕ
buffered st =
    weigh (λ b. length b.1) st.pad_buffers
    + length st.shuffle
    + length st.publish_queue
    + length st.retry

-- What the code reads while it fills the publish queue.
pub record Reads : Type 0 where
  pub window : ℕ
  -- Is the pad's link up, in this round?
  pub link_up : ℕ → ℕ → Bool
  -- `random_range(0..=i)`
  pub pick : ℕ → ℕ

-- One round over the pads: the buffers that are left, and the frames pulled.
abbrev pub pull_pad :
    Bool → ℕ × List Frame → List (ℕ × List Frame) × List Frame → List (ℕ × List Frame) × List Frame
pull_pad true (pad, f ∷ fs) (m, pulled) = ((pad, fs) ∷ m, f ∷ pulled)
pull_pad true (pad, []) (m, pulled) = ((pad, []) ∷ m, pulled)
pull_pad false entry (m, pulled) = (entry ∷ m, pulled)

unfoldable pub pull_round : (ℕ → Bool) → List (ℕ × List Frame) → List (ℕ × List Frame) × List Frame
pull_round link_up [] = ([], [])
pull_round link_up (entry ∷ m) = pull_pad (link_up entry.0) entry (pull_round link_up m)

abbrev pub pull_limit : ℕ
pull_limit = 512

-- The `loop`. A round that goes on has pulled a frame, so `pull_limit` rounds are enough.
unfoldable pub pull_loop : ℕ → ℕ → (ℕ → ℕ → Bool) → ℕ → UplinkState → UplinkState
pull_loop zero round link_up pulled st = st
pull_loop (suc fuel) round link_up pulled st =
    let (m, frames) = pull_round (link_up round) st.pad_buffers in
    let next = record st { pad_buffers = m; shuffle = st.shuffle ++ frames } in
    let total = pulled + length frames in
    let again = pull_loop fuel (round + 1) link_up total next in
    if length frames == 0 || leb pull_limit total then next else again

-- The shuffle stage, after the loop.
unfoldable pub stage : Reads → UplinkState → UplinkState
stage r st =
    if leb r.window 1
    then record st { publish_queue = st.publish_queue ++ st.shuffle; shuffle = [] }
    else if leb r.window (length st.shuffle)
    then record st {
      publish_queue = st.publish_queue ++ shuffle_all r.pick st.shuffle;
      shuffle = [];
    }
    else st

unfoldable pub fill_publish_queue : Reads → UplinkState → UplinkState
unfolding stage
fill_publish_queue r st = stage r (pull_loop pull_limit 0 r.link_up 0 st)

-- `publish_queue.pop_front().map(|f| (f, false))`
abbrev pub pop_publish : UplinkState → List Frame → Option (Frame × Bool) × UplinkState
pop_publish st [] = (none, st)
pop_publish st (f ∷ fs) = (some (f, false), record st { publish_queue = fs })

abbrev pub fill_if_empty : Reads → UplinkState → List Frame → UplinkState
fill_if_empty r st [] = fill_publish_queue r st
fill_if_empty r st (f ∷ fs) = st

abbrev pub pop_dup : Reads → UplinkState → List Frame → Option (Frame × Bool) × UplinkState
pop_dup r st (f ∷ fs) = (some (f, true), record st { dup_queue = fs })
pop_dup r st [] =
    let filled = fill_if_empty r st st.publish_queue in pop_publish filled filled.publish_queue

abbrev pub pop_retry : Reads → UplinkState → List Frame → Option (Frame × Bool) × UplinkState
pop_retry r st (f ∷ fs) = (some (f, false), record st { retry = fs })
pop_retry r st [] = pop_dup r st st.dup_queue

-- `next_publishable`: retransmits, then injected duplicates, then the pads.
unfoldable pub next_publishable : Reads → UplinkState → Option (Frame × Bool) × UplinkState
next_publishable r st = pop_retry r st st.retry
