-- ===== src/Edge/Main.antt =====
-- crates/coldbore-edge/src/main.rs: `run`, which spawns the generator and the uplink of the mode, gives
-- both the same channel, and ends with the first of them or with ctrl-c.
pub mod Accounted
pub mod Samples
mod Tests
use cold_bore.Base.{ℕ, Bool, true, false, List, Option, none, some, if◌then◌else◌}
use cold_bore.Proto.Frame.{Frame}
use cold_bore.Proto.Config.{Mode, classic, stream, EdgeConfig}
use cold_bore.Edge.Sim
use cold_bore.Edge.Sim.{Waves, Tick, generator, empty_field}
use cold_bore.Edge.Uplink.Session
use cold_bore.Edge.Uplink.Session.Run as ClassicRun
use cold_bore.Edge.UplinkStream
use cold_bore.Edge.UplinkStream.Run

-- The uplink task of each mode.
pub data Uplink : Type 0 where
  classic_uplink : Session.Status → Uplink
  stream_uplink : UplinkStream.Status → Uplink

-- The two tasks, as far as they have come.
pub record Tasks (State : Type 0) : Type 0 where
  pub sampling : Sim.Status State
  pub uplink : Uplink

-- The environment's part: whether the channel is open when a frame is sent, the passes of the
-- generator's loop, and the lives of an uplink of either mode.
pub record World : Type 0 where
  pub takes : List Frame → Bool
  pub ticks : List Tick
  pub classic_lives : List ClassicRun.Life
  pub stream_lives : List Run.Life

-- The `match` on the mode.
pub spawn_uplink : EdgeConfig → World → Mode → Uplink
spawn_uplink cfg world classic = classic_uplink (
    ClassicRun.run cfg.confirm_window world.classic_lives
      (ClassicRun.start cfg.pads cfg.buffer_cap))
spawn_uplink cfg world stream =
    stream_uplink
      (Run.run cfg.confirm_window world.stream_lives (Run.start cfg.pads cfg.buffer_cap))

-- The tasks that `run` spawns at time `epoch`, which is the generation of every frame.
pub run : (waves : Waves) → EdgeConfig → ℕ → World → Tasks waves.State
run waves cfg epoch world = record {
  sampling = generator waves epoch world.takes world.ticks empty_field;
  uplink = spawn_uplink cfg world cfg.common.mode;
}

-- A task that has returned; a panic ends it too.
abbrev pub sampling_ended : {State : Type 0} → Sim.Status State → Bool
sampling_ended (Sim.running g) = false
sampling_ended (Sim.gone g) = true

abbrev pub uplink_ended : Uplink → Bool
uplink_ended (classic_uplink (Session.running s)) = false
uplink_ended (classic_uplink (Session.lost s)) = false
uplink_ended (classic_uplink (Session.shutdown s)) = true
uplink_ended (classic_uplink Session.panics) = true
uplink_ended (stream_uplink (UplinkStream.running s)) = false
uplink_ended (stream_uplink (UplinkStream.lost s)) = false
uplink_ended (stream_uplink (UplinkStream.shutdown s)) = true

-- The branch of `select!` that is taken, and what `run` does: the tasks that it aborts, and whether it
-- returns `Ok`.
pub data Branch : Type 0 where
  on_ctrl_c on_sampling on_uplink : Branch

pub record Exit : Type 0 where
  pub aborts_sampling : Bool
  pub aborts_uplink : Bool
  pub success : Bool

-- The branch of a task is ready once the task has ended.
pub select : {State : Type 0} → Branch → Tasks State → Option Exit
select on_ctrl_c tasks =
    some record { aborts_sampling = true; aborts_uplink = true; success = true }
select on_sampling tasks =
    if sampling_ended tasks.sampling
    then some record { aborts_sampling = false; aborts_uplink = true; success = false }
    else none
select on_uplink tasks =
    if uplink_ended tasks.uplink
    then some record { aborts_sampling = true; aborts_uplink = false; success = false }
    else none
