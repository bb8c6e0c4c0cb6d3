-- ===== src/Edge/Sim.antt =====
-- crates/coldbore-edge/src/sim.rs: the generator. The waveforms are floating point and random: what one
-- sample reads and how the generator of a well goes on is a parameter, `Waves`. `sent` is not in the
-- program: it is what went into the channel, newest first.
pub mod Sequence
pub mod Numbers
mod Tests
use cold_bore.Base.{
  ℕ, zero, suc, ◌+◌, Bool, true, false, List, [], ◌∷◌, Option, none, some, if◌then◌else◌, add64,
}
use cold_bore.Base.Map.{find, put}
use cold_bore.Proto.Float.{F32, F64}
use cold_bore.Proto.Frame.{Frame, frame_version}
use cold_bore.Edge.Counters.{Counters, zeros}

-- The channels of one sample.
pub record Sample : Type 0 where
  pub pressure : F32
  pub rate : F32
  pub proppant : F32
  pub temp : F32

pub record Waves : Type 1 where
  pub State : Type 0
  pub seeded : ℕ → ℕ → State
  pub advance : State → F64 → State
  pub read : State → Sample

pub record WellSim (State : Type 0) : Type 0 where
  pub pad : ℕ
  pub well : ℕ
  pub epoch : ℕ
  pub seq : ℕ
  pub waves : State

pub record Generator (State : Type 0) : Type 0 where
  pub wells : List ((ℕ × ℕ) × WellSim State)
  pub counters : Counters
  pub sent : List Frame

-- The loop runs, or the uplink is gone and it returns.
pub data Status (State : Type 0) : Type 0 where
  running gone : Generator State → Status State

-- One pass of the loop: how many samples are due, when each is taken, the field's size and `1.0 / hz`.
pub record Tick : Type 0 where
  pub samples : ℕ
  pub t_ms : ℕ → ℕ
  pub pads : ℕ
  pub wells_per_pad : ℕ
  pub dt : F64

abbrev pub at_end : {State : Type 0} → Status State → Generator State
at_end (running g) = g
at_end (gone g) = g

-- Before the first pass: no wells, nothing sent.
abbrev pub empty_field : {State : Type 0} → Generator State
empty_field = record { wells = []; counters = zeros; sent = [] }

abbrev pub then_go :
    {State : Type 0} → (Generator State → Status State) → Status State → Status State
then_go f (running g) = f g
then_go f (gone g) = gone g

module _ (waves : Waves) where
  -- `WellSim::new`
  unfoldable pub new : ℕ → ℕ → ℕ → WellSim waves.State
  new pad well epoch = record {
    pad = pad;
    well = well;
    epoch = epoch;
    seq = 0;
    waves = waves.seeded pad well;
  }

  -- `WellSim::step`
  unfoldable pub step : WellSim waves.State → ℕ → F64 → WellSim waves.State × Frame
  step sim t_ms dt =
      let seq = add64 sim.seq 1 in
      let after = waves.advance sim.waves dt in
      let sample = waves.read after in
      (
        record sim { seq = seq; waves = after },
        record {
          v = frame_version;
          pad = sim.pad;
          well = sim.well;
          epoch = sim.epoch;
          seq = seq;
          t_ms = t_ms;
          pressure_psi = sample.pressure;
          rate_bpm = sample.rate;
          proppant_ppa = sample.proppant;
          temp_f = sample.temp;
        },
      )

  -- `entry((p, w)).or_insert_with(|| WellSim::new(p, w, epoch))`
  abbrev pub or_new : ℕ → ℕ → ℕ → Option (WellSim waves.State) → WellSim waves.State
  or_new pad well epoch none = new pad well epoch
  or_new pad well epoch (some sim) = sim

  abbrev pub count_generated : Counters → Counters
  count_generated c = record c { generated = add64 c.generated 1 }

  -- One well: the channel takes the frame, or it is closed.
  unfoldable pub generate :
      ℕ → (List Frame → Bool) → ℕ → F64 → ℕ → ℕ → Generator waves.State → Status waves.State
  generate epoch takes t_ms dt pad well g =
      let (sim, frame) = step (or_new pad well epoch (find (pad, well) g.wells)) t_ms dt in
      let g' = record g {
        wells = put (pad, well) sim g.wells;
        counters = count_generated g.counters;
      } in
      if takes g.sent then running (record g' { sent = frame ∷ g.sent }) else gone g'

  -- `for w in w..=wells_per_pad`, as many as are left.
  unfoldable pub each_well :
      ℕ → (List Frame → Bool) → ℕ → F64 → ℕ → ℕ → ℕ → Generator waves.State → Status waves.State
  each_well epoch takes t_ms dt pad well zero g = running g
  each_well epoch takes t_ms dt pad well (suc left) g =
      then_go (each_well epoch takes t_ms dt pad (suc well) left)
        (generate epoch takes t_ms dt pad well g)

  unfoldable pub each_pad :
      ℕ → (List Frame → Bool) → ℕ → F64 → ℕ → ℕ → ℕ → Generator waves.State → Status waves.State
  each_pad epoch takes t_ms dt wells_per_pad pad zero g = running g
  each_pad epoch takes t_ms dt wells_per_pad pad (suc left) g =
      then_go (each_pad epoch takes t_ms dt wells_per_pad (suc pad) left)
        (each_well epoch takes t_ms dt pad 1 wells_per_pad g)

  -- `for _ in 0..samples`
  unfoldable pub each_sample :
      ℕ → (List Frame → Bool) → Tick → ℕ → Generator waves.State → Status waves.State
  each_sample epoch takes tick zero g = running g
  each_sample epoch takes tick (suc left) g =
      then_go (each_sample epoch takes tick left)
        (each_pad epoch takes (tick.t_ms left) tick.dt tick.wells_per_pad 1 tick.pads g)

  -- `generator`, for as many passes as are given.
  unfoldable pub generator :
      ℕ → (List Frame → Bool) → List Tick → Generator waves.State → Status waves.State
  generator epoch takes [] g = running g
  generator epoch takes (tick ∷ ticks) g =
      then_go (generator epoch takes ticks) (each_sample epoch takes tick tick.samples g)
