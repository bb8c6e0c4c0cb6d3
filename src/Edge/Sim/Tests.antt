-- ===== src/Edge/Sim/Tests.antt =====
-- Runs of crates/coldbore-edge/src/sim.rs: a field that is resized between two samples.
use cold_bore.Base.Map.{find, put}
use cold_bore.Base.{Bool, arith, ℕ, ◌≡◌, refl, List, [], ◌∷◌, length, ltb}
use cold_bore.Proto.Float.{F32, f64_one}
use cold_bore.Proto.Frame.{Frame}
use cold_bore.Edge.Sim.{
  Waves, Tick, generator, each_sample, each_pad, each_well, generate, step, new, at_end,
  empty_field,
}
use cold_bore.Edge.Sim.Sequence.{Contiguous, generator-Contiguous}

abbrev zero32 : F32
zero32 = record { bits = 0 }

abbrev flat : Waves
flat = record {
  State = Unit {0};
  seeded = λ pad well. tt;
  advance = λ s dt. s;
  read = λ s. record { pressure = zero32; rate = zero32; proppant = zero32; temp = zero32 };
}

-- Two wells, then one, then two; the channel closes at the sixth frame.
abbrev tick : ℕ → Tick
tick wells_per_pad = record {
  samples = 2;
  t_ms = λ n. n;
  pads = 1;
  wells_per_pad = wells_per_pad;
  dt = f64_one;
}

abbrev ticks : List Tick
ticks = tick 2 ∷ tick 1 ∷ tick 2 ∷ []

abbrev takes : List Frame → Bool
takes sent = ltb (length sent) 5

abbrev sent : List Frame
sent = (at_end (generator flat 7 takes ticks empty_field)).sent

five_sent : length sent ≡ 5
unfolding generator each_sample each_pad each_well generate step new find put
five_sent = refl

generator-Contiguous_example : Contiguous flat 7 sent
generator-Contiguous_example = generator-Contiguous flat 7 takes ticks (omega (arith, five_sent))
