-- ===== src/Ingest/Gap/Tests.antt =====
-- Runs of crates/coldbore-ingest/src/gap.rs at the inputs of its unit tests.
use cold_bore.Base.{All, ℕ, ◌≡◌, refl, true, false, List, [], ◌∷◌, none, some, length, add64, arith}
use cold_bore.Base.Map.{find, put}
use cold_bore.Ingest.Sink.{Row, to_row}
use cold_bore.Ingest.Sink.Samples.{sample}
use cold_bore.Ingest.Sink.Watermarks.{watermarks, well_mark, greatest, of_well, of_epoch}
use cold_bore.Ingest.Consume.{seed_all}
use cold_bore.Ingest.Consume.Seeded.{watermarks_no_phantom}
use cold_bore.Ingest.Gap.{
  punch, WellGaps, GapRange, observe_well, healed, new, observe, observe_well, open_now, seed,
  arrive, containing,
}
use cold_bore.Ingest.Gap.Well.{missing, IsValid, arrive_inside_grows}
use cold_bore.Ingest.Gap.Arrivals.{lost, expected}
use cold_bore.Ingest.Gap.History.{
  Obs, run, seen, newest, missing-lost, missing_sound, seed_no_phantom,
}

abbrev call : ℕ → ℕ → ℕ → Obs
call epoch seq now = record {
  pad = 1;
  well = 1;
  arrival = record { epoch = epoch; seq = seq; now = now };
}

-- 1, then 5 (2..4 were lost in flight), then 3 late, then a straggler of an older epoch.
abbrev history : List Obs
history = call 6 9 2100 ∷ call 7 3 2000 ∷ call 7 5 1000 ∷ call 7 1 1000 ∷ []

abbrev range : ℕ → GapRange
range end = record { end = end; opened_at_ms = 1000 }

-- 2 and 4 are still missing.
abbrev split : WellGaps
split = record {
  epoch = 7;
  next_expected = 6;
  open_ranges = (2, range 2) ∷ (4, range 4) ∷ [];
  untracked = 0;
}

run-history : find (1, 1) (run new history).wells ≡ some split
unfolding run observe observe_well find put add64 containing punch
run-history = refl

heals-two : (observe (run new history) 1 1 7 2 2500).1 ≡ healed 1 1 2 2 1500 ∷ []
unfolding run observe observe_well find put add64 containing punch
heals-two = refl

open_two : open_now (run new history) ≡ 2
unfolding run observe observe_well find put add64 containing punch open_now
open_two = refl

missing-lost_example :
    missing 4 split ≡ lost 1 (newest (seen (1, 1) history)) (seen (1, 1) history) 4
missing-lost_example = missing-lost 1 1 history split run-history (omega arith) (omega arith) refl 4

missing_sound_example :
    ((s : ℕ)
      → missing s split ≡ true
      → lost 1 (newest (seen (1, 1) history)) (seen (1, 1) history) s ≡ true)
    × IsValid 1 split
    × (split.next_expected ≡ expected 1 (newest (seen (1, 1) history)) (seen (1, 1) history))
missing_sound_example = missing_sound 1 1 history split run-history (omega arith) (omega arith)

-- The store holds 1..4000 of epoch 7; 4002 arrives before 4001.
abbrev after_restart : WellGaps
after_restart = record {
  epoch = 7;
  next_expected = 4003;
  open_ranges = (4001, range 4001) ∷ [];
  untracked = 0;
}

run-after_restart :
    find (1, 1) (run (seed new 1 1 7 4000) (call 7 4002 1000 ∷ [])).wells ≡ some after_restart
unfolding run observe observe_well find put add64 containing punch seed
run-after_restart = refl

unknown_well : find (1, 1) new.wells ≡ none
unfolding find
unknown_well = refl

seed_no_phantom_example : missing 3999 after_restart ≡ false
seed_no_phantom_example =
    seed_no_phantom new 1 1 7 4000 (call 7 4002 1000 ∷ []) after_restart unknown_well
      run-after_restart (omega arith) (omega arith) (omega arith) refl 3999 (omega arith)

-- The range 2..4 with 3 arriving.
abbrev one_gap : WellGaps
one_gap = record { epoch = 7; next_expected = 6; open_ranges = (2, range 4) ∷ []; untracked = 0 }

found_range : containing 3 one_gap.open_ranges ≡ some (2, range 4)
unfolding containing
found_range = refl

arrive_inside_grows_example : length (arrive 1 1 one_gap 3 2000).0.open_ranges ≡ 2
arrive_inside_grows_example =
    arrive_inside_grows 1 1 1 one_gap 3 2000 2 (range 4) (omega arith) found_range (omega arith)
      (omega arith)

abbrev two_rows : List Row
two_rows = to_row (sample 5) ∷ to_row (sample 3) ∷ []

abbrev eight_arrives : List Obs
eight_arrives = record { pad = 1; well = 1; arrival = record { epoch = 1; seq = 8; now = 9 } } ∷ []

-- 6 and 7 are open; 1 to 5 are not.
abbrev after_eight : WellGaps
after_eight = record {
  epoch = 1;
  next_expected = 9;
  open_ranges = (6, record { end = 7; opened_at_ms = 9 }) ∷ [];
  untracked = 0;
}

none_known : find (1, 1) new.wells ≡ none
unfolding find
none_known = refl

newest_stored : greatest (of_well (1, 1)) (λ r. r.epoch) two_rows ≡ some 1
unfolding greatest
newest_stored = refl

run-eight_arrives :
    find (1, 1) (run (seed_all (watermarks two_rows) new) eight_arrives).wells ≡ some after_eight
unfolding run watermarks well_mark greatest seed_all seed observe observe_well find put add64
run-eight_arrives = refl

watermarks_no_phantom_example :
    All (λ r. of_epoch (1, 1) 1 r ≡ true → missing r.seq after_eight ≡ false) two_rows
watermarks_no_phantom_example =
    watermarks_no_phantom two_rows new 1 1 1 eight_arrives after_eight (omega arith) none_known
      newest_stored run-eight_arrives (omega arith) (omega arith) refl
