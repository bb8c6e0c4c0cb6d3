-- ===== src/Ingest/Gap.antt =====
-- crates/coldbore-ingest/src/gap.rs: sequence accounting for each (pad, well).
pub mod Ranges
pub mod Well
pub mod Arrivals
pub mod History
pub mod Counted
mod Tests
use cold_bore.Base.{
  ℕ, ◌+◌, ◌-◌, ◌≡◌, Bool, true, false, List, [], ◌∷◌, ◌++◌, Option, none, some, ltb, leb, ◌==◌,
  ◌&&◌, if◌then◌else◌, length, weigh, add64,
}
use cold_bore.Base.Map.{lookup, insert, remove, find, put}

-- `MAX_OPEN_PER_WELL`
abbrev pub max_open_per_well : ℕ
max_open_per_well = 1024

pub data GapChange : Type 0 where
  -- pad, well, from, to
  opened : ℕ → ℕ → ℕ → ℕ → GapChange
  -- pad, well, from, to, after_ms
  healed : ℕ → ℕ → ℕ → ℕ → ℕ → GapChange

pub record GapRange : Type 0 where
  pub end : ℕ
  pub opened_at_ms : ℕ

pub record WellGaps : Type 0 where
  pub epoch : ℕ
  pub next_expected : ℕ
  pub open_ranges : List (ℕ × GapRange)
  pub untracked : ℕ

pub record GapTracker : Type 0 where
  pub wells : List ((ℕ × ℕ) × WellGaps)
  pub opened : ℕ
  pub healed : ℕ

-- `GapTracker::new`
abbrev pub new : GapTracker
new = record { wells = []; opened = 0; healed = 0 }

-- A well whose accounting starts: `WellGaps { epoch, next_expected, ..default() }`.
abbrev pub start_well : ℕ → ℕ → WellGaps
start_well epoch next = record {
  epoch = epoch;
  next_expected = next;
  open_ranges = [];
  untracked = 0;
}

-- `GapTracker::open_now`
pub open_now : GapTracker → ℕ
open_now t = weigh (λ e. length e.1.open_ranges + e.1.untracked) t.wells

-- `entry((pad, well)).or_insert_with(|| default)`
abbrev pub entry_or : WellGaps → Option WellGaps → WellGaps
entry_or w none = w
entry_or w (some u) = u

-- `GapTracker::seed`
unfoldable pub seed : GapTracker → ℕ → ℕ → ℕ → ℕ → GapTracker
seed t pad well epoch max_seq = record t {
  wells =
      put (pad, well) (entry_or (start_well epoch (add64 max_seq 1)) (find (pad, well) t.wells))
        t.wells;
}

-- `open.range(..=seq).next_back()`: the last range that starts at or below `seq`.
pub last_at_most : ℕ → List (ℕ × GapRange) → Option (ℕ × GapRange)
last_at_most seq [] = none
last_at_most seq ((start, r) ∷ m) =
    let later = last_at_most seq m in
    if leb start seq then elim later [ none ↦ some (start, r) | some e ↦ some e ] else none

-- `.filter(|(_, r)| r.end >= seq)`
abbrev pub reaching : ℕ → Option (ℕ × GapRange) → Option (ℕ × GapRange)
reaching seq none = none
reaching seq (some (start, r)) = if leb seq r.end then some (start, r) else none

pub containing : ℕ → List (ℕ × GapRange) → Option (ℕ × GapRange)
unfolding last_at_most
containing seq m = reaching seq (last_at_most seq m)

-- The range `start`..`r.end` leaves the table, and what it holds on either side of `seq` returns.
pub punch : ℕ → ℕ → GapRange → List (ℕ × GapRange) → List (ℕ × GapRange)
punch seq start r m =
    let removed = remove start m in
    let left =
      if ltb start seq then insert start (record r { end = seq - 1 }) removed else removed in
    if ltb seq r.end then insert (seq + 1) r left else left

-- Which of the tracker's two counters an arrival adds one to: `self.opened += 1`, `self.healed += 1`.
pub data Count : Type 0 where
  uncounted counts_opened counts_healed : Count

-- What one arrival does to a well, which counter it adds to, and the changes it reports.
abbrev pub Arrival : Type 0
Arrival = WellGaps × Count × List GapChange

-- `seq > next_expected`
pub jump : ℕ → ℕ → WellGaps → ℕ → ℕ → Arrival
jump pad well w seq now =
    let range : GapRange = record { end = seq - 1; opened_at_ms = now } in
    let tracked = ltb (length w.open_ranges) max_open_per_well in
    (
      record w {
        open_ranges = if tracked then insert w.next_expected range w.open_ranges else w.open_ranges;
        untracked = if tracked then w.untracked else add64 w.untracked 1;
        next_expected = add64 seq 1;
      },
      counts_opened,
      opened pad well w.next_expected (seq - 1) ∷ [],
    )

-- `start == seq && range.end == seq` counts and reports the range healed, after the time since it
-- opened.
pub heals : ℕ → ℕ → ℕ → ℕ → GapRange → ℕ → Count × List GapChange
heals pad well seq start r now =
    if start == seq && r.end == seq
    then (counts_healed, healed pad well start r.end (now - r.opened_at_ms) ∷ [])
    else (uncounted, [])

pub fill : ℕ → ℕ → WellGaps → ℕ → ℕ → Option (ℕ × GapRange) → Arrival
unfolding heals
fill pad well w seq now none = (w, uncounted, [])
fill pad well w seq now (some (start, r)) =
    let (count, changes) = heals pad well seq start r now in
    (record w { open_ranges = punch seq start r w.open_ranges }, count, changes)

-- `seq < next_expected`
pub late : ℕ → ℕ → WellGaps → ℕ → ℕ → Arrival
unfolding fill
late pad well w seq now = fill pad well w seq now (containing seq w.open_ranges)

-- The three cases of an arrival in the well's current epoch.
pub arrive : ℕ → ℕ → WellGaps → ℕ → ℕ → Arrival
unfolding jump late
arrive pad well w seq now =
    if seq == w.next_expected
    then (record w { next_expected = add64 w.next_expected 1 }, uncounted, [])
    else if ltb w.next_expected seq
    then jump pad well w seq now
    else late pad well w seq now

-- An older epoch is a straggler; a newer one resets the well.
pub observe_well : ℕ → ℕ → WellGaps → ℕ → ℕ → ℕ → Arrival
unfolding arrive
observe_well pad well w epoch seq now =
    if ltb epoch w.epoch
    then (w, uncounted, [])
    else arrive pad well (if ltb w.epoch epoch then start_well epoch 1 else w) seq now

abbrev pub add_opened : Count → ℕ → ℕ
add_opened uncounted n = n
add_opened counts_opened n = add64 n 1
add_opened counts_healed n = n

abbrev pub add_healed : Count → ℕ → ℕ
add_healed uncounted n = n
add_healed counts_opened n = n
add_healed counts_healed n = add64 n 1

-- `GapTracker::observe`
unfoldable pub observe : GapTracker → ℕ → ℕ → ℕ → ℕ → ℕ → GapTracker × List GapChange
observe t pad well epoch seq now =
    let w = entry_or (start_well epoch 1) (find (pad, well) t.wells) in
    let (w', count, changes) = observe_well pad well w epoch seq now in
    (
      record {
        wells = put (pad, well) w' t.wells;
        opened = add_opened count t.opened;
        healed = add_healed count t.healed;
      },
      changes,
    )
