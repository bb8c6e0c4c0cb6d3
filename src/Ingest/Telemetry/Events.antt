-- ===== src/Ingest/Telemetry/Events.antt =====
-- The events of crates/coldbore-ingest/src/telemetry.rs against the counters of gap.rs.
use cold_bore.Base.{
  ℕ, ◌+◌, ◌%◌, ◌<◌, ◌≡◌, refl, Bool, false, String, List, [], ◌∷◌, ◌++◌, map, arith, u64_mod,
  if◌then◌else◌,
}
use text.Mathlib.Text.{◌==◌ as text_eq}
use cold_bore.Proto.Frame.{Frame}
use cold_bore.Proto.Metrics.{
  gap_opened, gap_healed, event, edge_metrics, ingest_metrics, Publication, Body,
}
use cold_bore.Ingest.Gap.{GapTracker, GapChange, opened, healed, observe}
use cold_bore.Ingest.Gap.Counted.{opened_in, healed_in, observe-counted}
use cold_bore.Ingest.Consume.{observe_all}
use cold_bore.Ingest.Telemetry.{
  Histogram, publish_event, publish_gap_event, account_frames, latency,
}

abbrev is_kind : String → Body → Bool
is_kind kind (event e) = text_eq e.kind kind
is_kind kind (edge_metrics m) = false
is_kind kind (ingest_metrics m) = false

-- How many of the publications are events of a kind.
abbrev pub of_kind : String → List Publication → ℕ
of_kind kind [] = 0
of_kind kind (p ∷ ps) = if is_kind kind p.body then 1 + of_kind kind ps else of_kind kind ps

of_kind-append :
    (kind : String) (ps qs : List Publication)
    → of_kind kind (ps ++ qs) ≡ of_kind kind ps + of_kind kind qs
of_kind-append kind [] qs = omega arith
of_kind-append kind (p ∷ ps) qs = ground (arith, of_kind-append kind ps qs)

of_kind-opened :
    (now : ℕ) (changes : List GapChange)
    → of_kind gap_opened (map (publish_gap_event now) changes) ≡ opened_in changes
unfolding publish_gap_event publish_event
of_kind-opened now [] = refl
of_kind-opened now (opened pad well from to ∷ cs) = omega (arith, of_kind-opened now cs)
of_kind-opened now (healed pad well from to after_ms ∷ cs) = of_kind-opened now cs

of_kind-healed :
    (now : ℕ) (changes : List GapChange)
    → of_kind gap_healed (map (publish_gap_event now) changes) ≡ healed_in changes
unfolding publish_gap_event publish_event
of_kind-healed now [] = refl
of_kind-healed now (opened pad well from to ∷ cs) = of_kind-healed now cs
of_kind-healed now (healed pad well from to after_ms ∷ cs) = omega (arith, of_kind-healed now cs)

-- What one call of `observe` adds to the two counters, by the events that go out for it.
abbrev Counted : GapTracker → GapTracker → List Publication → Type 0
Counted before after sent =
    (after.opened ≡ (before.opened + of_kind gap_opened sent) % u64_mod)
    × (after.healed ≡ (before.healed + of_kind gap_healed sent) % u64_mod)

Counted-observe :
    (now : ℕ) (f : Frame) (gaps : GapTracker)
    → gaps.opened < u64_mod
    → gaps.healed < u64_mod
    → let (gaps', changes) = observe gaps f.pad f.well f.epoch f.seq now in
      Counted gaps gaps' (map (publish_gap_event now) changes)
Counted-observe now f gaps small_o small_h =
    let (_, changes) = observe gaps f.pad f.well f.epoch f.seq now in
    let (counted_o, counted_h) =
      observe-counted gaps f.pad f.well f.epoch f.seq now small_o small_h in
    (
      omega (arith, counted_o, of_kind-opened now changes),
      omega (arith, counted_h, of_kind-healed now changes),
    )

Counted-append :
    (a b c : GapTracker) (ps qs : List Publication)
    → Counted a b ps
    → Counted b c qs
    → Counted a c (ps ++ qs)
Counted-append a b c ps qs h k = (
  omega (arith, h.0, k.0, of_kind-append gap_opened ps qs),
  omega (arith, h.1, k.1, of_kind-append gap_healed ps qs),
)

-- The accounting of a flush tells the gap tracker of each frame of the batch, in its order, and the
-- events that go out for it are as many as the tracker's counters rise by, kind by kind, modulo 2 ^ 64:
-- so the snapshots and the events tell the same.
pub account_frames-observe_all :
    (h : Histogram) (now : ℕ) (fs : List Frame) (gaps : GapTracker) (hist : h.State)
    → gaps.opened < u64_mod
    → gaps.healed < u64_mod
    → let (gaps', hist', sent) = account_frames h now fs gaps hist in
      (gaps' ≡ observe_all now fs gaps)
      × (gaps'.opened ≡ (gaps.opened + of_kind gap_opened sent) % u64_mod)
      × (gaps'.healed ≡ (gaps.healed + of_kind gap_healed sent) % u64_mod)
unfolding account_frames observe_all
account_frames-observe_all h now [] gaps hist small_o small_h =
    (refl, omega (arith, small_o), omega (arith, small_h))
account_frames-observe_all h now (f ∷ fs) gaps hist small_o small_h =
    let step = Counted-observe now f gaps small_o small_h in
    let (gaps', changes) = observe gaps f.pad f.well f.epoch f.seq now in
    let hist' = h.saturating_record hist (latency now f) in
    let (after, _, sent) = account_frames h now fs gaps' hist' in
    let (same, rest_o, rest_h) =
      account_frames-observe_all h now fs gaps' hist' (omega (arith, step.0))
        (omega (arith, step.1)) in
    let (counted_o, counted_h) =
      Counted-append gaps gaps' after (map (publish_gap_event now) changes) sent step
        (rest_o, rest_h) in
    (same, counted_o, counted_h)
