-- ===== src/Ingest/Telemetry/Latency.antt =====
-- The latency percentiles of a snapshot of crates/coldbore-ingest/src/telemetry.rs.
use cold_bore.Base.{
  ℕ, ◌≡◌, ◌≢◌, refl, true, false, String, List, [], ◌∷◌, Option, none, some, ◌⊎◌, ◌↔◌, inl, inr,
  All,
}
use cold_bore.Proto.Frame.{Frame}
use cold_bore.Proto.Float.{as_f64}
use cold_bore.Proto.Metrics.{LatencyPercentiles, Body, event, edge_metrics, ingest_metrics}
use cold_bore.Ingest.Counters.{Counters}
use cold_bore.Ingest.Gap.{GapTracker, observe}
use cold_bore.Ingest.Telemetry.{
  Histogram, account_frames, percentiles, snapshot, publish_metrics, latency, median, quantile95,
  quantile99,
}

-- The percentiles of a snapshot that went out.
abbrev pub published_e2e : Body → Option LatencyPercentiles
published_e2e (event e) = none
published_e2e (edge_metrics m) = none
published_e2e (ingest_metrics m) = m.e2e

module _ (h : Histogram) where
  -- The histogram after the batches that were flushed at these times, from a tracker on.
  abbrev pub after_flushes : List (ℕ × List Frame) → GapTracker → h.State → h.State
  after_flushes [] gaps hist = hist
  after_flushes ((now, fs) ∷ batches) gaps hist =
      let (gaps', hist', sent) = account_frames h now fs gaps hist in
      after_flushes batches gaps' hist'

  filled :
      (now : ℕ) (fs : List Frame) (gaps : GapTracker) (hist : h.State)
      → h.is_empty hist ≡ false
      → h.is_empty (account_frames h now fs gaps hist).1 ≡ false
  unfolding account_frames
  filled now [] gaps hist full = full
  filled now (f ∷ fs) gaps hist full =
      filled now fs (observe gaps f.pad f.well f.epoch f.seq now).0
        (h.saturating_record hist (latency now f)) (h.record_fills hist (latency now f))

  after_flushes-full :
      (batches : List (ℕ × List Frame)) (gaps : GapTracker) (hist : h.State)
      → h.is_empty hist ≡ false
      → h.is_empty (after_flushes batches gaps hist) ≡ false
  after_flushes-full [] gaps hist full = full
  after_flushes-full ((now, fs) ∷ batches) gaps hist full =
      after_flushes-full batches _ _ (filled now fs gaps hist full)

  abbrev Nothing : List (ℕ × List Frame) → Type 0
  Nothing batches = All (λ b. b.1 ≡ []) batches

  after_flushes-cases :
      (batches : List (ℕ × List Frame)) (gaps : GapTracker) (hist : h.State)
      → h.is_empty hist ≡ true
      → ((h.is_empty (after_flushes batches gaps hist) ≡ true) × Nothing batches)
        ⊎ ((h.is_empty (after_flushes batches gaps hist) ≡ false) × (Nothing batches → ⊥))
  unfolding account_frames
  after_flushes-cases [] gaps hist empty = inl (empty, tt)
  after_flushes-cases ((now, []) ∷ batches) gaps hist empty =
      elim (after_flushes-cases batches gaps hist empty) [
        | inl (left, none_there) ↦ inl (left, (refl, none_there))
        | inr (left, some_there) ↦ inr (left, λ nothing. some_there nothing.1)
      ]
  after_flushes-cases ((now, f ∷ fs) ∷ batches) gaps hist empty = inr (
    after_flushes-full batches _ _ (
        filled now fs (observe gaps f.pad f.well f.epoch f.seq now).0
          (h.saturating_record hist (latency now f)) (h.record_fills hist (latency now f))),
    λ nothing. cons≢nil nothing.0,
  )
    where
      cons≢nil : f ∷ fs ≢ []
      cons≢nil q = cc

  -- From an empty histogram, as each snapshot leaves it: the next snapshot that goes out has latency
  -- percentiles exactly if a frame was flushed in between, they are then the quantiles and the maximum
  -- of the histogram in which these frames were recorded, and the histogram is left empty again.
  pub publish_metrics-flushed :
      (batches : List (ℕ × List Frame)) (gaps : GapTracker) (hist : h.State) (now : ℕ)
      (mode : String) (counters : Counters) (gaps_then : GapTracker) (committed_offset : Option ℕ)
      → h.is_empty hist ≡ true
      → let flushed = after_flushes batches gaps hist in
        let (sent, left) = publish_metrics h now mode counters gaps_then flushed committed_offset in
        ((published_e2e sent.body ≡ none) ↔ All (λ b. b.1 ≡ []) batches)
        × ((published_e2e sent.body ≡ none)
            ⊎ (published_e2e sent.body
                ≡ some record {
                  p50_ms = as_f64 (h.value_at_quantile flushed median);
                  p95_ms = as_f64 (h.value_at_quantile flushed quantile95);
                  p99_ms = as_f64 (h.value_at_quantile flushed quantile99);
                  max_ms = as_f64 (h.max flushed);
                }))
        × (h.is_empty left ≡ true)
  unfolding snapshot publish_metrics percentiles
  publish_metrics-flushed batches gaps hist now mode counters gaps_then committed_offset empty =
      let left_empty = h.reset_empties (after_flushes batches gaps hist) in
      elim (after_flushes-cases batches gaps hist empty) [
        | inl (left, none_there) ↦ rw left (((λ _. none_there), λ _. refl), inl refl, left_empty)
        | inr (left, some_there) ↦
            rw left (((λ q. cc), λ n. absurd (some_there n)), inr refl, left_empty)
      ]
