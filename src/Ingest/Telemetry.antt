-- ===== src/Ingest/Telemetry.antt =====
-- crates/coldbore-ingest/src/telemetry.rs: what the ingest publishes, and where its loops call that.
-- Whether a publish arrives is the environment's choice; nothing reads it back.
pub mod Events
pub mod Latency
mod Tests
use cold_bore.Base.{
  ℕ, ◌+◌, ◌-◌, ◌≡◌, Bool, true, false, String, List, [], ◌∷◌, ◌++◌, map, Option, none, some, ltb,
  if◌then◌else◌, add64, sub64,
}
use cold_bore.Proto.Float.{F64, as_f64}
use cold_bore.Proto.Frame.{Frame}
use cold_bore.Proto.Topology.{telemetry_exchange, events_routing_key, metrics_routing_key}
use cold_bore.Proto.Metrics.{
  LatencyPercentiles, IngestMetrics, Payload, number, gap_opened, gap_healed, event, ingest_metrics,
  Publication,
}
use cold_bore.Ingest.Counters.{Counters}
use cold_bore.Ingest.Gap.{GapTracker, GapChange, opened, healed, open_now, observe}

-- `publish_event`: what goes out.
pub publish_event : ℕ → String → Payload → Publication
publish_event now kind payload = record {
  exchange = telemetry_exchange;
  routing_key = events_routing_key kind;
  body = event record { kind = kind; service = "ingest"; t_ms = now; payload = payload };
}

-- `to - from + 1`
abbrev pub span : ℕ → ℕ → ℕ
span from to = add64 (sub64 to from) 1

abbrev pub range_payload : ℕ → ℕ → ℕ → ℕ → Payload
range_payload pad well from to =
    ("pad", number pad)
    ∷ ("well", number well)
    ∷ ("from", number from)
    ∷ ("to", number to)
    ∷ ("span", number (span from to))
    ∷ []

-- `publish_gap_event`
pub publish_gap_event : ℕ → GapChange → Publication
publish_gap_event now (opened pad well from to) =
    publish_event now gap_opened (range_payload pad well from to)
publish_gap_event now (healed pad well from to after_ms) =
    publish_event now gap_healed
      (range_payload pad well from to ++ ("after_ms", number after_ms) ∷ [])

-- hdrhistogram's `Histogram<u64>`, which is not of this program: a recorded value makes it non-empty,
-- a reset empties it.
pub record Histogram : Type 1 where
  pub State : Type 0
  pub new : State
  pub is_empty : State → Bool
  pub value_at_quantile : State → F64 → ℕ
  pub max : State → ℕ
  pub saturating_record : State → ℕ → State
  pub reset : State → State
  pub new_empty : is_empty new ≡ true
  pub record_fills : (s : State) (value : ℕ) → is_empty (saturating_record s value) ≡ false
  pub reset_empties : (s : State) → is_empty (reset s) ≡ true

-- 0.50, 0.95, 0.99
abbrev pub median : F64
median = record { bits = 0x3fe0_0000_0000_0000 }

abbrev pub quantile95 : F64
quantile95 = record { bits = 0x3fee_6666_6666_6666 }

abbrev pub quantile99 : F64
quantile99 = record { bits = 0x3fef_ae14_7ae1_47ae }

-- `now.saturating_sub(frame.t_ms).max(1)`
abbrev pub latency : ℕ → Frame → ℕ
latency now f = if ltb (now - f.t_ms) 1 then 1 else now - f.t_ms

module _ (h : Histogram) where
  pub percentiles : h.State → Option LatencyPercentiles
  percentiles hist =
      if h.is_empty hist
      then none
      else some record {
        p50_ms = as_f64 (h.value_at_quantile hist median);
        p95_ms = as_f64 (h.value_at_quantile hist quantile95);
        p99_ms = as_f64 (h.value_at_quantile hist quantile99);
        max_ms = as_f64 (h.max hist);
      }

  -- The snapshot of `publish_metrics`.
  pub snapshot : ℕ → String → Counters → GapTracker → h.State → Option ℕ → IngestMetrics
  unfolding percentiles
  snapshot now mode counters gaps hist committed_offset = record {
    service = "ingest";
    t_ms = now;
    mode = mode;
    consumed = counters.consumed;
    inserted = counters.inserted;
    dup_dropped = counters.dup_dropped;
    poison = counters.poison;
    redeliveries = counters.redeliveries;
    batches = counters.batches;
    open_gaps = open_now gaps;
    gaps_opened = gaps.opened;
    gaps_healed = gaps.healed;
    e2e = percentiles hist;
    committed_offset = committed_offset;
  }

  -- `publish_metrics`: what goes out, and the histogram that is left.
  pub publish_metrics :
      ℕ → String → Counters → GapTracker → h.State → Option ℕ → Publication × h.State
  unfolding snapshot
  publish_metrics now mode counters gaps hist committed_offset = (
    record {
      exchange = telemetry_exchange;
      routing_key = metrics_routing_key "ingest";
      body = ingest_metrics (snapshot now mode counters gaps hist committed_offset);
    },
    h.reset hist,
  )

  -- The loop over the batch of `flush`, in both modes: the latency is recorded, the gap tracker is told,
  -- and an event goes out for each change that it reports.
  pub account_frames :
      ℕ → List Frame → GapTracker → h.State → GapTracker × h.State × List Publication
  account_frames now [] gaps hist = (gaps, hist, [])
  account_frames now (f ∷ fs) gaps hist =
      let (gaps', changes) = observe gaps f.pad f.well f.epoch f.seq now in
      let (gaps'', hist', sent) =
        account_frames now fs gaps' (h.saturating_record hist (latency now f)) in
      (gaps'', hist', map (publish_gap_event now) changes ++ sent)
