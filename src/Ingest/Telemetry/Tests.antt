-- ===== src/Ingest/Telemetry/Tests.antt =====
-- Runs of crates/coldbore-ingest/src/telemetry.rs: a lost frame, then the late one.
use cold_bore.Base.{
  add64, sub64, ℕ, ◌+◌, ◌%◌, ◌≡◌, ◌↔◌, ◌⊎◌, some, refl, Bool, true, false, List, [], ◌∷◌, All, none,
  arith, u64_mod,
}
use cold_bore.Proto.Float.{as_f64}
use cold_bore.Proto.Frame.{Frame}
use cold_bore.Proto.Metrics.{gap_opened, gap_healed, number, event}
use cold_bore.Ingest.Counters.{zeros}
use cold_bore.Ingest.Gap
use cold_bore.Ingest.Gap.{opened}
use cold_bore.Ingest.Sink.Samples.{sample}
use cold_bore.Ingest.Consume.{observe_all}
use cold_bore.Ingest.Telemetry.{
  Histogram, publish_event, publish_gap_event, account_frames, publish_metrics,
}
use cold_bore.Ingest.Telemetry.Events.{of_kind, account_frames-observe_all}
use cold_bore.Ingest.Telemetry.Latency.{after_flushes, published_e2e, publish_metrics-flushed}

abbrev no_values : List ℕ → Bool
no_values [] = true
no_values (_ ∷ _) = false

abbrev newest_value : List ℕ → ℕ
newest_value [] = 0
newest_value (v ∷ _) = v

-- It keeps every value, and answers each quantile with the newest.
abbrev values : Histogram
values = record {
  State = List ℕ;
  new = [];
  is_empty = no_values;
  value_at_quantile = λ s q. newest_value s;
  max = newest_value;
  saturating_record = λ s v. v ∷ s;
  reset = λ s. [];
  new_empty = refl;
  record_fills = λ s v. refl;
  reset_empties = λ s. refl;
}

-- Numbers 2 to 4 are three.
span_of_three :
    (publish_gap_event 9 (opened 1 2 2 4)).body
    ≡ event record {
      kind = "gap_opened";
      service = "ingest";
      t_ms = 9;
      payload =
          ("pad", number 1)
          ∷ ("well", number 2)
          ∷ ("from", number 2)
          ∷ ("to", number 4)
          ∷ ("span", number 3)
          ∷ [];
    }
unfolding publish_gap_event publish_event add64 sub64
span_of_three = refl

abbrev two_then_one : List Frame
two_then_one = sample 2 ∷ sample 1 ∷ []

account_frames-observe_all_example :
    let (gaps, hist, sent) = account_frames values 5 two_then_one Gap.new [] in
    (gaps ≡ observe_all 5 two_then_one Gap.new)
    × (gaps.opened ≡ (0 + of_kind gap_opened sent) % u64_mod)
    × (gaps.healed ≡ (0 + of_kind gap_healed sent) % u64_mod)
account_frames-observe_all_example =
    account_frames-observe_all values 5 two_then_one Gap.new [] (omega arith) (omega arith)

abbrev flushes : List (ℕ × List Frame)
flushes = (5, two_then_one) ∷ (7, sample 3 ∷ []) ∷ []

publish_metrics-flushed_example :
    let flushed = after_flushes values flushes Gap.new [] in
    let (sent, left) = publish_metrics values 8 "classic" zeros Gap.new flushed none in
    ((published_e2e sent.body ≡ none) ↔ All (λ b. b.1 ≡ []) flushes)
    × ((published_e2e sent.body ≡ none)
        ⊎ (published_e2e sent.body
            ≡ some record {
              p50_ms = as_f64 (newest_value flushed);
              p95_ms = as_f64 (newest_value flushed);
              p99_ms = as_f64 (newest_value flushed);
              max_ms = as_f64 (newest_value flushed);
            }))
    × (values.is_empty left ≡ true)
publish_metrics-flushed_example =
    publish_metrics-flushed values flushes Gap.new [] 8 "classic" zeros Gap.new none refl
