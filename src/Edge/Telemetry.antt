-- ===== src/Edge/Telemetry.antt =====
-- crates/coldbore-edge/src/telemetry.rs: the events and the snapshots of the edge. The product of two
-- f64 is a parameter; whether a publish arrives is the environment's choice.
use cold_bore.Base.{ℕ, String, List, [], ◌∷◌}
use cold_bore.Proto.Float.{F64}
use cold_bore.Proto.Topology.{telemetry_exchange, events_routing_key, metrics_routing_key}
use cold_bore.Proto.Config.{EdgeConfig}
use cold_bore.Proto.Metrics.{EdgeMetrics, Payload, Publication, Body, event, edge_metrics}
use cold_bore.Edge.Counters.{Counters}
use cold_bore.Edge.Faults.{FaultState}

-- `publish_json`: what goes out.
abbrev pub publish_json : String → Body → Publication
publish_json routing_key body = record {
  exchange = telemetry_exchange;
  routing_key = routing_key;
  body = body;
}

-- `publish_event`
pub publish_event : ℕ → String → String → Payload → Publication
publish_event now kind service payload =
    publish_json (events_routing_key kind)
      (event record { kind = kind; service = service; t_ms = now; payload = payload })

-- How the publish of a snapshot ends: in time, with an error, or not within five seconds.
pub data Sent : Type 0 where
  arrived failed timed_out : Sent

-- A tick of the interval: the clock, and what is read of the counters and the fault state.
pub record Tick : Type 0 where
  pub now : ℕ
  pub counters : Counters
  pub faults : FaultState
  pub sent : Sent

module _ (mul : F64 → F64 → F64) (cfg : EdgeConfig) where
  pub snapshot : ℕ → Counters → FaultState → EdgeMetrics
  snapshot now counters f = record {
    service = "edge";
    t_ms = now;
    generated = counters.generated;
    published = counters.published;
    confirmed = counters.confirmed;
    retransmits = counters.retransmits;
    buffered = counters.buffered;
    buffer_dropped = counters.buffer_dropped;
    dup_injected = counters.dup_injected;
    rate_hz = mul cfg.rate_hz f.rate_multiplier;
    pads = f.pads;
    wells_per_pad = f.wells_per_pad;
    links = f.links;
  }

  abbrev go_on : Sent → List Publication → List Publication
  go_on arrived rest = rest
  go_on failed rest = []
  go_on timed_out rest = []

  -- `metrics_task`: a snapshot at each tick, until one does not go out.
  pub metrics_task : List Tick → List Publication
  unfolding snapshot
  metrics_task [] = []
  metrics_task (tick ∷ ticks) =
      publish_json (metrics_routing_key "edge")
        (edge_metrics (snapshot tick.now tick.counters tick.faults))
      ∷ go_on tick.sent (metrics_task ticks)
