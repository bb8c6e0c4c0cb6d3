-- ===== src/Proto/Metrics.antt =====
-- crates/coldbore-proto/src/metrics.rs: the snapshots and events of the telemetry plane.
use cold_bore.Base.{ℕ, Bool, String, List, Option}
use cold_bore.Proto.Float.{F64}

pub record LatencyPercentiles : Type 0 where
  pub p50_ms : F64
  pub p95_ms : F64
  pub p99_ms : F64
  pub max_ms : F64

pub record EdgeMetrics : Type 0 where
  pub service : String
  pub t_ms : ℕ
  pub generated : ℕ
  pub published : ℕ
  pub confirmed : ℕ
  pub retransmits : ℕ
  pub buffered : ℕ
  pub buffer_dropped : ℕ
  pub dup_injected : ℕ
  pub rate_hz : F64
  pub pads : ℕ
  pub wells_per_pad : ℕ
  -- By pad: is the link up?
  pub links : List (ℕ × Bool)

pub record IngestMetrics : Type 0 where
  pub service : String
  pub t_ms : ℕ
  pub mode : String
  pub consumed : ℕ
  pub inserted : ℕ
  pub dup_dropped : ℕ
  pub poison : ℕ
  pub redeliveries : ℕ
  pub batches : ℕ
  pub open_gaps : ℕ
  pub gaps_opened : ℕ
  pub gaps_healed : ℕ
  pub e2e : Option LatencyPercentiles
  pub committed_offset : Option ℕ

-- A JSON object, as `json!` builds them for the payload of an event.
pub data Value : Type 0 where
  text : String → Value
  number : ℕ → Value
  real : F64 → Value

abbrev pub Payload : Type 0
Payload = List (String × Value)

pub record Event : Type 0 where
  pub kind : String
  pub service : String
  pub t_ms : ℕ
  pub payload : Payload

-- `event_kind`
abbrev pub gap_opened : String
gap_opened = "gap_opened"

abbrev pub gap_healed : String
gap_healed = "gap_healed"

-- What a publish on the telemetry exchange carries.
pub data Body : Type 0 where
  event : Event → Body
  edge_metrics : EdgeMetrics → Body
  ingest_metrics : IngestMetrics → Body

pub record Publication : Type 0 where
  pub exchange : String
  pub routing_key : String
  pub body : Body
