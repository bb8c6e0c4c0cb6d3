-- ===== src/Ingest/Counters.antt =====
-- crates/coldbore-ingest/src/telemetry.rs: the ingest's counters.
use cold_bore.Base.{ℕ}

pub record Counters : Type 0 where
  pub consumed : ℕ
  pub inserted : ℕ
  pub dup_dropped : ℕ
  pub poison : ℕ
  pub redeliveries : ℕ
  pub batches : ℕ

abbrev pub zeros : Counters
zeros = record {
  consumed = 0;
  inserted = 0;
  dup_dropped = 0;
  poison = 0;
  redeliveries = 0;
  batches = 0;
}
