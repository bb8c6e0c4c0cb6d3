-- ===== src/Edge/Counters.antt =====
-- crates/coldbore-edge/src/telemetry.rs: the edge's counters. `fetch_add` wraps at 2 ^ 64.
use cold_bore.Base.{ℕ}

pub record Counters : Type 0 where
  pub generated : ℕ
  pub published : ℕ
  pub confirmed : ℕ
  pub retransmits : ℕ
  pub buffered : ℕ
  pub buffer_dropped : ℕ
  pub dup_injected : ℕ

abbrev pub zeros : Counters
zeros = record {
  generated = 0;
  published = 0;
  confirmed = 0;
  retransmits = 0;
  buffered = 0;
  buffer_dropped = 0;
  dup_injected = 0;
}
