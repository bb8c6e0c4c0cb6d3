-- ===== src/Ingest.antt =====
-- crates/coldbore-ingest: the consumer side of the pipeline.
pub mod Gap
pub mod Topology
pub mod Sink
pub mod Counters
pub mod Telemetry
pub mod Control
pub mod Consume
pub mod ConsumeStream
pub mod Main
