-- ===== src/Proto.antt =====
-- crates/coldbore-proto: the vocabulary that the edge and the ingest share.
pub mod Float
pub mod Frame
pub mod Topology
pub mod Control
pub mod Metrics
pub mod Config
mod Tests
