-- ===== src/Edge.antt =====
-- crates/coldbore-edge: the field side of the pipeline.
pub mod Faults
pub mod Topology
pub mod Sim
pub mod Counters
pub mod Main
pub mod Message
pub mod Telemetry
pub mod Uplink
pub mod UplinkStream
