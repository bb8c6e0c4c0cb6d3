-- ===== src/Ingest/Topology/Agree.antt =====
-- The edge (crates/coldbore-edge/src/uplink.rs) and the ingest (crates/coldbore-ingest/src/consume.rs)
-- declare the same objects.
use cold_bore.Base.{◌≡◌, ok, []}
use cold_bore.Proto.Topology.{
  Broker, queue_declare, queue_bind, frames_queue, frames_exchange, frames_binding, frames_stream,
}
use cold_bore.Proto.Topology.Shared.{All-there, All-again}
use cold_bore.Edge.Topology as Edge
use cold_bore.Ingest.Topology as Ingest

module _ (b : Broker) where
  -- Once the edge has declared its topology, the ingest declares its own without an error and without
  -- changing the broker, so their arguments never clash; and the classic queue, dead-lettering to its
  -- exchange, and its binding and that of the stream are there before the ingest has ever run.
  pub declare_topology_shared :
      (s s' : b.State)
      → Edge.declare_topology b s ≡ ok s'
      → (Ingest.declare_topology b s' ≡ ok s')
        × b.Has s' (queue_declare frames_queue Ingest.durable_queue Ingest.args)
        × b.Has s' (queue_bind frames_queue frames_exchange frames_binding [])
        × b.Has s' (queue_bind frames_stream frames_exchange frames_binding [])
  unfolding Edge.declare_topology Ingest.declare_topology
  declare_topology_shared s s' h =
      let there = All-there b Edge.calls s s' h in
      (
        All-again b Ingest.calls s' there,
        there.1.1.1.1.1.1.0,
        there.1.1.1.1.1.1.1.0,
        there.1.1.1.1.1.1.1.1.1.0,
      )
