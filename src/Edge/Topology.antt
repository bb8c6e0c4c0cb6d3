-- ===== src/Edge/Topology.antt =====
-- crates/coldbore-edge/src/uplink.rs: `declare_topology`.
use cold_bore.Base.{true, false, List, [], ◌∷◌, Result}
use cold_bore.Proto.Topology.{
  frames_exchange, frames_queue, frames_binding, frames_dlx, frames_dlq, frames_stream,
  control_exchange, telemetry_exchange, topic, fanout, ExchangeDeclareOptions, QueueDeclareOptions,
  FieldTable, long_string, long_long_int, Declaration, exchange_declare, queue_declare, queue_bind,
  Broker, declare_all,
}

abbrev pub durable : ExchangeDeclareOptions
durable = record {
  passive = false;
  durable = true;
  auto_delete = false;
  internal = false;
  nowait = false;
}

abbrev pub durable_queue : QueueDeclareOptions
durable_queue = record {
  passive = false;
  durable = true;
  exclusive = false;
  auto_delete = false;
  nowait = false;
}

-- `args` and `stream_args`
abbrev pub args : FieldTable
args = ("x-dead-letter-exchange", long_string frames_dlx) ∷ []

abbrev pub stream_args : FieldTable
stream_args =
    ("x-queue-type", long_string "stream") ∷ ("x-max-length-bytes", long_long_int 2000000000) ∷ []

-- The calls of `declare_topology`, in order; each is awaited, and the first error returns.
abbrev pub calls : List Declaration
calls =
    exchange_declare frames_exchange topic durable []
    ∷ exchange_declare control_exchange fanout durable []
    ∷ exchange_declare telemetry_exchange topic durable []
    ∷ exchange_declare frames_dlx fanout durable []
    ∷ queue_declare frames_dlq durable_queue []
    ∷ queue_bind frames_dlq frames_dlx "" []
    ∷ queue_declare frames_queue durable_queue args
    ∷ queue_bind frames_queue frames_exchange frames_binding []
    ∷ queue_declare frames_stream durable_queue stream_args
    ∷ queue_bind frames_stream frames_exchange frames_binding []
    ∷ []

-- `declare_topology`
unfoldable pub declare_topology : (b : Broker) → b.State → Result b.State b.Error
declare_topology b s = declare_all b calls s
