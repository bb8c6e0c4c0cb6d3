-- ===== src/Proto/Topology.antt =====
-- crates/coldbore-proto/src/topology.rs: the broker's objects by name, and the calls that declare them.
pub mod Shared
use Prim.Native.String.{◌++◌ as ◌<>◌}
use cold_bore.Base.{ℕ, ◌≡◌, Bool, String, List, [], ◌∷◌, Result, ok, err, ◌>>=◌}

abbrev pub frames_exchange : String
frames_exchange = "cb.frames.x"

abbrev pub frames_queue : String
frames_queue = "cb.frames.q"

abbrev pub frames_binding : String
frames_binding = "frames.#"

abbrev pub frames_dlx : String
frames_dlx = "cb.frames.dlx"

abbrev pub frames_dlq : String
frames_dlq = "cb.frames.dlq"

abbrev pub frames_stream : String
frames_stream = "cb.frames.s"

abbrev pub control_exchange : String
control_exchange = "cb.control.x"

abbrev pub telemetry_exchange : String
telemetry_exchange = "cb.telemetry.x"

abbrev pub telemetry_api_queue : String
telemetry_api_queue = "cb.telemetry.api.q"

pub metrics_routing_key : String → String
metrics_routing_key service = "metrics." <> service

pub events_routing_key : String → String
events_routing_key kind = "events." <> kind

-- The client library's options and arguments; `default()` has every option false.
pub data ExchangeKind : Type 0 where
  topic fanout : ExchangeKind

pub record ExchangeDeclareOptions : Type 0 where
  pub passive : Bool
  pub durable : Bool
  pub auto_delete : Bool
  pub internal : Bool
  pub nowait : Bool

pub record QueueDeclareOptions : Type 0 where
  pub passive : Bool
  pub durable : Bool
  pub exclusive : Bool
  pub auto_delete : Bool
  pub nowait : Bool

pub data AmqpValue : Type 0 where
  long_string : String → AmqpValue
  long_long_int : ℕ → AmqpValue

abbrev pub FieldTable : Type 0
FieldTable = List (String × AmqpValue)

-- A call on a channel that declares an object.
pub data Declaration : Type 0 where
  exchange_declare : String → ExchangeKind → ExchangeDeclareOptions → FieldTable → Declaration
  queue_declare : String → QueueDeclareOptions → FieldTable → Declaration
  -- queue, exchange, routing key
  queue_bind : String → String → String → FieldTable → Declaration

-- The broker, which is not of this program: `Has` says that an object is there as it was declared.
-- A declaration that succeeds leaves the object there and removes none; one of an object that is
-- there, with the same arguments, succeeds and changes nothing.
pub record Broker : Type 1 where
  pub State : Type 0
  pub Error : Type 0
  pub Has : State → Declaration → Type 0
  pub declare : Declaration → State → Result State Error
  pub declares : (d : Declaration) (s s' : State) → declare d s ≡ ok s' → Has s' d
  pub keeps : (d d' : Declaration) (s s' : State) → declare d s ≡ ok s' → Has s d' → Has s' d'
  pub again : (d : Declaration) (s : State) → Has s d → declare d s ≡ ok s

-- Each call awaited, with `?`.
unfoldable pub declare_all : (b : Broker) → List Declaration → b.State → Result b.State b.Error
declare_all b [] s = ok s
declare_all b (d ∷ ds) s = b.declare d s >>= λ s'. declare_all b ds s'
