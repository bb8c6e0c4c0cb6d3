-- ===== src/Ingest/Topology/Tests.antt =====
-- The declarations against a broker that knows objects by their names.
use cold_bore.Base.{
  ℕ, ◌≡◌, refl, inl, inr, Bool, true, false, ◌&&◌, ◌||◌, String, List, [], ◌∷◌, Result, ok, ◌==◌,
  if◌then◌else◌, Bool-cases, arith,
}
use text.Mathlib.Text as Text
use text.Mathlib.TextPositions.{eq_refl}
use cold_bore.Proto.Topology.{
  Broker, Declaration, exchange_declare, queue_declare, queue_bind, frames_queue, frames_exchange,
  frames_binding, frames_stream, declare_all,
}
use cold_bore.Edge.Topology as Edge
use cold_bore.Ingest.Topology as Ingest
use cold_bore.Ingest.Topology.Agree.{declare_topology_shared}

abbrev Key : Type 0
Key = ℕ × String × String

abbrev key : Declaration → Key
key (exchange_declare x kind options table) = (0, x, "")
key (queue_declare q options table) = (1, q, "")
key (queue_bind q x routing table) = (2, q, x)

abbrev same : Key → Key → Bool
same a b = a.0 == b.0 && Text.◌==◌ a.1 b.1 && Text.◌==◌ a.2 b.2

same_refl : (k : Key) → same k k ≡ true
same_refl k = rw (eq_refl k.1, eq_refl k.2) (ground arith)

abbrev has : List Declaration → Declaration → Bool
has [] d = false
has (c ∷ s) d = same (key d) (key c) || has s d

declare : Declaration → List Declaration → Result (List Declaration) (Unit {0})
declare d s = if has s d then ok s else ok (d ∷ s)

declares : (d : Declaration) (s s' : List Declaration) → declare d s ≡ ok s' → has s' d ≡ true
unfolding declare
declares d s s' h = elim (Bool-cases (has s d)) [
  | inl e ↦ ground arith
  | inr e ↦ ground (arith, same_refl (key d))
]

keeps :
    (d d' : Declaration) (s s' : List Declaration)
    → declare d s ≡ ok s'
    → has s d' ≡ true
    → has s' d' ≡ true
unfolding declare
keeps d d' s s' h there = elim (Bool-cases (has s d)) [
  | inl e ↦ ground arith
  | inr e ↦ ground arith
]

again : (d : Declaration) (s : List Declaration) → has s d ≡ true → declare d s ≡ ok s
unfolding declare
again d s there = rw there refl

abbrev broker : Broker
broker = record {
  State = List Declaration;
  Error = Unit {0};
  Has = λ s d. has s d ≡ true;
  declare = declare;
  declares = declares;
  keeps = keeps;
  again = again;
}

abbrev pile : List Declaration → List Declaration → List Declaration
pile [] s = s
pile (d ∷ ds) s = pile ds (d ∷ s)

abbrev after_edge : List Declaration
after_edge = pile Edge.calls []

edge_declares : Edge.declare_topology broker [] ≡ ok after_edge
unfolding Edge.declare_topology declare_all declare
edge_declares = refl

declare_topology_shared_example :
    (Ingest.declare_topology broker after_edge ≡ ok after_edge)
    × (has after_edge (queue_declare frames_queue Ingest.durable_queue Ingest.args) ≡ true)
    × (has after_edge (queue_bind frames_queue frames_exchange frames_binding []) ≡ true)
    × (has after_edge (queue_bind frames_stream frames_exchange frames_binding []) ≡ true)
declare_topology_shared_example = declare_topology_shared broker [] after_edge edge_declares
