-- ===== src/Edge/Faults.antt =====
-- crates/coldbore-edge/src/faults.rs and control.rs: the injectable fault state and the control
-- consumer that changes it. The mutex makes each call one step on the state.
pub mod Bounds
pub mod Down
mod Tests
use cold_bore.Base.{
  ℕ, zero, suc, ◌+◌, Bool, true, false, ◌&&◌, String, List, [], ◌∷◌, Option, none, some, Result, ok,
  err, if◌then◌else◌,
}
use cold_bore.Base.Map.{lookup, insert}
use cold_bore.Proto.Metrics.{Value, text, number, real, Payload}
use cold_bore.Proto.Float.{F64, f64_zero, f64_one}
use cold_bore.Proto.Control.{
  LinkState, up, down, ServiceId, edge, ingest, ControlCommand, link, dup, reorder, rate, topology,
  kill, reset, validate,
}

pub record FaultState : Type 0 where
  pub dup_rate : F64
  pub reorder_window : ℕ
  pub rate_multiplier : F64
  pub pads : ℕ
  pub wells_per_pad : ℕ
  pub links : List (ℕ × Bool)

-- `(first..).take(n).map(|p| (p, true)).collect()`
abbrev pub links_up : ℕ → ℕ → List (ℕ × Bool)
links_up first zero = []
links_up first (suc n) = (first, true) ∷ links_up (first + 1) n

-- `FaultState::healthy`
pub healthy : ℕ → ℕ → FaultState
healthy pads wells_per_pad = record {
  dup_rate = f64_zero;
  reorder_window = 0;
  rate_multiplier = f64_one;
  pads = pads;
  wells_per_pad = wells_per_pad;
  links = links_up 1 pads;
}

-- `FaultBox::link_up`: a pad with no entry is up.
abbrev pub up_by_default : Option Bool → Bool
up_by_default none = true
up_by_default (some b) = b

pub link_up : FaultState → ℕ → Bool
link_up st pad = up_by_default (lookup pad st.links)

-- `LinkState`, serialized in lower case.
abbrev pub state_text : LinkState → String
state_text up = "up"
state_text down = "down"

abbrev pub is_up : LinkState → Bool
is_up up = true
is_up down = false

-- `for p in first..first + n { links.entry(p).or_insert(true); }`
abbrev pub or_insert_up : ℕ → List (ℕ × Bool) → List (ℕ × Bool)
or_insert_up p links = elim (lookup p links) [ none ↦ insert p true links | some _ ↦ links ]

pub grow_links : ℕ → ℕ → List (ℕ × Bool) → List (ℕ × Bool)
grow_links first zero links = links
grow_links first (suc n) links = grow_links (first + 1) n (or_insert_up first links)

-- `FaultBox::apply`
pub apply : FaultState → ControlCommand → FaultState × Option Payload
unfolding healthy grow_links
apply st (link pad state) = (
  record st { links = insert pad (is_up state) st.links },
  some (("cmd", text "link") ∷ ("pad", number pad) ∷ ("state", text (state_text state)) ∷ []),
)
apply st (dup fraction) =
    (record st { dup_rate = fraction }, some (("cmd", text "dup") ∷ ("rate", real fraction) ∷ []))
apply st (reorder window) = (
  record st { reorder_window = window },
  some (("cmd", text "reorder") ∷ ("window", number window) ∷ []),
)
apply st (rate multiplier) = (
  record st { rate_multiplier = multiplier },
  some (("cmd", text "rate") ∷ ("multiplier", real multiplier) ∷ []),
)
apply st (topology pads wells_per_pad) = (
  record st { pads = pads; wells_per_pad = wells_per_pad; links = grow_links 1 pads st.links },
  some (
      ("cmd", text "topology")
      ∷ ("pads", number pads)
      ∷ ("wells_per_pad", number wells_per_pad)
      ∷ []),
)
apply st reset = (healthy st.pads st.wells_per_pad, some (("cmd", text "reset") ∷ []))
apply st (kill service) = (st, none)

-- What the control consumer does with one delivery: the next state, and what it publishes.
pub data Reaction : Type 0 where
  -- A warning is logged, and the delivery acked.
  ignored : Reaction
  applied : Payload → Reaction
  -- `service_stopping` is published, the delivery acked, and the process ends with status 3.
  exits : Reaction

abbrev pub reaction : FaultState × Option Payload → FaultState × Reaction
reaction (st, some payload) = (st, applied payload)
reaction (st, none) = (st, ignored)

pub react : FaultState → ControlCommand → FaultState × Reaction
unfolding apply
react st (kill edge) = (st, exits)
react st c = reaction (apply st c)

-- The body of the loop in `serve`, on the parsed delivery.
pub handle : {E : Type 0} → FaultState → Result ControlCommand E → FaultState × Reaction
handle st (err e) = (st, ignored)
handle st (ok c) = elim (validate c) [ ok _ ↦ react st c | err e ↦ (st, ignored) ]

-- Deliveries in order, until the process exits.
abbrev pub after_one : (FaultState → FaultState) → FaultState × Reaction → FaultState
after_one rest (st, exits) = st
after_one rest (st, _) = rest st

pub serve : {E : Type 0} → List (Result ControlCommand E) → FaultState → FaultState
serve [] st = st
serve (d ∷ ds) st = after_one (serve ds) (handle st d)
