-- ===== src/Ingest/Control.antt =====
-- crates/coldbore-ingest/src/control.rs: the consumer of control commands, of which only `kill` is for
-- the ingest.
mod Tests
use cold_bore.Base.{
  ℕ, ◌≡◌, ◌↔◌, ◌≢◌, ◌∙◌, refl, Bool, true, false, String, List, [], ◌∷◌, ◌++◌, Option, none, some,
  Result, ok, err, if◌then◌else◌, All, arith, ap, Bool-cases, inl, inr,
}
use cold_bore.Proto.Control.{ControlCommand, kill, edge, ingest}
use cold_bore.Proto.Topology.{
  QueueDeclareOptions, Declaration, queue_declare, queue_bind, control_exchange,
}

-- The calls of `serve` before its loop; the broker names the queue.
pub declare_queue : String → List Declaration
declare_queue name =
    queue_declare ""
      (record {
        passive = false;
        durable = false;
        exclusive = true;
        auto_delete = true;
        nowait = false;
      })
      []
    ∷ queue_bind name control_exchange "" []
    ∷ []

-- What the consumer yields: an error, or a delivery as serde_json reads it, with whether its ack is
-- taken by the broker.
pub data Next : Type 0 where
  failed : Next
  got : Option ControlCommand → Bool → Next

pub data Outcome : Type 0 where
  -- The stream ended.
  ended : Outcome
  -- An error, which `run` logs; the ingest goes on without a control consumer.
  stopped : Outcome
  -- `std::process::exit`
  exited : ℕ → Outcome

abbrev pub kills_ingest : Option ControlCommand → Bool
kills_ingest (some (kill ingest)) = true
kills_ingest _ = false

-- The loop of `serve`.
pub serve : List Next → Outcome
serve [] = ended
serve (failed ∷ ds) = stopped
serve (got command acked ∷ ds) =
    let rest = serve ds in
    if kills_ingest command then exited 3 else if acked then rest else stopped

-- A delivery behind which the loop goes on.
abbrev pub Passed : Next → Type 0
Passed failed = ⊥
Passed (got command acked) = (kills_ingest command ≡ false) × (acked ≡ true)

abbrev pub KilledBy : List Next → Type 0
KilledBy ds =
    (before : List Next) × (acked : Bool) × (after : List Next) × (ds
      ≡ before ++ got (some (kill ingest)) acked ∷ after)
    × All Passed before

kills_ingest-only : (c : Option ControlCommand) → kills_ingest c ≡ true → c ≡ some (kill ingest)
kills_ingest-only (some (kill ingest)) h = refl
kills_ingest-only _ h = cc

serve-KilledBy : (ds : List Next) → serve ds ≡ exited 3 → KilledBy ds
unfolding serve
serve-KilledBy [] h = cc
serve-KilledBy (failed ∷ ds) h = cc
serve-KilledBy (got command acked ∷ ds) h = elim (Bool-cases (kills_ingest command)) [
  | inl is_kill ↦
      ([], acked, ds, ap (λ c. got c acked ∷ ds) (kills_ingest-only command is_kill), tt)
  | inr passes ↦ elim (Bool-cases acked) [
    | inl taken ↦
        let (before, last, after, split, passed) = serve-KilledBy ds (rw (passes, taken) at h) in
        (
          got command acked ∷ before,
          last,
          after,
          ap (λ rest. got command acked ∷ rest) split,
          ((passes, taken), passed),
        )
    | inr refused ↦ absurd (stopped_only (rw (passes, refused) at h))
  ]
]
  where
    stopped_only : stopped ≢ exited 3
    stopped_only q = cc

KilledBy-serve :
    (before : List Next) (acked : Bool) (after : List Next)
    → All Passed before
    → serve (before ++ got (some (kill ingest)) acked ∷ after) ≡ exited 3
unfolding serve
KilledBy-serve [] acked after h = refl
KilledBy-serve (failed ∷ ds) acked after h = absurd h.0
KilledBy-serve (got command ack ∷ ds) acked after h =
    rw (h.0.0, h.0.1) (KilledBy-serve ds acked after h.1)

-- The control consumer ends the process, with status 3, exactly if a kill command for the ingest
-- arrives behind deliveries that are none and whose acks the broker took; no other command and no
-- malformed one ends it.
pub serve-exited : (ds : List Next) → (serve ds ≡ exited 3) ↔ KilledBy ds
serve-exited ds = (
  serve-KilledBy ds,
  λ k.
      let (before, acked, after, split, passed) = k in
      ap serve split ∙ KilledBy-serve before acked after passed,
)
