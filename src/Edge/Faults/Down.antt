-- ===== src/Edge/Faults/Down.antt =====
-- The commands of crates/coldbore-edge/src/control.rs that leave a severed link down.
use cold_bore.Base.{
  ℕ, ◌≡◌, ap, ◌∙◌, false, List, [], ◌∷◌, Result, ok, err, All, inl, inr, check-cases,
}
use cold_bore.Proto.Control.{ControlCommand, validate}
use cold_bore.Edge.Faults.{
  FaultState, Reaction, ignored, applied, exits, link_up, react, handle, after_one, serve,
}
use cold_bore.Edge.Faults.Bounds.{link_after, link_up-apply, reaction_state}

-- A delivery that does not bring the pad's link up.
abbrev pub LeavesDown : {E : Type 0} → ℕ → Result ControlCommand E → Type 0
LeavesDown pad (err e) = Unit
LeavesDown pad (ok c) = link_after c pad false ≡ false

react_down :
    (st : FaultState) (c : ControlCommand) (pad : ℕ)
    → link_up st pad ≡ false
    → link_after c pad false ≡ false
    → link_up (react st c).0 pad ≡ false
react_down st c pad down leaves =
    ap (λ s. link_up s pad) (reaction_state st c)
    ∙ link_up-apply st c pad
    ∙ ap (link_after c pad) down
    ∙ leaves

handle_down :
    {E : Type 0} (st : FaultState) (d : Result ControlCommand E) (pad : ℕ)
    → link_up st pad ≡ false
    → LeavesDown pad d
    → link_up (handle st d).0 pad ≡ false
unfolding handle
handle_down st (err e) pad down leaves = down
handle_down st (ok c) pad down leaves = elim (check-cases (validate c)) [
  | inl e ↦ rw (e, handle) (react_down st c pad down leaves)
  | inr (_, e) ↦ rw (e, handle) down
]

after_one_down :
    (rest : FaultState → FaultState) (r : FaultState × Reaction) (pad : ℕ)
    → ((st : FaultState) → link_up st pad ≡ false → link_up (rest st) pad ≡ false)
    → link_up r.0 pad ≡ false
    → link_up (after_one rest r) pad ≡ false
after_one_down rest (st, ignored) pad k down = k st down
after_one_down rest (st, applied payload) pad k down = k st down
after_one_down rest (st, exits) pad k down = down

pub serve_down :
    {E : Type 0} (ds : List (Result ControlCommand E)) (st : FaultState) (pad : ℕ)
    → link_up st pad ≡ false
    → All (LeavesDown pad) ds
    → link_up (serve ds st) pad ≡ false
unfolding serve
serve_down [] st pad down leaves = down
serve_down (d ∷ ds) st pad down (here, there) =
    after_one_down (serve ds) (handle st d) pad (λ st' down'. serve_down ds st' pad down' there)
      (handle_down st d pad down here)
