-- ===== src/Edge/Faults/Bounds.antt =====
-- What the control plane can do to the fault state of crates/coldbore-edge/src/faults.rs.
use cold_bore.Base.{
  ℕ, zero, suc, ◌+◌, ◌≡◌, refl, ◌∙◌, inl, inr, Bool, true, List, [], ◌∷◌, Result, ok, err, ◌==◌,
  if◌then◌else◌, Option-cases, check-cases, All, arith,
}
use cold_bore.Base.Map.{lookup, lookup-insert}
use cold_bore.Proto.Control.{
  edge, ingest, ControlCommand, link, dup, reorder, rate, topology, kill, reset, validate, InBounds,
  IsWord, validate-InBounds,
}
use cold_bore.Edge.Faults.{
  FaultState, links_up, link_up, up_by_default, is_up, or_insert_up, grow_links, apply, react,
  handle, serve, after_one, Reaction, exits, ignored, applied,
}

lookup-links_up : (pad first n : ℕ) → up_by_default (lookup pad (links_up first n)) ≡ true
lookup-links_up pad first zero = refl
lookup-links_up pad first (suc n) = ground (arith, lookup-links_up pad (first + 1) n)

or_insert_up-up :
    (pad p : ℕ) (links : List (ℕ × Bool))
    → up_by_default (lookup pad (or_insert_up p links)) ≡ up_by_default (lookup pad links)
or_insert_up-up pad p links = elim (Option-cases (lookup p links)) [
  | inl e ↦ rw (e, or_insert_up) (rw (lookup-insert pad p true links) (ground (arith, e)))
  | inr (b, e) ↦ rw (e, or_insert_up) refl
]

grow_links-up :
    (pad first n : ℕ) (links : List (ℕ × Bool))
    → up_by_default (lookup pad (grow_links first n links)) ≡ up_by_default (lookup pad links)
unfolding grow_links
grow_links-up pad first zero links = refl
grow_links-up pad first (suc n) links =
    grow_links-up pad (first + 1) n (or_insert_up first links) ∙ or_insert_up-up pad first links

-- The state of a pad's uplink that each command calls for.
abbrev pub link_after : ControlCommand → ℕ → Bool → Bool
link_after (link p state) pad was = if pad == p then is_up state else was
link_after reset pad was = true
link_after _ pad was = was

-- Every command leaves each pad's uplink as the command says: `link` sets one pad's and no other,
-- `reset` brings every pad up, and no other command touches a link, a resize of the field included.
-- So a pad that was severed before a resize gains it stays severed, although the comments and documents
-- say that it comes up healthy.
pub link_up-apply :
    (st : FaultState) (c : ControlCommand) (pad : ℕ)
    → link_up (apply st c).0 pad ≡ link_after c pad (link_up st pad)
unfolding link_up apply
link_up-apply st (link p state) pad = rw (lookup-insert pad p (is_up state) st.links) (ground arith)
link_up-apply st (dup fraction) pad = refl
link_up-apply st (reorder window) pad = refl
link_up-apply st (rate multiplier) pad = refl
link_up-apply st (topology pads wells) pad = grow_links-up pad 1 pads st.links
link_up-apply st (kill service) pad = refl
link_up-apply st reset pad = lookup-links_up pad 1 st.pads

-- A fault state within the documented bounds.
pub record IsBounded (st : FaultState) : Type 0 where
  pub dup_rate : InBounds (dup st.dup_rate)
  pub reorder_window : InBounds (reorder st.reorder_window)
  pub rate_multiplier : InBounds (rate st.rate_multiplier)
  pub field_size : InBounds (topology st.pads st.wells_per_pad)

apply-IsBounded :
    (st : FaultState) (c : ControlCommand) → IsBounded st → InBounds c → IsBounded (apply st c).0
unfolding apply
apply-IsBounded st (link p state) b h = record {
  dup_rate = b.dup_rate;
  reorder_window = b.reorder_window;
  rate_multiplier = b.rate_multiplier;
  field_size = b.field_size;
}
apply-IsBounded st (dup fraction) b h = record {
  dup_rate = h;
  reorder_window = b.reorder_window;
  rate_multiplier = b.rate_multiplier;
  field_size = b.field_size;
}
apply-IsBounded st (reorder window) b h = record {
  dup_rate = b.dup_rate;
  reorder_window = h;
  rate_multiplier = b.rate_multiplier;
  field_size = b.field_size;
}
apply-IsBounded st (rate multiplier) b h = record {
  dup_rate = b.dup_rate;
  reorder_window = b.reorder_window;
  rate_multiplier = h;
  field_size = b.field_size;
}
apply-IsBounded st (topology pads wells) b h = record {
  dup_rate = b.dup_rate;
  reorder_window = b.reorder_window;
  rate_multiplier = b.rate_multiplier;
  field_size = h;
}
apply-IsBounded st (kill service) b h = b
apply-IsBounded st reset b h = record {
  dup_rate = inl (omega arith);
  reorder_window = omega arith;
  rate_multiplier = omega arith;
  field_size = b.field_size;
}

pub reaction_state : (st : FaultState) (c : ControlCommand) → (react st c).0 ≡ (apply st c).0
unfolding react apply
reaction_state st (link p state) = refl
reaction_state st (dup fraction) = refl
reaction_state st (reorder window) = refl
reaction_state st (rate multiplier) = refl
reaction_state st (topology pads wells) = refl
reaction_state st (kill edge) = refl
reaction_state st (kill ingest) = refl
reaction_state st reset = refl

after_one-IsBounded :
    (rest : FaultState → FaultState) (st : FaultState) (r : Reaction)
    → IsBounded st
    → IsBounded (rest st)
    → IsBounded (after_one rest (st, r))
after_one-IsBounded rest st exits b h = b
after_one-IsBounded rest st ignored b h = h
after_one-IsBounded rest st (applied p) b h = h

module _ {E : Type 0} where
  -- The numbers of a parsed command fit their machine types.
  abbrev pub Fits : Result ControlCommand E → Type 0
  Fits (ok c) = IsWord c
  Fits (err e) = Unit {0}

  handle-IsBounded :
      (st : FaultState) (d : Result ControlCommand E)
      → IsBounded st
      → Fits d
      → IsBounded (handle st d).0
  unfolding handle
  handle-IsBounded st (err e) b h = b
  handle-IsBounded st (ok c) b h = elim (check-cases (validate c)) [
    | inl e ↦
        rw (e, handle)
          (rw (reaction_state st c) (apply-IsBounded st c b ((validate-InBounds c h).0.0 e)))
    | inr (_, e) ↦ rw (e, handle) b
  ]

  -- Whatever deliveries the control consumer gets, unparseable ones and ones out of bounds included,
  -- a fault state within the documented bounds stays within them.
  pub serve-IsBounded :
      (ds : List (Result ControlCommand E)) (st : FaultState)
      → IsBounded st
      → All Fits ds
      → IsBounded (serve ds st)
  unfolding serve
  serve-IsBounded [] st b h = b
  serve-IsBounded (d ∷ ds) st b h =
      let next = handle-IsBounded st d b h.0 in
      after_one-IsBounded (serve ds) (handle st d).0 (handle st d).1 next
        (serve-IsBounded ds (handle st d).0 next h.1)
