-- ===== src/Edge/Uplink/Severed.antt =====
-- The commands of crates/coldbore-edge/src/control.rs and the pull of `fill_publish_queue` in uplink.rs: what
-- the uplink reads of the fault state, while commands come in between its looks.
use cold_bore.Base.{
  ℕ, zero, suc, ◌+◌, ◌≡◌, refl, sym, ap, ◌∙◌, inl, inr, Bool, true, false, ◌||◌, List, [], ◌∷◌,
  ◌++◌, some, Result, All, Bool-cases, leb, ◌==◌, if◌then◌else◌, length, arith,
}
use cold_bore.Base.Map.{lookup}
use cold_bore.Proto.Frame.{Frame}
use cold_bore.Proto.Control.{ControlCommand}
use cold_bore.Edge.Faults.{FaultState, link_up, serve}
use cold_bore.Edge.Faults.Down.{LeavesDown, serve_down}
use cold_bore.Edge.Uplink.{
  UplinkState, Reads, pull_pad, pull_round, pull_loop, pull_limit, stage, fill_publish_queue,
}

-- Each look of the uplink takes the lock anew: the reorder window is read first, then for each round of
-- the pull and each pad the link.
pub reads_of : FaultState → (ℕ → ℕ → FaultState) → (ℕ → ℕ) → Reads
reads_of first seen pick = record {
  window = first.reorder_window;
  link_up = λ round pad. link_up (seen round pad) pad;
  pick = pick;
}

pull_pad-lookup :
    (up : Bool) (pad : ℕ) (entry : ℕ × List Frame) (r : List (ℕ × List Frame) × List Frame)
    → ((pad == entry.0) ≡ true → up ≡ false)
    → lookup pad (pull_pad up entry r).0 ≡ lookup pad (entry ∷ r.0)
pull_pad-lookup false pad (k, b) (m, pulled) h = refl
pull_pad-lookup true pad (k, []) (m, pulled) h = refl
pull_pad-lookup true pad (k, f ∷ fs) (m, pulled) h = elim (Bool-cases (pad == k)) [
  | inl e ↦ absurd (true_not_false (h e))
  | inr e ↦ rw e refl
]
  where
    true_not_false : true ≡ false → ⊥
    true_not_false q = cc

pull_round-lookup :
    (up : ℕ → Bool) (pad : ℕ) (m : List (ℕ × List Frame))
    → up pad ≡ false
    → lookup pad (pull_round up m).0 ≡ lookup pad m
unfolding pull_round
pull_round-lookup up pad [] h = refl
pull_round-lookup up pad ((k, b) ∷ m) h =
    pull_pad-lookup (up k) pad (k, b) (pull_round up m) (λ e. ap up (sym (same_pad pad k e)) ∙ h)
    ∙ ap (λ o. if pad == k then some b else o) (pull_round-lookup up pad m h)
  where
    same_pad : (p k : ℕ) → (p == k) ≡ true → p ≡ k
    same_pad p k e = ground arith

pull_loop-lookup :
    (fuel round : ℕ) (up : ℕ → ℕ → Bool) (pad pulled : ℕ) (st : UplinkState)
    → ((n : ℕ) → up n pad ≡ false)
    → lookup pad (pull_loop fuel round up pulled st).pad_buffers ≡ lookup pad st.pad_buffers
unfolding pull_loop
pull_loop-lookup zero round up pad pulled st h = refl
pull_loop-lookup (suc fuel) round up pad pulled st h =
    let once = pull_round-lookup (up round) pad st.pad_buffers (h round) in
    let frames = (pull_round (up round) st.pad_buffers).1 in
    elim (Bool-cases (length frames == 0 || leb pull_limit (pulled + length frames))) [
      | inl e ↦ rw e once
      | inr e ↦ rw e (
          pull_loop-lookup fuel (round + 1) up pad (pulled + length frames)
            (record st {
              pad_buffers = (pull_round (up round) st.pad_buffers).0;
              shuffle = st.shuffle ++ frames;
            })
            h
          ∙ once)
    ]

stage-buffers : (r : Reads) (st : UplinkState) → (stage r st).pad_buffers ≡ st.pad_buffers
unfolding stage
stage-buffers r st = elim (Bool-cases (leb r.window 1)) [
  | inl e ↦ rw e refl
  | inr e ↦ rw e (elim (Bool-cases (leb r.window (length st.shuffle))) [
    | inl e' ↦ rw e' refl
    | inr e' ↦ rw e' refl
  ])
]

-- While a pad's link is down, its frames wait: whatever other commands and malformed deliveries come in
-- between the looks of the uplink, resizes of the field included, as long as none brings this link up,
-- filling the publish queue leaves the pad's buffer as it is.
pub severed_waits :
    {E : Type 0} (faults : FaultState) (first : List (Result ControlCommand E))
    (between : ℕ → ℕ → List (Result ControlCommand E)) (pick : ℕ → ℕ) (st : UplinkState) (pad : ℕ)
    → link_up faults pad ≡ false
    → ((round at : ℕ) → All (LeavesDown pad) (between round at))
    → let r = reads_of (serve first faults) (λ round at. serve (between round at) faults) pick in
      lookup pad (fill_publish_queue r st).pad_buffers ≡ lookup pad st.pad_buffers
unfolding fill_publish_queue reads_of
severed_waits faults first between pick st pad down leaves =
    let r = reads_of (serve first faults) (λ round at. serve (between round at) faults) pick in
    ap (lookup pad) (stage-buffers r (pull_loop pull_limit 0 r.link_up 0 st))
    ∙ pull_loop-lookup pull_limit 0 r.link_up pad 0 st
        (λ round. serve_down (between round pad) faults pad down (leaves round pad))
