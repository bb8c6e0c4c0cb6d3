-- ===== src/Edge/Uplink/Rounds.antt =====
-- The pull loop of `fill_publish_queue` in crates/coldbore-edge/src/uplink.rs ends by its own test.
use cold_bore.Base.{
  ℕ, zero, suc, ◌+◌, ◌≤◌, ◌<◌, ◌≡◌, Bool, ◌||◌, inl, inr, Bool-cases, leb, ◌==◌, length, ◌++◌,
  arith,
}
use cold_bore.Edge.Uplink.{UplinkState, pull_loop, pull_round, pull_limit}

-- Each round that goes on pulls a frame and the loop stops at 512, so from the start 512 rounds are
-- enough: more fuel changes nothing.
pub pull_loop_enough :
    (fuel more round : ℕ) (up : ℕ → ℕ → Bool) (pulled : ℕ) (st : UplinkState)
    → pulled < pull_limit
    → pull_limit ≤ fuel + pulled
    → pull_loop (fuel + more) round up pulled st ≡ pull_loop fuel round up pulled st
unfolding pull_loop
pull_loop_enough zero more round up pulled st h k = absurd (omega arith)
pull_loop_enough (suc fuel) more round up pulled st h k =
    let e : suc fuel + more ≡ suc (fuel + more) = omega arith in
    let frames = (pull_round (up round) st.pad_buffers).1 in
    let next = record st {
      pad_buffers = (pull_round (up round) st.pad_buffers).0;
      shuffle = st.shuffle ++ frames;
    } in
    rw e (elim (Bool-cases (length frames == 0 || leb pull_limit (pulled + length frames))) [
      | inl stop ↦ rw stop
      | inr on ↦ rw on (
          pull_loop_enough fuel more (round + 1) up (pulled + length frames) next (ground arith)
            (ground arith))
    ])
