-- ===== src/Edge/Uplink/Calm.antt =====
-- States of crates/coldbore-edge/src/uplink.rs with nothing to retransmit or duplicate, and what keeps them.
use cold_bore.Base.{
  ℕ, zero, suc, ◌+◌, ◌≡◌, refl, sym, subst, inl, inr, Bool, true, false, ◌||◌, List, [], ◌∷◌, ◌++◌,
  Bool-cases, leb, ◌==◌, if◌then◌else◌, length, All, All-append, arith,
}
use cold_bore.Base.Map.{lookup, All-insert, Ascending, Ascending-insert, Ascending-lower}
use cold_bore.Proto.Frame.{Frame}
use cold_bore.Edge.Counters.{Counters}
use cold_bore.Edge.Uplink.{
  UplinkState, Reads, new, empty_buffers, or_default, rest_of, is_full, buffer_of, buffer_frame,
  pull_round, pull_loop, pull_limit, stage, fill_publish_queue, fill_if_empty, pop_publish, pop_dup,
  pop_retry, next_publishable,
}
use cold_bore.Edge.Uplink.Order.{IsOwned, pull_round-keys, pull_round-IsOwned}
use cold_bore.Edge.Uplink.Session.Supervisor.{empty_buffers-Ascending}

-- Nothing is to be retransmitted or duplicated, and every buffer stands under its own pad.
pub record Calm (st : UplinkState) : Type 0 where
  pub no_retry : st.retry ≡ []
  pub no_dups : st.dup_queue ≡ []
  pub keys : Ascending 0 st.pad_buffers
  pub owned : IsOwned st.pad_buffers

pulled-Calm :
    (up : ℕ → Bool) (st : UplinkState) (shuffle : List Frame)
    → Calm st
    → Calm (record st { pad_buffers = (pull_round up st.pad_buffers).0; shuffle = shuffle })
pulled-Calm up st shuffle c = record {
  no_retry = c.no_retry;
  no_dups = c.no_dups;
  keys = pull_round-keys 0 up st.pad_buffers c.keys;
  owned = pull_round-IsOwned up st.pad_buffers c.owned;
}

pull_loop-Calm :
    (fuel round : ℕ) (up : ℕ → ℕ → Bool) (pulled : ℕ) (st : UplinkState)
    → Calm st
    → Calm (pull_loop fuel round up pulled st)
unfolding pull_loop
pull_loop-Calm zero round up pulled st c = c
pull_loop-Calm (suc fuel) round up pulled st c =
    let frames = (pull_round (up round) st.pad_buffers).1 in
    let once = pulled-Calm (up round) st (st.shuffle ++ frames) c in
    elim (Bool-cases (length frames == 0 || leb pull_limit (pulled + length frames))) [
      | inl e ↦ rw e once
      | inr e ↦ rw e (pull_loop-Calm fuel (round + 1) up (pulled + length frames) _ once)
    ]

-- What Calm does not depend on.
queued-Calm :
    (queue shuffle : List Frame) (st : UplinkState)
    → Calm st
    → Calm (record st { publish_queue = queue; shuffle = shuffle })
queued-Calm queue shuffle st c = record {
  no_retry = c.no_retry;
  no_dups = c.no_dups;
  keys = c.keys;
  owned = c.owned;
}

stage-Calm : (r : Reads) (st : UplinkState) → Calm st → Calm (stage r st)
unfolding stage
stage-Calm r st c = elim (Bool-cases (leb r.window 1)) [
  | inl e ↦ rw e (queued-Calm _ [] st c)
  | inr e ↦ rw e (elim (Bool-cases (leb r.window (length st.shuffle))) [
    | inl e' ↦ rw e' (queued-Calm _ [] st c)
    | inr e' ↦ rw e' c
  ])
]

fill_if_empty-Calm :
    (r : Reads) (st : UplinkState) (queue : List Frame) → Calm st → Calm (fill_if_empty r st queue)
unfolding fill_publish_queue
fill_if_empty-Calm r st [] c = stage-Calm r _ (pull_loop-Calm pull_limit 0 r.link_up 0 st c)
fill_if_empty-Calm r st (f ∷ fs) c = c

pop_publish-Calm : (st : UplinkState) (queue : List Frame) → Calm st → Calm (pop_publish st queue).1
pop_publish-Calm st [] c = c
pop_publish-Calm st (f ∷ fs) c = queued-Calm fs st.shuffle st c

pub next_publishable-Calm :
    (r : Reads) (st : UplinkState) → Calm st → Calm (next_publishable r st).1
unfolding next_publishable
next_publishable-Calm r st c =
    subst (λ q. Calm (pop_retry r st q).1) (sym c.no_retry)
      (subst (λ q. Calm (pop_dup r st q).1) (sym c.no_dups)
        (pop_publish-Calm _ _ (fill_if_empty-Calm r st st.publish_queue c)))

lookup-IsOwned :
    (k : ℕ) (m : List (ℕ × List Frame)) → IsOwned m → All (λ f. f.pad ≡ k) (or_default (lookup k m))
lookup-IsOwned k [] own = tt
lookup-IsOwned k ((j, buf) ∷ m) own = elim (Bool-cases (k == j)) [
  | inl e ↦ rw e (subst (λ i. All (λ f. f.pad ≡ i) buf) (same k j e) own.0)
  | inr e ↦ rw e (lookup-IsOwned k m own.1)
]
  where
    same : (a b : ℕ) → (a == b) ≡ true → b ≡ a
    same a b e = ground arith

pub buffer-owned : (st : UplinkState) (k : ℕ) → Calm st → All (λ f. f.pad ≡ k) (buffer_of st k)
buffer-owned st k c = lookup-IsOwned k st.pad_buffers c.owned

All-rest : (P : Frame → Type 0) (buf : List Frame) → All P buf → All P (rest_of buf)
All-rest P [] h = tt
All-rest P (f ∷ fs) h = h.1

kept-owned :
    (full : Bool) (k : ℕ) (buf : List Frame) (frame : Frame)
    → frame.pad ≡ k
    → All (λ f. f.pad ≡ k) buf
    → All (λ f. f.pad ≡ k) ((if full then rest_of buf else buf) ++ frame ∷ [])
kept-owned true k buf frame is h =
    All-append (λ f. f.pad ≡ k) (rest_of buf) (frame ∷ []) (All-rest (λ f. f.pad ≡ k) buf h)
      (is, tt)
kept-owned false k buf frame is h = All-append (λ f. f.pad ≡ k) buf (frame ∷ []) h (is, tt)

pub buffer_frame-Calm :
    (st : UplinkState) (frame : Frame) (c : Counters) → Calm st → Calm (buffer_frame st frame c).0
unfolding buffer_frame
buffer_frame-Calm st frame c calm = record {
  no_retry = calm.no_retry;
  no_dups = calm.no_dups;
  keys = Ascending-insert frame.pad 0 _ st.pad_buffers calm.keys (omega arith);
  owned =
      All-insert (λ b. All (λ f. f.pad ≡ b.0) b.1) frame.pad _ st.pad_buffers
        (kept-owned (is_full st (buffer_of st frame.pad)) frame.pad (buffer_of st frame.pad) frame
          refl (buffer-owned st frame.pad calm))
        calm.owned;
}

empty_buffers-IsOwned : (first n : ℕ) → IsOwned (empty_buffers first n)
empty_buffers-IsOwned first zero = tt
empty_buffers-IsOwned first (suc n) = (tt, empty_buffers-IsOwned (first + 1) n)

pub new-Calm : (pads buffer_cap : ℕ) → Calm (new pads buffer_cap)
unfolding new
new-Calm pads buffer_cap = record {
  no_retry = refl;
  no_dups = refl;
  keys = Ascending-lower 0 1 _ (empty_buffers-Ascending 1 pads) (omega arith);
  owned = empty_buffers-IsOwned 1 pads;
}
