-- ===== src/Edge/Uplink/Handover.antt =====
-- What `fill_publish_queue` and `next_publishable` of crates/coldbore-edge/src/uplink.rs keep of the frames
-- in custody.
use cold_bore.Base.{
  ℕ, zero, suc, ◌+◌, ◌≡◌, refl, ap, ◌∙◌, inl, inr, Bool, ◌||◌, List, [], ◌∷◌, ◌++◌, Option, none,
  some, Bool-cases, leb, ◌==◌, length, weigh, weigh-append, arith,
}
use cold_bore.Proto.Frame.{Frame}
use cold_bore.Edge.Uplink.{
  UplinkState, Reads, pull_round, pull_loop, stage, fill_publish_queue, next_publishable, pop_retry,
  pop_dup, pop_publish, fill_if_empty, pull_limit,
}
use cold_bore.Edge.Uplink.Shuffle.{shuffle_all, shuffle_all-weigh}
use cold_bore.Edge.Uplink.Custody.{held, live, IsSorted, pull_round-weigh, pull_round-Ascending}

-- What filling the publish queue keeps.
pub record Keeps (st st' : UplinkState) : Type 0 where
  pub held_same : (w : Frame → ℕ) → held w st' ≡ held w st
  pub sorted : IsSorted st → IsSorted st'
  pub same_cap : st'.buffer_cap ≡ st.buffer_cap
  pub same_backoff : st'.backoff ≡ st.backoff
  pub same_dups : st'.dup_queue ≡ st.dup_queue

Keeps-refl : {st : UplinkState} → Keeps st st
Keeps-refl = record {
  held_same = λ w. refl;
  sorted = λ h. h;
  same_cap = refl;
  same_backoff = refl;
  same_dups = refl;
}

Keeps-trans : {a b c : UplinkState} → Keeps a b → Keeps b c → Keeps a c
Keeps-trans p q = record {
  held_same = λ w. q.held_same w ∙ p.held_same w;
  sorted = λ h. q.sorted (p.sorted h);
  same_cap = q.same_cap ∙ p.same_cap;
  same_backoff = q.same_backoff ∙ p.same_backoff;
  same_dups = q.same_dups ∙ p.same_dups;
}

abbrev pulled_state : (ℕ → Bool) → UplinkState → UplinkState
pulled_state up st = record st {
  pad_buffers = (pull_round up st.pad_buffers).0;
  shuffle = st.shuffle ++ (pull_round up st.pad_buffers).1;
}

pulled-Keeps : (up : ℕ → Bool) (st : UplinkState) → Keeps st (pulled_state up st)
pulled-Keeps up st = record {
  held_same = λ w. omega (
    arith,
    pull_round-weigh w up st.pad_buffers,
    weigh-append w st.shuffle (pull_round up st.pad_buffers).1,
  );
  sorted = pull_round-Ascending up 0 st.pad_buffers;
  same_cap = refl;
  same_backoff = refl;
  same_dups = refl;
}

pull_loop-Keeps :
    (fuel round : ℕ) (up : ℕ → ℕ → Bool) (pulled : ℕ) (st : UplinkState)
    → Keeps st (pull_loop fuel round up pulled st)
unfolding pull_loop
pull_loop-Keeps zero round up pulled st = Keeps-refl
pull_loop-Keeps (suc fuel) round up pulled st =
    let one = pulled-Keeps (up round) st in
    let frames = (pull_round (up round) st.pad_buffers).1 in
    elim (Bool-cases (length frames == 0 || leb pull_limit (pulled + length frames))) [
      | inl e ↦ rw e one
      | inr e ↦ rw e (
          Keeps-trans one (
            pull_loop-Keeps fuel (round + 1) up (pulled + length frames)
              (pulled_state (up round) st)))
    ]

stage-Keeps : (r : Reads) (st : UplinkState) → Keeps st (stage r st)
unfolding stage
stage-Keeps r st = elim (Bool-cases (leb r.window 1)) [
  | inl e ↦ rw e (record {
    held_same = λ w. omega (arith, weigh-append w st.publish_queue st.shuffle);
    sorted = λ h. h;
    same_cap = refl;
    same_backoff = refl;
    same_dups = refl;
  })
  | inr e ↦ rw e (elim (Bool-cases (leb r.window (length st.shuffle))) [
    | inl e' ↦ rw e' (record {
      held_same = λ w. omega (
        arith,
        weigh-append w st.publish_queue (shuffle_all r.pick st.shuffle),
        shuffle_all-weigh w r.pick st.shuffle,
      );
      sorted = λ h. h;
      same_cap = refl;
      same_backoff = refl;
      same_dups = refl;
    })
    | inr e' ↦ rw e' Keeps-refl
  ])
]

pub fill_publish_queue-Keeps : (r : Reads) (st : UplinkState) → Keeps st (fill_publish_queue r st)
unfolding fill_publish_queue
fill_publish_queue-Keeps r st =
    let pulled = pull_loop pull_limit 0 r.link_up 0 st in
    Keeps-trans (pull_loop-Keeps pull_limit 0 r.link_up 0 st) (stage-Keeps r pulled)

-- What `next_publishable` takes out of custody: the frame that it hands over, unless that is an
-- injected duplicate; nothing else is lost, and the buffers keep their order.
abbrev pub handed : (Frame → ℕ) → Option (Frame × Bool) → ℕ
handed w none = 0
handed w (some entry) = live w entry

pub record Takes (st st' : UplinkState) (o : Option (Frame × Bool)) : Type 0 where
  pub held_less : (w : Frame → ℕ) → held w st' + handed w o ≡ held w st
  pub sorted : IsSorted st → IsSorted st'
  pub same_cap : st'.buffer_cap ≡ st.buffer_cap
  pub same_backoff : st'.backoff ≡ st.backoff

pop_publish-Takes :
    (st : UplinkState) (queue : List Frame)
    → st.publish_queue ≡ queue
    → let (o, st') = pop_publish st queue in Takes st st' o
pop_publish-Takes st [] e = record {
  held_less = λ w. omega arith;
  sorted = λ h. h;
  same_cap = refl;
  same_backoff = refl;
}
pop_publish-Takes st (f ∷ fs) e = record {
  held_less = λ w. omega (arith, ap (weigh w) e);
  sorted = λ h. h;
  same_cap = refl;
  same_backoff = refl;
}

fill_if_empty-Keeps :
    (r : Reads) (st : UplinkState) (queue : List Frame) → Keeps st (fill_if_empty r st queue)
fill_if_empty-Keeps r st [] = fill_publish_queue-Keeps r st
fill_if_empty-Keeps r st (f ∷ fs) = Keeps-refl

pop_dup-Takes :
    (r : Reads) (st : UplinkState) (queue : List Frame)
    → st.dup_queue ≡ queue
    → let (o, st') = pop_dup r st queue in Takes st st' o
pop_dup-Takes r st (f ∷ fs) e = record {
  held_less = λ w. omega arith;
  sorted = λ h. h;
  same_cap = refl;
  same_backoff = refl;
}
pop_dup-Takes r st [] e =
    let filled = fill_if_empty r st st.publish_queue in
    let k = fill_if_empty-Keeps r st st.publish_queue in
    let t = pop_publish-Takes filled filled.publish_queue refl in
    record {
      held_less = λ w. t.held_less w ∙ k.held_same w;
      sorted = λ h. t.sorted (k.sorted h);
      same_cap = t.same_cap ∙ k.same_cap;
      same_backoff = t.same_backoff ∙ k.same_backoff;
    }

pop_retry-Takes :
    (r : Reads) (st : UplinkState) (queue : List Frame)
    → st.retry ≡ queue
    → let (o, st') = pop_retry r st queue in Takes st st' o
pop_retry-Takes r st (f ∷ fs) e = record {
  held_less = λ w. omega (arith, ap (weigh w) e);
  sorted = λ h. h;
  same_cap = refl;
  same_backoff = refl;
}
pop_retry-Takes r st [] e = pop_dup-Takes r st st.dup_queue refl

pub next_publishable-Takes :
    (r : Reads) (st : UplinkState) → let (o, st') = next_publishable r st in Takes st st' o
unfolding next_publishable
next_publishable-Takes r st = pop_retry-Takes r st st.retry refl
