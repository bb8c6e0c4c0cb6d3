-- ===== src/Edge/Uplink/Capacity.antt =====
-- The bounded pad buffers of crates/coldbore-edge/src/uplink.rs: drop-oldest, and counted.
use cold_bore.Base.{
  ◌⊎◌, ℕ, zero, suc, ◌+◌, ◌≤◌, ◌<◌, ◌≡◌, refl, sym, ap, subst, ◌∙◌, inl, inr, Bool, true, false,
  List, [], ◌∷◌, ◌++◌, some, Bool-cases, ltb, leb, ◌==◌, ◌||◌, if◌then◌else◌, length, length-append,
  All, arith, add64, u64_mod,
}
use cold_bore.Base.Map.{lookup, insert, lookup-insert, All-insert}
use cold_bore.Proto.Frame.{Frame}
use cold_bore.Edge.Counters.{Counters, zeros}
use cold_bore.Edge.Uplink.Handover.{next_publishable-Takes}
use cold_bore.Edge.Uplink.{
  new, empty_buffers, UplinkState, Reads, or_default, rest_of, front_of, is_full, buffer_of,
  buffer_frame, pull_pad, pull_round, pull_loop, pull_limit, stage, fill_publish_queue,
  next_publishable, pop_publish, fill_if_empty, pop_dup, pop_retry,
}

-- No pad buffer is longer than the cap.
abbrev pub Fits : ℕ → List (ℕ × List Frame) → Type 0
Fits cap m = All (λ b. length b.1 ≤ cap) m

lookup-Fits :
    (cap k : ℕ) (m : List (ℕ × List Frame)) → Fits cap m → length (or_default (lookup k m)) ≤ cap
lookup-Fits cap k [] h = omega arith
lookup-Fits cap k ((j, buf) ∷ m) h = elim (Bool-cases (k == j)) [
  | inl e ↦ rw e h.0
  | inr e ↦ rw e (lookup-Fits cap k m h.1)
]

same_id : (k : ℕ) → (k == k) ≡ true
same_id k = ground arith

buffer-insert :
    (k : ℕ) (buf : List Frame) (m : List (ℕ × List Frame))
    → or_default (lookup k (insert k buf m)) ≡ buf
buffer-insert k buf m =
    ap or_default (lookup-insert k k buf m)
    ∙ ap (λ b. or_default (if b then some buf else lookup k m)) (same_id k)

front-rest : (buf : List Frame) → front_of buf ++ rest_of buf ≡ buf
front-rest [] = refl
front-rest (f ∷ fs) = refl

append_assoc : (a b c : List Frame) → a ++ (b ++ c) ≡ (a ++ b) ++ c
append_assoc [] b c = refl
append_assoc (x ∷ a) b c = ap (◌∷◌ x) (append_assoc a b c)

length-rest :
    (buf : List Frame) (cap : ℕ) → 1 ≤ cap → length buf ≤ cap → suc (length (rest_of buf)) ≤ cap
length-rest [] cap h k = omega arith
length-rest (f ∷ fs) cap h k = omega (arith, k)

front_one :
    (buf : List Frame) (cap : ℕ) → 1 ≤ cap → leb cap (length buf) ≡ true → length (front_of buf) ≡ 1
front_one [] cap h e = ground arith
front_one (f ∷ fs) cap h e = omega arith

-- With a cap of at least one, a frame that comes in leaves every pad buffer within the cap; the buffer
-- of its pad is what it was with the new frame behind it, less the frames given up at its front; one
-- frame is given up if the buffer held as many as the cap, and none otherwise; and the drop counter
-- goes up by the number of frames given up.
pub buffer_frame-Fits :
    (st : UplinkState) (frame : Frame) (c : Counters)
    → 1 ≤ st.buffer_cap
    → Fits st.buffer_cap st.pad_buffers
    → c.buffer_dropped < u64_mod
    → let (st', c', gone) = buffer_frame st frame c in
      Fits st.buffer_cap st'.pad_buffers
      × (gone ++ buffer_of st' frame.pad ≡ buffer_of st frame.pad ++ frame ∷ [])
      × (length gone ≡ (if ltb (length (buffer_of st frame.pad)) st.buffer_cap then 0 else 1))
      × (c'.buffer_dropped ≡ add64 c.buffer_dropped (length gone))
unfolding buffer_frame add64
buffer_frame-Fits st frame c cap fits small =
    let buf = buffer_of st frame.pad in
    let short = lookup-Fits st.buffer_cap frame.pad st.pad_buffers fits in
    elim (Bool-cases (is_full st buf)) [
      | inl e ↦ rw e (
        All-insert (λ b. length b.1 ≤ st.buffer_cap) frame.pad _ st.pad_buffers
            (omega (
              arith,
              length-append (rest_of buf) (frame ∷ []),
              length-rest buf st.buffer_cap cap short,
            ))
            fits,
        ap (◌++◌ (front_of buf))
              (buffer-insert frame.pad (rest_of buf ++ frame ∷ []) st.pad_buffers)
            ∙ append_assoc (front_of buf) (rest_of buf) (frame ∷ [])
            ∙ ap (λ x. x ++ frame ∷ []) (front-rest buf),
        full (length (front_of buf)) e (front_one buf st.buffer_cap cap e),
        omega (arith, front_one buf st.buffer_cap cap e),
      )
      | inr e ↦ rw e (
        All-insert (λ b. length b.1 ≤ st.buffer_cap) frame.pad _ st.pad_buffers
            (omega (arith, length-append buf (frame ∷ []), not_full e)) fits,
        buffer-insert frame.pad (buf ++ frame ∷ []) st.pad_buffers,
        room 0 e refl,
        omega (arith, small),
      )
    ]
  where
    not_full :
        leb st.buffer_cap (length (buffer_of st frame.pad)) ≡ false
        → suc (length (buffer_of st frame.pad)) ≤ st.buffer_cap
    not_full e = ground arith

    full :
        (n : ℕ)
        → leb st.buffer_cap (length (buffer_of st frame.pad)) ≡ true
        → n ≡ 1
        → n ≡ (if ltb (length (buffer_of st frame.pad)) st.buffer_cap then 0 else 1)
    full n e one = ground arith

    room :
        (n : ℕ)
        → leb st.buffer_cap (length (buffer_of st frame.pad)) ≡ false
        → n ≡ 0
        → n ≡ (if ltb (length (buffer_of st frame.pad)) st.buffer_cap then 0 else 1)
    room n e none_given = ground arith

pull_pad-Fits :
    (cap : ℕ) (up : Bool) (b : ℕ × List Frame) (r : List (ℕ × List Frame) × List Frame)
    → length b.1 ≤ cap
    → Fits cap r.0
    → Fits cap (pull_pad up b r).0
pull_pad-Fits cap true (pad, []) r short h = (short, h)
pull_pad-Fits cap true (pad, f ∷ fs) r short h = (omega (arith, short), h)
pull_pad-Fits cap false b r short h = (short, h)

pull_round-Fits :
    (cap : ℕ) (up : ℕ → Bool) (m : List (ℕ × List Frame))
    → Fits cap m
    → Fits cap (pull_round up m).0
unfolding pull_round
pull_round-Fits cap up [] h = tt
pull_round-Fits cap up (b ∷ m) h =
    pull_pad-Fits cap (up b.0) b (pull_round up m) h.0 (pull_round-Fits cap up m h.1)

pull_loop-Fits :
    (cap fuel round : ℕ) (up : ℕ → ℕ → Bool) (pulled : ℕ) (st : UplinkState)
    → Fits cap st.pad_buffers
    → Fits cap (pull_loop fuel round up pulled st).pad_buffers
unfolding pull_loop
pull_loop-Fits cap zero round up pulled st h = h
pull_loop-Fits cap (suc fuel) round up pulled st h =
    let (m, frames) = pull_round (up round) st.pad_buffers in
    let fits : Fits cap m = pull_round-Fits cap (up round) st.pad_buffers h in
    elim (Bool-cases (length frames == 0 || leb pull_limit (pulled + length frames))) [
      | inl e ↦ rw e fits
      | inr e ↦ rw e (
          pull_loop-Fits cap fuel (round + 1) up (pulled + length frames)
            (record st { pad_buffers = m; shuffle = st.shuffle ++ frames }) fits)
    ]

stage_buffers : (r : Reads) (st : UplinkState) → (stage r st).pad_buffers ≡ st.pad_buffers
unfolding stage
stage_buffers r st = elim (Bool-cases (leb r.window 1)) [
  | inl e ↦ rw e refl
  | inr e ↦ rw e (elim (Bool-cases (leb r.window (length st.shuffle))) [
    | inl e' ↦ rw e' refl
    | inr e' ↦ rw e' refl
  ])
]

fill-Fits :
    (cap : ℕ) (r : Reads) (st : UplinkState)
    → Fits cap st.pad_buffers
    → Fits cap (fill_publish_queue r st).pad_buffers
unfolding fill_publish_queue
fill-Fits cap r st h =
    subst (Fits cap) (sym (stage_buffers r (pull_loop pull_limit 0 r.link_up 0 st)))
      (pull_loop-Fits cap pull_limit 0 r.link_up 0 st h)

pop_publish_buffers :
    (st : UplinkState) (queue : List Frame) → (pop_publish st queue).1.pad_buffers ≡ st.pad_buffers
pop_publish_buffers st [] = refl
pop_publish_buffers st (f ∷ fs) = refl

fill_if_empty-Fits :
    (cap : ℕ) (r : Reads) (st : UplinkState) (queue : List Frame)
    → Fits cap st.pad_buffers
    → Fits cap (fill_if_empty r st queue).pad_buffers
fill_if_empty-Fits cap r st [] h = fill-Fits cap r st h
fill_if_empty-Fits cap r st (f ∷ fs) h = h

pop_dup-Fits :
    (cap : ℕ) (r : Reads) (st : UplinkState) (queue : List Frame)
    → Fits cap st.pad_buffers
    → Fits cap (pop_dup r st queue).1.pad_buffers
pop_dup-Fits cap r st (f ∷ fs) h = h
pop_dup-Fits cap r st [] h =
    let filled = fill_if_empty r st st.publish_queue in
    subst (Fits cap) (sym (pop_publish_buffers filled filled.publish_queue))
      (fill_if_empty-Fits cap r st st.publish_queue h)

pop_retry-Fits :
    (cap : ℕ) (r : Reads) (st : UplinkState) (queue : List Frame)
    → Fits cap st.pad_buffers
    → Fits cap (pop_retry r st queue).1.pad_buffers
pop_retry-Fits cap r st (f ∷ fs) h = h
pop_retry-Fits cap r st [] h = pop_dup-Fits cap r st st.dup_queue h

next_publishable-Fits :
    (cap : ℕ) (r : Reads) (st : UplinkState)
    → Fits cap st.pad_buffers
    → Fits cap (next_publishable r st).1.pad_buffers
unfolding next_publishable
next_publishable-Fits cap r st h = pop_retry-Fits cap r st st.retry h

-- Frames that come in and frames that are handed out, in any order.
abbrev pub mixed : List (Frame ⊎ Reads) → UplinkState → UplinkState
mixed [] st = st
mixed (inl frame ∷ ops) st = mixed ops (buffer_frame st frame zeros).0
mixed (inr r ∷ ops) st = mixed ops (next_publishable r st).1

buffer_frame_cap :
    (st : UplinkState) (frame : Frame) (c : Counters)
    → (buffer_frame st frame c).0.buffer_cap ≡ st.buffer_cap
unfolding buffer_frame
buffer_frame_cap st frame c = refl

mixed-Fits :
    (cap : ℕ) (ops : List (Frame ⊎ Reads)) (st : UplinkState)
    → 1 ≤ cap
    → st.buffer_cap ≡ cap
    → Fits cap st.pad_buffers
    → Fits cap (mixed ops st).pad_buffers
mixed-Fits cap [] st one same h = h
mixed-Fits cap (inl frame ∷ ops) st one same h =
    mixed-Fits cap ops (buffer_frame st frame zeros).0 one (buffer_frame_cap st frame zeros ∙ same)
      (subst (λ n. Fits n (buffer_frame st frame zeros).0.pad_buffers) same
        (buffer_frame-Fits st frame zeros (omega (arith, one, same))
          (subst (λ n. Fits n st.pad_buffers) (sym same) h) (omega arith)).0)
mixed-Fits cap (inr r ∷ ops) st one same h =
    mixed-Fits cap ops (next_publishable r st).1 one ((next_publishable-Takes r st).same_cap ∙ same)
      (next_publishable-Fits cap r st h)

empty-Fits : (cap pad n : ℕ) → Fits cap (empty_buffers pad n)
empty-Fits cap pad zero = tt
empty-Fits cap pad (suc n) = (omega arith, empty-Fits cap (pad + 1) n)

-- From a new uplink with a cap of at least one, through any frames that come in and any that are handed
-- out, in whatever order and with whatever links, no pad buffer is ever longer than the cap.
pub buffers-Fits :
    (pads cap : ℕ) (ops : List (Frame ⊎ Reads))
    → 1 ≤ cap
    → Fits cap (mixed ops (new pads cap)).pad_buffers
unfolding new
buffers-Fits pads cap ops one = mixed-Fits cap ops (new pads cap) one refl (empty-Fits cap 1 pads)
