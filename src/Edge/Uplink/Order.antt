-- ===== src/Edge/Uplink/Order.antt =====
-- The order of publishing in crates/coldbore-edge/src/uplink.rs, with no reordering injected: frames of
-- one pad leave in the order in which they came in.
use cold_bore.Base.{
  ℕ, zero, suc, ◌+◌, ◌≤◌, ◌<◌, ◌≡◌, refl, sym, ap, subst, ◌∙◌, inl, inr, Bool, true, false, List,
  [], ◌∷◌, ◌++◌, Option, none, some, Bool-cases, leb, ◌==◌, ◌||◌, if◌then◌else◌, length, All, arith,
}
use cold_bore.Base.Map.{lookup, Ascending, lookup_below}
use cold_bore.Proto.Frame.{Frame}
use cold_bore.Edge.Uplink.{
  UplinkState, Reads, or_default, buffer_of, pull_pad, pull_round, pull_loop, pull_limit, stage,
  fill_publish_queue, next_publishable, pop_publish, fill_if_empty, pop_dup, pop_retry,
}

-- The frames of one pad, in order.
abbrev pub of_pad : ℕ → List Frame → List Frame
of_pad p [] = []
of_pad p (f ∷ fs) = if p == f.pad then f ∷ of_pad p fs else of_pad p fs

-- Every buffer holds frames of its own pad.
abbrev pub IsOwned : List (ℕ × List Frame) → Type 0
IsOwned m = All (λ b. All (λ f. f.pad ≡ b.0) b.1) m

-- A pad's line: what is queued, what is in the shuffle stage, what is buffered.
abbrev pub line : ℕ → UplinkState → List Frame
line p st = of_pad p st.publish_queue ++ (of_pad p st.shuffle ++ buffer_of st p)

pub of_pad-append : (p : ℕ) (xs ys : List Frame) → of_pad p (xs ++ ys) ≡ of_pad p xs ++ of_pad p ys
of_pad-append p [] ys = refl
of_pad-append p (x ∷ xs) ys = elim (Bool-cases (p == x.pad)) [
  | inl e ↦ rw e (ap (◌∷◌ x) (of_pad-append p xs ys))
  | inr e ↦ rw e (of_pad-append p xs ys)
]

pub append_assoc : (a b c : List Frame) → (a ++ b) ++ c ≡ a ++ (b ++ c)
append_assoc [] b c = refl
append_assoc (x ∷ a) b c = ap (◌∷◌ x) (append_assoc a b c)

append_none : (a : List Frame) → a ++ [] ≡ a
append_none [] = refl
append_none (x ∷ a) = ap (◌∷◌ x) (append_none a)

left_none : (a b : List Frame) → a ++ b ≡ [] → a ≡ []
left_none [] b h = refl
left_none (x ∷ a) b h = cc

-- What a round pulls of a pad and what it leaves are what was there.
abbrev Split : ℕ → List (ℕ × List Frame) × List Frame → List (ℕ × List Frame) → Type 0
Split p r m = of_pad p r.1 ++ or_default (lookup p r.0) ≡ or_default (lookup p m)

pull_pad-Split :
    (p k : ℕ) (up : Bool) (buf : List Frame) (r : List (ℕ × List Frame) × List Frame)
    (m : List (ℕ × List Frame))
    → All (λ f. f.pad ≡ k) buf
    → ((p == k) ≡ true → or_default (lookup p m) ≡ [])
    → Split p r m
    → Split p (pull_pad up (k, buf) r) ((k, buf) ∷ m)
pull_pad-Split p k true [] r m own fresh h = elim (Bool-cases (p == k)) [
  | inl e ↦ rw e (ap (λ x. x ++ []) (left_none (of_pad p r.1) _ (h ∙ fresh e)))
  | inr e ↦ rw e h
]
pull_pad-Split p k false buf r m own fresh h = elim (Bool-cases (p == k)) [
  | inl e ↦ rw e (ap (λ x. x ++ buf) (left_none (of_pad p r.1) _ (h ∙ fresh e)))
  | inr e ↦ rw e h
]
pull_pad-Split p k true (f ∷ fs) r m own fresh h = elim (Bool-cases (p == k)) [
  | inl e ↦
      ap
        (λ b.
          (if b then f ∷ of_pad p r.1 else of_pad p r.1)
          ++ or_default (if p == k then some fs else lookup p r.0))
        (ap (λ x. p == x) own.0 ∙ e)
      ∙ rw e (ap (λ x. f ∷ (x ++ fs)) (left_none (of_pad p r.1) _ (h ∙ fresh e)))
  | inr e ↦
      ap
        (λ b.
          (if b then f ∷ of_pad p r.1 else of_pad p r.1)
          ++ or_default (if p == k then some fs else lookup p r.0))
        (ap (λ x. p == x) own.0 ∙ e)
      ∙ rw e h
]

same_below : (p k : ℕ) → (p == k) ≡ true → p < suc k
same_below p k e = ground arith

pull_round-Split :
    (p lo : ℕ) (up : ℕ → Bool) (m : List (ℕ × List Frame))
    → Ascending lo m
    → IsOwned m
    → Split p (pull_round up m) m
unfolding pull_round
pull_round-Split p lo up [] a own = refl
pull_round-Split p lo up ((k, buf) ∷ m) a own =
    pull_pad-Split p k (up k) buf (pull_round up m) m own.0
      (λ e. ap or_default (lookup_below p (suc k) m a.1 (same_below p k e)))
      (pull_round-Split p (suc k) up m a.1 own.1)

pull_pad-keys :
    (lo k : ℕ) (up : Bool) (buf : List Frame) (r : List (ℕ × List Frame) × List Frame)
    → lo ≤ k
    → Ascending (suc k) r.0
    → Ascending lo (pull_pad up (k, buf) r).0
pull_pad-keys lo k true [] r h a = (h, a)
pull_pad-keys lo k true (f ∷ fs) r h a = (h, a)
pull_pad-keys lo k false buf r h a = (h, a)

pub pull_round-keys :
    (lo : ℕ) (up : ℕ → Bool) (m : List (ℕ × List Frame))
    → Ascending lo m
    → Ascending lo (pull_round up m).0
unfolding pull_round
pull_round-keys lo up [] a = tt
pull_round-keys lo up ((k, buf) ∷ m) a =
    pull_pad-keys lo k (up k) buf (pull_round up m) a.0 (pull_round-keys (suc k) up m a.1)

pull_pad-IsOwned :
    (k : ℕ) (up : Bool) (buf : List Frame) (r : List (ℕ × List Frame) × List Frame)
    → All (λ f. f.pad ≡ k) buf
    → IsOwned r.0
    → IsOwned (pull_pad up (k, buf) r).0
pull_pad-IsOwned k true [] r h a = (h, a)
pull_pad-IsOwned k true (f ∷ fs) r h a = (h.1, a)
pull_pad-IsOwned k false buf r h a = (h, a)

pub pull_round-IsOwned :
    (up : ℕ → Bool) (m : List (ℕ × List Frame)) → IsOwned m → IsOwned (pull_round up m).0
unfolding pull_round
pull_round-IsOwned up [] own = tt
pull_round-IsOwned up ((k, buf) ∷ m) own =
    pull_pad-IsOwned k (up k) buf (pull_round up m) own.0 (pull_round-IsOwned up m own.1)

pull_loop-line :
    (p fuel round : ℕ) (up : ℕ → ℕ → Bool) (pulled : ℕ) (st : UplinkState)
    → Ascending 0 st.pad_buffers
    → IsOwned st.pad_buffers
    → line p (pull_loop fuel round up pulled st) ≡ line p st
unfolding pull_loop
pull_loop-line p zero round up pulled st a own = refl
pull_loop-line p (suc fuel) round up pulled st a own =
    let (m, frames) = pull_round (up round) st.pad_buffers in
    let next = record st { pad_buffers = m; shuffle = st.shuffle ++ frames } in
    let same : line p next ≡ line p st =
      ap (λ x. of_pad p st.publish_queue ++ x)
        (ap (λ x. x ++ or_default (lookup p m)) (of_pad-append p st.shuffle frames)
          ∙ append_assoc (of_pad p st.shuffle) (of_pad p frames) (or_default (lookup p m))
          ∙ ap (λ x. of_pad p st.shuffle ++ x)
              (pull_round-Split p 0 (up round) st.pad_buffers a own)) in
    elim (Bool-cases (length frames == 0 || leb pull_limit (pulled + length frames))) [
      | inl e ↦ rw e same
      | inr e ↦ rw e (
          pull_loop-line p fuel (round + 1) up (pulled + length frames) next
            (pull_round-keys 0 (up round) st.pad_buffers a)
            (pull_round-IsOwned (up round) st.pad_buffers own)
          ∙ same)
    ]

stage-line :
    (p : ℕ) (r : Reads) (st : UplinkState) → leb r.window 1 ≡ true → line p (stage r st) ≡ line p st
unfolding stage
stage-line p r st e = rw e (
    ap (λ x. x ++ buffer_of st p) (of_pad-append p st.publish_queue st.shuffle)
    ∙ append_assoc (of_pad p st.publish_queue) (of_pad p st.shuffle) (buffer_of st p))

fill-line :
    (p : ℕ) (r : Reads) (st : UplinkState)
    → leb r.window 1 ≡ true
    → Ascending 0 st.pad_buffers
    → IsOwned st.pad_buffers
    → line p (fill_publish_queue r st) ≡ line p st
unfolding fill_publish_queue
fill-line p r st e a own =
    stage-line p r (pull_loop pull_limit 0 r.link_up 0 st) e
    ∙ pull_loop-line p pull_limit 0 r.link_up 0 st a own

fill_if_empty-line :
    (p : ℕ) (r : Reads) (st : UplinkState) (queue : List Frame)
    → leb r.window 1 ≡ true
    → Ascending 0 st.pad_buffers
    → IsOwned st.pad_buffers
    → line p (fill_if_empty r st queue) ≡ line p st
fill_if_empty-line p r st [] e a own = fill-line p r st e a own
fill_if_empty-line p r st (f ∷ fs) e a own = refl

-- What was handed out, as a list.
abbrev pub out : Option (Frame × Bool) → List Frame
out none = []
out (some (f, is_dup)) = f ∷ []

pop_publish-line :
    (p : ℕ) (st : UplinkState) (queue : List Frame)
    → st.publish_queue ≡ queue
    → let (o, st') = pop_publish st queue in of_pad p (out o) ++ line p st' ≡ line p st
pop_publish-line p st [] e = refl
pop_publish-line p st (f ∷ fs) e =
    sym (append_assoc (of_pad p (f ∷ [])) (of_pad p fs) (of_pad p st.shuffle ++ buffer_of st p))
    ∙ ap (λ x. x ++ (of_pad p st.shuffle ++ buffer_of st p))
        (sym (of_pad-append p (f ∷ []) fs) ∙ ap (of_pad p) (sym e))

pop_retry-line :
    (p : ℕ) (r : Reads) (st : UplinkState) (retry dups : List Frame)
    → retry ≡ []
    → dups ≡ []
    → leb r.window 1 ≡ true
    → Ascending 0 st.pad_buffers
    → IsOwned st.pad_buffers
    → st.retry ≡ retry
    → st.dup_queue ≡ dups
    → let (o, st') = pop_retry r st retry in of_pad p (out o) ++ line p st' ≡ line p st
pop_retry-line p r st retry dups er ed e a own sr sd =
    subst (λ q. let (o, st') = pop_retry r st q in of_pad p (out o) ++ line p st' ≡ line p st)
      (sym er)
      (subst (λ q. let (o, st') = pop_dup r st q in of_pad p (out o) ++ line p st' ≡ line p st)
        (sym (sd ∙ ed))
        (let filled = fill_if_empty r st st.publish_queue in
          pop_publish-line p filled filled.publish_queue refl
          ∙ fill_if_empty-line p r st st.publish_queue e a own))

-- With no reordering injected and nothing to retransmit or duplicate, what one call hands out is the
-- front of its pad's line, and no line changes otherwise.
pub next_publishable-line :
    (p : ℕ) (r : Reads) (st : UplinkState)
    → r.window ≤ 1
    → st.retry ≡ []
    → st.dup_queue ≡ []
    → Ascending 0 st.pad_buffers
    → IsOwned st.pad_buffers
    → let (o, st') = next_publishable r st in of_pad p (out o) ++ line p st' ≡ line p st
unfolding next_publishable
next_publishable-line p r st small er ed a own =
    pop_retry-line p r st st.retry st.dup_queue er ed (within r.window small) a own refl refl
  where
    within : (n : ℕ) → n ≤ 1 → leb n 1 ≡ true
    within n h = ground arith
