-- ===== src/Edge/Uplink/InOrder.antt =====
-- Any run of arrivals and hand-outs in crates/coldbore-edge/src/uplink.rs: of each pad, what is handed out
-- and what still waits, against what came in.
use cold_bore.Base.{
  ℕ, zero, suc, ◌+◌, ◌≤◌, ◌≡◌, refl, sym, ap, subst, ◌∙◌, inl, inr, true, false, List, [], ◌∷◌,
  ◌++◌, some, Bool-cases, ◌==◌, if◌then◌else◌, length, All, arith,
}
use mathlib.Core.List.{Sublistᴰ}
use cold_bore.Base.Map.{lookup, insert, lookup-insert}
use cold_bore.Proto.Frame.{Frame}
use cold_bore.Edge.Counters.{Counters}
use cold_bore.Edge.Uplink.{
  UplinkState, Reads, new, empty_buffers, or_default, rest_of, front_of, is_full, buffer_of,
  buffer_frame, next_publishable,
}
use cold_bore.Edge.Uplink.Order.{
  of_pad, line, out, of_pad-append, append_assoc, next_publishable-line,
}
use cold_bore.Edge.Uplink.Kept.{
  Kept, Kept-arrives, Kept-same, of_pad-same, of_pad-other, front-owned, flat,
}
use cold_bore.Edge.Uplink.Calm.{
  Calm, next_publishable-Calm, buffer_frame-Calm, buffer-owned, new-Calm,
}

-- A frame comes in, or the uplink asks for the next one to publish.
pub data Step : Type 0 where
  arrives : Frame → Counters → Step
  asks : Reads → Step

-- The frames that came in, that were handed out and that full buffers gave up, in order.
pub record History : Type 0 where
  pub st : UplinkState
  pub came : List Frame
  pub handed_out : List Frame
  pub given_up : List Frame

abbrev step : Step → History → History
step (arrives frame c) x =
    let (st, _, gone) = buffer_frame x.st frame c in
    record x { st = st; came = x.came ++ frame ∷ []; given_up = x.given_up ++ gone }
step (asks r) x =
    let (o, st) = next_publishable r x.st in
    record x { st = st; handed_out = x.handed_out ++ out o }

abbrev pub history : List Step → History → History
history [] x = x
history (s ∷ steps) x = history steps (step s x)

-- No frames reordered.
abbrev pub Straight : Step → Type 0
Straight (arrives frame c) = Unit
Straight (asks r) = r.window ≤ 1

abbrev pub start : ℕ → ℕ → History
start pads buffer_cap = record {
  st = new pads buffer_cap;
  came = [];
  handed_out = [];
  given_up = [];
}

-- What was handed out of a pad, and then what waits.
abbrev pub out_and_waiting : ℕ → History → List Frame
out_and_waiting p x = of_pad p x.handed_out ++ line p x.st

abbrev pub InOrder : ℕ → History → Type 0
InOrder p x = Kept (out_and_waiting p x) (of_pad p x.came) (of_pad p x.given_up)

same_pad : (p : ℕ) → (p == p) ≡ true
same_pad p = ground arith

arrives_here :
    (frame : Frame) (c : Counters) (x : History)
    → Calm x.st
    → InOrder frame.pad x
    → InOrder frame.pad (step (arrives frame c) x)
unfolding buffer_frame
arrives_here frame c x calm h =
    let p = frame.pad in
    let b = buffer_of x.st p in
    let full = is_full x.st b in
    let q = of_pad p x.st.publish_queue in
    let s = of_pad p x.st.shuffle in
    let o = of_pad p x.handed_out in
    let gone = if full then front_of b else [] in
    let v = (if full then rest_of b else b) ++ frame ∷ [] in
    let there : or_default (lookup p (insert p v x.st.pad_buffers)) ≡ v =
      ap or_default (lookup-insert p p v x.st.pad_buffers)
      ∙ ap (λ t. or_default (if t then some v else lookup p x.st.pad_buffers)) (same_pad p) in
    Kept-same (((o ++ q) ++ s) ++ v) _ (of_pad p x.came ++ frame ∷ []) _
      (of_pad p x.given_up ++ gone) _
      (sym (flat o q s v) ∙ ap (λ l. o ++ (q ++ (s ++ l))) (sym there))
      (ap (λ l. of_pad p x.came ++ l) (sym (of_pad-same p (frame ∷ []) (refl, tt)))
        ∙ sym (of_pad-append p x.came (frame ∷ [])))
      (ap (λ l. of_pad p x.given_up ++ l)
          (sym (of_pad-same p gone (front-owned full p b (buffer-owned x.st p calm))))
        ∙ sym (of_pad-append p x.given_up gone))
      (Kept-arrives full ((o ++ q) ++ s) b (of_pad p x.came) (of_pad p x.given_up) frame
        (subst (λ l. Kept l (of_pad p x.came) (of_pad p x.given_up)) (flat o q s b) h))

append_none : (a : List Frame) → a ++ [] ≡ a
append_none [] = refl
append_none (x ∷ a) = ap (◌∷◌ x) (append_none a)

arrives_elsewhere :
    (p : ℕ) (frame : Frame) (c : Counters) (x : History)
    → (p == frame.pad) ≡ false
    → Calm x.st
    → InOrder p x
    → InOrder p (step (arrives frame c) x)
unfolding buffer_frame
arrives_elsewhere p frame c x miss calm h =
    let k = frame.pad in
    let b = buffer_of x.st k in
    let full = is_full x.st b in
    let q = of_pad p x.st.publish_queue in
    let s = of_pad p x.st.shuffle in
    let o = of_pad p x.handed_out in
    let gone = if full then front_of b else [] in
    let v = (if full then rest_of b else b) ++ frame ∷ [] in
    let same : buffer_of x.st p ≡ or_default (lookup p (insert k v x.st.pad_buffers)) = sym (
      ap or_default (lookup-insert p k v x.st.pad_buffers)
      ∙ ap (λ t. or_default (if t then some v else lookup p x.st.pad_buffers)) miss) in
    Kept-same (out_and_waiting p x) _ (of_pad p x.came) _ (of_pad p x.given_up) _
      (ap (λ l. o ++ (q ++ (s ++ l))) same)
      (sym (append_none (of_pad p x.came))
        ∙ ap (λ l. of_pad p x.came ++ l) (sym (of_pad-other p k (frame ∷ []) miss (refl, tt)))
        ∙ sym (of_pad-append p x.came (frame ∷ [])))
      (sym (append_none (of_pad p x.given_up))
        ∙ ap (λ l. of_pad p x.given_up ++ l)
            (sym (of_pad-other p k gone miss (front-owned full k b (buffer-owned x.st k calm))))
        ∙ sym (of_pad-append p x.given_up gone))
      h

step-InOrder :
    (p : ℕ) (s : Step) (x : History) → Straight s → Calm x.st → InOrder p x → InOrder p (step s x)
step-InOrder p (arrives frame c) x straight calm h = elim (Bool-cases (p == frame.pad)) [
  | inl e ↦
      let is = equal p frame.pad e in
      subst (λ k. InOrder k (step (arrives frame c) x)) (sym is)
        (arrives_here frame c x calm (subst (λ k. InOrder k x) is h))
  | inr e ↦ arrives_elsewhere p frame c x e calm h
]
  where
    equal : (a b : ℕ) → (a == b) ≡ true → a ≡ b
    equal a b e = ground arith
step-InOrder p (asks r) x straight calm h =
    let (o, st) = next_publishable r x.st in
    let before = of_pad p x.handed_out in
    let same : out_and_waiting p x ≡ out_and_waiting p (step (asks r) x) = sym (
      ap (λ l. l ++ line p st) (of_pad-append p x.handed_out (out o))
      ∙ append_assoc before (of_pad p (out o)) (line p st)
      ∙ ap (λ l. before ++ l)
          (next_publishable-line p r x.st straight calm.no_retry calm.no_dups calm.keys
            calm.owned)) in
    subst (λ l. Kept l (of_pad p x.came) (of_pad p x.given_up)) same h

step-Calm : (s : Step) (x : History) → Calm x.st → Calm (step s x).st
step-Calm (arrives frame c) x calm = buffer_frame-Calm x.st frame c calm
step-Calm (asks r) x calm = next_publishable-Calm r x.st calm

history-InOrder :
    (p : ℕ) (steps : List Step) (x : History)
    → All Straight steps
    → Calm x.st
    → InOrder p x
    → InOrder p (history steps x)
history-InOrder p [] x straight calm h = h
history-InOrder p (s ∷ steps) x (here, there) calm h =
    history-InOrder p steps (step s x) there (step-Calm s x calm) (step-InOrder p s x here calm h)

empty_line : (p first n : ℕ) → or_default (lookup p (empty_buffers first n)) ≡ []
empty_line p first zero = refl
empty_line p first (suc n) = elim (Bool-cases (p == first)) [
  | inl e ↦ rw e refl
  | inr e ↦ rw e (empty_line p (first + 1) n)
]

start-InOrder : (p pads buffer_cap : ℕ) → InOrder p (start pads buffer_cap)
unfolding new
start-InOrder p pads buffer_cap = (
  subst (λ l. Sublistᴰ l []) (sym (empty_line p 1 pads)) Sublistᴰ.slnil,
  ap (λ l. length l + 0) (empty_line p 1 pads),
)

-- From the start of an uplink, through any run of arrivals and hand-outs, with no reordering injected
-- and nothing to retransmit or duplicate, whatever the links do: of each pad, the frames handed out in
-- their order and behind them those that still wait are the frames that came in, in the order in which
-- they came in, less exactly as many as full buffers gave up.
pub handed_out-InOrder :
    (p pads buffer_cap : ℕ) (steps : List Step)
    → All Straight steps
    → InOrder p (history steps (start pads buffer_cap))
handed_out-InOrder p pads buffer_cap steps straight =
    history-InOrder p steps (start pads buffer_cap) straight (new-Calm pads buffer_cap)
      (start-InOrder p pads buffer_cap)
