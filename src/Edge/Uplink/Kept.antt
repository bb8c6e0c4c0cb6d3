-- ===== src/Edge/Uplink/Kept.antt =====
-- Lists of frames against what came in: for the order in which crates/coldbore-edge/src/uplink.rs hands
-- frames out.
use cold_bore.Base.{
  ℕ, ◌+◌, ◌≡◌, refl, sym, ap, subst, ◌∙◌, Bool, true, false, List, [], ◌∷◌, ◌++◌, ◌==◌,
  if◌then◌else◌, length, length-append, All, arith,
}
use mathlib.Core.List.{Sublistᴰ}
use mathlib.Core.List.Sublistᴰ
use cold_bore.Proto.Frame.{Frame}
use cold_bore.Edge.Uplink.{rest_of, front_of}
use cold_bore.Edge.Uplink.Order.{of_pad, append_assoc}

-- `kept` is what came in, in order, less as many frames as were given up.
abbrev pub Kept : List Frame → List Frame → List Frame → Type 0
Kept kept came given_up = Sublistᴰ kept came × (length kept + length given_up ≡ length came)

Sublistᴰ-snoc : (a b : List Frame) (f : Frame) → Sublistᴰ a b → Sublistᴰ (a ++ f ∷ []) (b ++ f ∷ [])
Sublistᴰ-snoc [] [] f Sublistᴰ.slnil = Sublistᴰ.refl (f ∷ [])
Sublistᴰ-snoc (y ∷ a) [] f s = elim s [ ]
Sublistᴰ-snoc a (x ∷ b) f (Sublistᴰ.cons s) = Sublistᴰ.cons (Sublistᴰ-snoc a b f s)
Sublistᴰ-snoc (y ∷ a) (x ∷ b) f (Sublistᴰ.cons-cons e s) =
    Sublistᴰ.cons-cons e (Sublistᴰ-snoc a b f s)

Sublistᴰ-behind : (a b c : List Frame) → Sublistᴰ b c → Sublistᴰ (a ++ b) (a ++ c)
Sublistᴰ-behind [] b c s = s
Sublistᴰ-behind (x ∷ a) b c s = Sublistᴰ.cons-cons refl (Sublistᴰ-behind a b c s)

rest-Sublistᴰ : (buf : List Frame) → Sublistᴰ (rest_of buf) buf
rest-Sublistᴰ [] = Sublistᴰ.slnil
rest-Sublistᴰ (f ∷ fs) = Sublistᴰ.cons (Sublistᴰ.refl fs)

kept-Sublistᴰ : (full : Bool) (buf : List Frame) → Sublistᴰ (if full then rest_of buf else buf) buf
kept-Sublistᴰ true buf = rest-Sublistᴰ buf
kept-Sublistᴰ false buf = Sublistᴰ.refl buf

length-kept :
    (full : Bool) (buf : List Frame)
    → length (if full then rest_of buf else buf) + length (if full then front_of buf else [])
      ≡ length buf
length-kept true [] = refl
length-kept true (f ∷ fs) = omega arith
length-kept false buf = omega arith

-- The frames of one pad in a list of frames of one pad.
pub of_pad-same : (p : ℕ) (fs : List Frame) → All (λ f. f.pad ≡ p) fs → of_pad p fs ≡ fs
of_pad-same p [] h = refl
of_pad-same p (f ∷ fs) (is, h) = rw (hit p f.pad is) (ap (◌∷◌ f) (of_pad-same p fs h))
  where
    hit : (a b : ℕ) → b ≡ a → (a == b) ≡ true
    hit a b e = ground arith

pub of_pad-other :
    (p k : ℕ) (fs : List Frame) → (p == k) ≡ false → All (λ f. f.pad ≡ k) fs → of_pad p fs ≡ []
of_pad-other p k [] miss h = refl
of_pad-other p k (f ∷ fs) miss (is, h) =
    rw (ap (λ i. p == i) is ∙ miss) (of_pad-other p k fs miss h)

pub front-owned :
    (full : Bool) (k : ℕ) (buf : List Frame)
    → All (λ f. f.pad ≡ k) buf
    → All (λ f. f.pad ≡ k) (if full then front_of buf else [])
front-owned true k [] h = tt
front-owned true k (f ∷ fs) h = (h.0, tt)
front-owned false k buf h = tt

pub flat : (a q s b : List Frame) → a ++ (q ++ (s ++ b)) ≡ ((a ++ q) ++ s) ++ b
flat a q s b = sym (append_assoc (a ++ q) s b ∙ append_assoc a q (s ++ b))

-- A frame comes in behind what waits, and a full buffer gives its front up.
pub Kept-arrives :
    (full : Bool) (w b came up : List Frame) (f : Frame)
    → Kept (w ++ b) came up
    → Kept
        (w ++ ((if full then rest_of b else b) ++ f ∷ []))
        (came ++ f ∷ [])
        (up ++ (if full then front_of b else []))
Kept-arrives full w b came up f (order, count) =
    let kept = if full then rest_of b else b in
    (
      subst (λ l. Sublistᴰ l (came ++ f ∷ [])) (append_assoc w kept (f ∷ []))
          (Sublistᴰ-snoc (w ++ kept) came f
            (Sublistᴰ.trans (Sublistᴰ-behind w kept b (kept-Sublistᴰ full b)) order)),
      omega (
        arith,
        count,
        length-kept full b,
        length-append w b,
        length-append w (kept ++ f ∷ []),
        length-append kept (f ∷ []),
        length-append came (f ∷ []),
        length-append up (if full then front_of b else []),
      ),
    )

pub Kept-same :
    (a a' b b' c c' : List Frame) → a ≡ a' → b ≡ b' → c ≡ c' → Kept a b c → Kept a' b' c'
Kept-same a a' b b' c c' p q r k =
    subst (λ x. Kept x b' c') p (subst (λ x. Kept a x c') q (subst (λ x. Kept a b x) r k))
