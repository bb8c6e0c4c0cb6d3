-- ===== src/Edge/Sim/Numbers.antt =====
-- The sequence numbers in a list of frames, and the wells that crates/coldbore-edge/src/sim.rs looks up.
use cold_bore.Base.{
  ℕ, zero, suc, ◌≤◌, ◌<◌, ◌≡◌, refl, sym, ap, ◌∙◌, inl, inr, true, false, List, [], ◌∷◌, some,
  Bool-cases, if◌then◌else◌, length, arith, add64, add64_exact, u64_mod,
}
use mathlib.Core.Path.{ap₂}
use cold_bore.Base.Map.{same, find, put, find-put}
use cold_bore.Proto.Frame.{Frame}

-- The sequence numbers of the frames of one well, newest first.
abbrev pub seqs_of : ℕ × ℕ → List Frame → List ℕ
seqs_of k [] = []
seqs_of k (f ∷ fs) = if same k (f.pad, f.well) then f.seq ∷ seqs_of k fs else seqs_of k fs

-- n, n - 1, .., 1
abbrev pub down_from : ℕ → List ℕ
down_from zero = []
down_from (suc n) = suc n ∷ down_from n

pub length-down_from : (n : ℕ) → length (down_from n) ≡ n
length-down_from zero = refl
length-down_from (suc n) = ap suc (length-down_from n)

pub length-seqs_of : (k : ℕ × ℕ) (fs : List Frame) → length (seqs_of k fs) ≤ length fs
length-seqs_of k [] = omega arith
length-seqs_of k (f ∷ fs) = elim (Bool-cases (same k (f.pad, f.well))) [
  | inl e ↦ rw e (omega (arith, length-seqs_of k fs))
  | inr e ↦ rw e (omega (arith, length-seqs_of k fs))
]

pub seqs_hit :
    (k : ℕ × ℕ) (f : Frame) (fs : List Frame)
    → same k (f.pad, f.well) ≡ true
    → seqs_of k (f ∷ fs) ≡ f.seq ∷ seqs_of k fs
seqs_hit k f fs e = rw e refl

pub seqs_miss :
    (k : ℕ × ℕ) (f : Frame) (fs : List Frame)
    → same k (f.pad, f.well) ≡ false
    → seqs_of k (f ∷ fs) ≡ seqs_of k fs
seqs_miss k f fs e = rw e refl

same_parts : (k j : ℕ × ℕ) → same k j ≡ true → (k.0 ≡ j.0) × (k.1 ≡ j.1)
same_parts (a, b) (c, d) h = ground arith

pub same_key : (k j : ℕ × ℕ) → same k j ≡ true → k ≡ j
same_key k j h = let (p, q) = same_parts k j h in ap₂ (λ a b. (a, b)) p q

pub same_owner : (k : ℕ × ℕ) (a b c d : ℕ) → a ≡ c → b ≡ d → same k (a, b) ≡ same k (c, d)
same_owner k a b c d p q = ap (λ x. same k (x, b)) p ∙ ap (λ y. same k (c, y)) q

pub find-put_hit :
    {V : Type 0} (k j : ℕ × ℕ) (v : V) (m : List ((ℕ × ℕ) × V))
    → same k j ≡ true
    → find k (put j v m) ≡ some v
find-put_hit k j v m e = find-put k j v m ∙ ap (λ b. if b then some v else find k m) e

pub find-put_miss :
    {V : Type 0} (k j : ℕ × ℕ) (v : V) (m : List ((ℕ × ℕ) × V))
    → same k j ≡ false
    → find k (put j v m) ≡ find k m
find-put_miss k j v m e = find-put k j v m ∙ ap (λ b. if b then some v else find k m) e

pub next_down : (n : ℕ) → suc n < u64_mod → add64 n 1 ∷ down_from n ≡ down_from (add64 n 1)
next_down n h =
    let e : add64 n 1 ≡ suc n = add64_exact n 1 (omega (arith, h)) ∙ omega arith in
    ap (λ x. x ∷ down_from n) e ∙ sym (ap down_from e)
