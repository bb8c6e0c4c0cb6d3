-- ===== src/Ingest/Gap/Ranges/Punch.antt =====
-- A late arrival in crates/coldbore-ingest/src/gap.rs: the range that holds it, and the table after
-- it was taken out.
use cold_bore.Base.{
  ℕ, suc, ◌+◌, ◌-◌, ◌≤◌, ◌<◌, ◌≡◌, refl, inl, inr, true, false, ◌&&◌, not, List, [], ◌∷◌, Option,
  none, some, Bool-cases, ltb, leb, ◌==◌, if◌then◌else◌, length, arith,
}
use cold_bore.Base.Map.{lookup}
use cold_bore.Ingest.Gap.{GapRange, last_at_most, containing, reaching, punch}
use cold_bore.Ingest.Gap.Ranges.{Ranges, Ranges-le, covers, covers_below, insert_front}

pub lookup_ge :
    (k lo hi : ℕ) (r : GapRange) (m : List (ℕ × GapRange))
    → Ranges lo hi m
    → lookup k m ≡ some r
    → (lo ≤ k) × (k ≤ r.end) × (r.end < hi)
lookup_ge k lo hi r [] h e = ground arith
lookup_ge k lo hi r ((start, u) ∷ m) h e =
    ground (arith, lookup_ge k (suc u.end) hi r m h.2, Ranges-le (suc u.end) hi m h.2)

-- What a search for the last range at or below `seq` may answer.
abbrev pub Found : ℕ → List (ℕ × GapRange) → Option (ℕ × GapRange) → Type 0
Found seq m none = covers seq m ≡ false
Found seq m (some (start, r)) =
    (lookup start m ≡ some r) × (start ≤ seq) × (covers seq m ≡ leb seq r.end)

extend-Found :
    (seq lo hi start : ℕ) (r : GapRange) (m : List (ℕ × GapRange)) (o : Option (ℕ × GapRange))
    → Ranges lo hi ((start, r) ∷ m)
    → start ≤ seq
    → Found seq m o
    → Found seq ((start, r) ∷ m) (elim o [ none ↦ some (start, r) | some e ↦ some e ])
extend-Found seq lo hi start r m none h p f = ground arith
extend-Found seq lo hi start r m (some (j, u)) h p f =
    ground (arith, lookup_ge j (suc r.end) hi u m h.2)

pub last_at_most-Found :
    (seq lo hi : ℕ) (m : List (ℕ × GapRange)) → Ranges lo hi m → Found seq m (last_at_most seq m)
unfolding last_at_most
last_at_most-Found seq lo hi [] h = refl
last_at_most-Found seq lo hi ((start, r) ∷ m) h = elim (Bool-cases (leb start seq)) [
  | inl e ↦ rw e (
      extend-Found seq lo hi start r m (last_at_most seq m) h (ground arith)
        (last_at_most-Found seq (suc r.end) hi m h.2))
  | inr e ↦ rw e (ground (arith, covers_below seq (suc r.end) hi m h.2))
]

-- The code finds the open range of `seq` exactly if there is one.
abbrev pub Contains : ℕ → List (ℕ × GapRange) → Option (ℕ × GapRange) → Type 0
Contains seq m none = covers seq m ≡ false
Contains seq m (some (start, r)) =
    (lookup start m ≡ some r) × (start ≤ seq) × (seq ≤ r.end) × (covers seq m ≡ true)

reaching-Contains :
    (seq : ℕ) (m : List (ℕ × GapRange)) (o : Option (ℕ × GapRange))
    → Found seq m o
    → Contains seq m (reaching seq o)
reaching-Contains seq m none f = f
reaching-Contains seq m (some (start, r)) f = elim (Bool-cases (leb seq r.end)) [
  | inl e ↦ rw e (ground arith)
  | inr e ↦ rw e (ground arith)
]

pub containing-Contains :
    (seq lo hi : ℕ) (m : List (ℕ × GapRange)) → Ranges lo hi m → Contains seq m (containing seq m)
unfolding containing
containing-Contains seq lo hi m h = reaching-Contains seq m _ (last_at_most-Found seq lo hi m h)

-- Away from the head of the table, taking a number out leaves the head alone.
punch_later :
    (seq start j : ℕ) (r u : GapRange) (m : List (ℕ × GapRange))
    → j < start
    → start ≤ seq
    → punch seq start r ((j, u) ∷ m) ≡ (j, u) ∷ punch seq start r m
unfolding punch
punch_later seq start j r u m h p = ground arith

pub Ranges-lower :
    (lo' lo hi : ℕ) (m : List (ℕ × GapRange)) → Ranges lo hi m → lo' ≤ lo → Ranges lo' hi m
Ranges-lower lo' lo hi [] h p = omega arith
Ranges-lower lo' lo hi ((start, r) ∷ m) h p = (omega arith, h.1, h.2)

-- At the head, the range is replaced by what is left of it on both sides.
pub remnants : ℕ → ℕ → GapRange → List (ℕ × GapRange) → List (ℕ × GapRange)
remnants seq start r m =
    let right = if ltb seq r.end then (seq + 1, r) ∷ m else m in
    if ltb start seq then (start, record r { end = seq - 1 }) ∷ right else right

punch_head :
    (seq start lo hi : ℕ) (r : GapRange) (m : List (ℕ × GapRange))
    → Ranges lo hi ((start, r) ∷ m)
    → start ≤ seq
    → seq ≤ r.end
    → punch seq start r ((start, r) ∷ m) ≡ remnants seq start r m
unfolding punch remnants
punch_head seq start lo hi r m h p q = ground (
  arith,
  insert_front start (suc r.end) hi (record r { end = seq - 1 }) m h.2,
  insert_front (seq + 1) (suc r.end) hi r m h.2,
)

remnants-Ranges :
    (seq start lo hi : ℕ) (r : GapRange) (m : List (ℕ × GapRange))
    → Ranges lo hi ((start, r) ∷ m)
    → start ≤ seq
    → seq ≤ r.end
    → Ranges lo hi (remnants seq start r m)
unfolding remnants
remnants-Ranges seq start lo hi r m h p q =
    ground (arith, Ranges-lower lo (suc r.end) hi m, Ranges-lower (suc (seq - 1)) (suc r.end) hi m)

remnants-covers :
    (s seq start lo hi : ℕ) (r : GapRange) (m : List (ℕ × GapRange))
    → Ranges lo hi ((start, r) ∷ m)
    → start ≤ seq
    → seq ≤ r.end
    → covers s (remnants seq start r m) ≡ (covers s ((start, r) ∷ m) && not (s == seq))
unfolding remnants
remnants-covers s seq start lo hi r m h p q = ground (arith, covers_below s (suc r.end) hi m h.2)

remnants-length :
    (seq start : ℕ) (r : GapRange) (m : List (ℕ × GapRange))
    → length (remnants seq start r m)
      ≡ (if ltb start seq then 1 else 0) + (if ltb seq r.end then 1 else 0) + length m
unfolding remnants
remnants-length seq start r m = ground arith

-- What holds of the table after a number was taken out of one of its ranges.
pub record Punched (seq start lo hi : ℕ) (r : GapRange) (m : List (ℕ × GapRange)) : Type 0 where
  pub ranges : Ranges lo hi (punch seq start r m)
  pub covered : (s : ℕ) → covers s (punch seq start r m) ≡ (covers s m && not (s == seq))
  pub size :
      length (punch seq start r m) + 1
      ≡ (if ltb start seq then 1 else 0) + (if ltb seq r.end then 1 else 0) + length m

head-Punched :
    (seq start lo hi : ℕ) (r : GapRange) (m : List (ℕ × GapRange))
    → Ranges lo hi ((start, r) ∷ m)
    → start ≤ seq
    → seq ≤ r.end
    → Punched seq start lo hi r ((start, r) ∷ m)
head-Punched seq start lo hi r m h p q =
    let e = punch_head seq start lo hi r m h p q in
    record {
      ranges = rw e (remnants-Ranges seq start lo hi r m h p q);
      covered = λ s. rw e (remnants-covers s seq start lo hi r m h p q);
      size = rw e (omega (arith, remnants-length seq start r m));
    }

tail-Punched :
    (seq start lo hi j : ℕ) (r u : GapRange) (m : List (ℕ × GapRange))
    → Ranges lo hi ((j, u) ∷ m)
    → u.end < start
    → start ≤ seq
    → Punched seq start (suc u.end) hi r m
    → Punched seq start lo hi r ((j, u) ∷ m)
tail-Punched seq start lo hi j r u m h p q ih =
    let e = punch_later seq start j r u m (omega arith) q in
    record {
      ranges = rw e (h.0, h.1, ih.ranges);
      covered = λ s. rw e (ground (arith, ih.covered s));
      size = rw e (omega (arith, ih.size));
    }

pub punch-Punched :
    (seq start lo hi : ℕ) (r : GapRange) (m : List (ℕ × GapRange))
    → Ranges lo hi m
    → lookup start m ≡ some r
    → start ≤ seq
    → seq ≤ r.end
    → Punched seq start lo hi r m
punch-Punched seq start lo hi r [] h e p q = cc
punch-Punched seq start lo hi r ((j, u) ∷ m) h e p q = elim (Bool-cases (start == j)) [
  | inl t ↦
      let ej : j ≡ start = ground arith in
      let er : u ≡ r = ground arith in
      let h' : Ranges lo hi ((start, r) ∷ m) = ground arith in
      rw (ej, er) (head-Punched seq start lo hi r m h' p q)
  | inr f ↦
      let e' : lookup start m ≡ some r = ground arith in
      tail-Punched seq start lo hi j r u m h
        (omega (arith, lookup_ge start (suc u.end) hi r m h.2 e')) p
        (punch-Punched seq start (suc u.end) hi r m h.2 e' p q)
]
