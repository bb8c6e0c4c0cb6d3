-- ===== src/Ingest/Gap/Ranges.antt =====
-- The table of open ranges in crates/coldbore-ingest/src/gap.rs: sorted and disjoint, and a set of
-- sequence numbers to whoever only asks what is missing.
pub mod Punch
use cold_bore.Base.{
  ℕ, suc, ◌+◌, ◌-◌, ◌≤◌, ◌<◌, ◌≡◌, refl, ◌⊎◌, inl, inr, ◌∙◌, Bool, true, false, ◌&&◌, ◌||◌, not,
  List, [], ◌∷◌, Option, none, some, Option-cases, Bool-cases, ltb, leb, ◌==◌, if◌then◌else◌,
  length, arith,
}
use cold_bore.Base.Map.{lookup, insert, remove}
use cold_bore.Ingest.Gap.{GapRange, last_at_most, containing, reaching, punch}

-- Ascending, non-empty, disjoint ranges from `lo` on that end below `hi`.
abbrev pub Ranges : ℕ → ℕ → List (ℕ × GapRange) → Type 0
Ranges lo hi [] = lo ≤ hi
Ranges lo hi ((start, r) ∷ m) = (lo ≤ start) × (start ≤ r.end) × Ranges (suc r.end) hi m

abbrev pub within : ℕ → ℕ → GapRange → Bool
within s start r = leb start s && leb s r.end

-- Does some open range hold `s`?
abbrev pub covers : ℕ → List (ℕ × GapRange) → Bool
covers s [] = false
covers s ((start, r) ∷ m) = within s start r || covers s m

pub Ranges-le : (lo hi : ℕ) (m : List (ℕ × GapRange)) → Ranges lo hi m → lo ≤ hi
Ranges-le lo hi [] h = h
Ranges-le lo hi ((start, r) ∷ m) h = omega (arith, Ranges-le (suc r.end) hi m h.2)

pub Ranges-raise :
    (lo hi hi' : ℕ) (m : List (ℕ × GapRange)) → Ranges lo hi m → hi ≤ hi' → Ranges lo hi' m
Ranges-raise lo hi hi' [] h p = omega arith
Ranges-raise lo hi hi' ((start, r) ∷ m) h p = (h.0, h.1, Ranges-raise (suc r.end) hi hi' m h.2 p)

-- Nothing is covered below the table or above it.
pub covers_below :
    (s lo hi : ℕ) (m : List (ℕ × GapRange)) → Ranges lo hi m → s < lo → covers s m ≡ false
covers_below s lo hi [] h k = refl
covers_below s lo hi ((start, r) ∷ m) h k = ground (arith, covers_below s (suc r.end) hi m h.2)

pub covers_above :
    (s lo hi : ℕ) (m : List (ℕ × GapRange)) → Ranges lo hi m → hi ≤ s → covers s m ≡ false
covers_above s lo hi [] h k = refl
covers_above s lo hi ((start, r) ∷ m) h k =
    ground (arith, covers_above s (suc r.end) hi m h.2, Ranges-le (suc r.end) hi m h.2)

pub insert_front :
    (k lo hi : ℕ) (v : GapRange) (m : List (ℕ × GapRange))
    → Ranges lo hi m
    → k < lo
    → insert k v m ≡ (k, v) ∷ m
insert_front k lo hi v [] h p = refl
insert_front k lo hi v ((start, r) ∷ m) h p = ground arith

-- A range that opens at the watermark goes to the end of the table.
pub insert_last-Ranges :
    (lo hi to : ℕ) (r : GapRange) (m : List (ℕ × GapRange))
    → Ranges lo hi m
    → r.end ≡ to
    → hi ≤ to
    → Ranges lo (suc to) (insert hi r m)
insert_last-Ranges lo hi to r [] h e p = omega arith
insert_last-Ranges lo hi to r ((start, u) ∷ m) h e p =
    ground (arith, insert_last-Ranges (suc u.end) hi to r m h.2 e p, Ranges-le (suc u.end) hi m h.2)

pub insert_last-covers :
    (s lo hi : ℕ) (r : GapRange) (m : List (ℕ × GapRange))
    → Ranges lo hi m
    → covers s (insert hi r m) ≡ (covers s m || within s hi r)
insert_last-covers s lo hi r [] h = ground arith
insert_last-covers s lo hi r ((start, u) ∷ m) h =
    ground (arith, insert_last-covers s (suc u.end) hi r m h.2, Ranges-le (suc u.end) hi m h.2)

pub insert_last-length :
    (lo hi : ℕ) (r : GapRange) (m : List (ℕ × GapRange))
    → Ranges lo hi m
    → length (insert hi r m) ≡ suc (length m)
insert_last-length lo hi r [] h = refl
insert_last-length lo hi r ((start, u) ∷ m) h =
    ground (arith, insert_last-length (suc u.end) hi r m h.2, Ranges-le (suc u.end) hi m h.2)
