-- ===== src/Ingest/Gap/Arrivals.antt =====
-- Any number of arrivals at one well of crates/coldbore-ingest/src/gap.rs, newest first, against a
-- description of what is missing that only looks at the list of arrivals.
use cold_bore.Base.{
  ℕ, suc, ◌-◌, ◌≤◌, ◌<◌, ◌≡◌, refl, sym, ap, subst, subst₂, inl, inr, ◌∙◌, Bool, true, false, ◌&&◌,
  ◌||◌, not, List, [], ◌∷◌, Bool-cases, ltb, leb, ◌==◌, if◌then◌else◌, length, All, arith, u64_mod,
  add64_exact,
}
use cold_bore.Ingest.Gap.{WellGaps, observe_well, start_well}
use cold_bore.Ingest.Gap.Ranges.{Ranges-le}
use cold_bore.Ingest.Gap.Well.{IsValid, missing, Accounts, arrive-Accounts}

-- One call of `observe` for the well.
pub record Seen : Type 0 where
  pub epoch : ℕ
  pub seq : ℕ
  pub now : ℕ

-- The well after its arrivals: it starts in `epoch` and expects `base`.
module _ (pad well epoch base : ℕ) where
  unfoldable pub after : List Seen → WellGaps
  after [] = start_well epoch base
  after (o ∷ os) = (observe_well pad well (after os) o.epoch o.seq o.now).0

-- The newest producer generation.
abbrev pub top : ℕ → List Seen → ℕ
top epoch [] = epoch
top epoch (o ∷ os) = if ltb (top epoch os) o.epoch then o.epoch else top epoch os

-- Did `s` arrive in generation `e`?
abbrev pub arrived : ℕ → ℕ → List Seen → Bool
arrived e s [] = false
arrived e s (o ∷ os) = (o.epoch == e && s == o.seq) || arrived e s os

-- One more than the greatest number that arrived in generation `e`, or `base` if that is greater.
abbrev pub expected : ℕ → ℕ → List Seen → ℕ
expected base e [] = base
expected base e (o ∷ os) =
    if o.epoch == e && leb (expected base e os) o.seq then suc o.seq else expected base e os

-- The first number of the newest generation: `base` in the well's first one, and 1 in a later one.
abbrev pub floor : ℕ → ℕ → List Seen → ℕ
floor epoch base os = if top epoch os == epoch then base else 1

pub epoch-le-top : (epoch : ℕ) (os : List Seen) → epoch ≤ top epoch os
epoch-le-top epoch [] = omega arith
epoch-le-top epoch (o ∷ os) = ground (arith, epoch-le-top epoch os)

arrived_above : (epoch e s : ℕ) (os : List Seen) → top epoch os < e → arrived e s os ≡ false
arrived_above epoch e s [] h = refl
arrived_above epoch e s (o ∷ os) h = ground (arith, arrived_above epoch e s os)

expected_above : (epoch base e : ℕ) (os : List Seen) → top epoch os < e → expected base e os ≡ base
expected_above epoch base e [] h = refl
expected_above epoch base e (o ∷ os) h = ground (arith, expected_above epoch base e os)

arrived_beyond : (base e s : ℕ) (os : List Seen) → expected base e os ≤ s → arrived e s os ≡ false
arrived_beyond base e s [] h = refl
arrived_beyond base e s (o ∷ os) h = ground (arith, arrived_beyond base e s os)

abbrev pub InRange : Seen → Type 0
InRange o = suc o.seq < u64_mod

-- Between the first number and the watermark of a generation, what did not arrive is lost.
abbrev pub lost : ℕ → ℕ → List Seen → ℕ → Bool
lost base e os s = leb base s && ltb s (expected base e os) && not (arrived e s os)

-- The well `w` accounts for the arrivals `os` of generation `e`, which starts at `base`.
pub record Faithful (base e : ℕ) (os : List Seen) (w : WellGaps) : Type 0 where
  pub generation : w.epoch ≡ e
  pub valid : IsValid base w
  pub watermark : w.next_expected ≡ expected base e os
  pub few : w.untracked ≤ length os
  pub exact : (s : ℕ) → w.untracked ≡ 0 → missing s w ≡ lost base e os s
  pub sound : (s : ℕ) → missing s w ≡ true → lost base e os s ≡ true

-- A straggler of an older generation changes neither the well nor the description.
straggler_step :
    (base e : ℕ) (o : Seen) (os : List Seen) (w : WellGaps)
    → Faithful base e os w
    → o.epoch < e
    → Faithful base e (o ∷ os) w
straggler_step base e o os w f h = record {
  generation = f.generation;
  valid = f.valid;
  watermark = ground (arith, f.watermark);
  few = omega (arith, f.few);
  exact = λ s z. ground (arith, f.exact s z);
  sound = λ s m. ground (arith, f.sound s m);
}

-- An arrival of the generation.
module _ (base e : ℕ) (o : Seen) (os : List Seen) (w w' : WellGaps) (f : Faithful base e os w)
    (h : o.epoch ≡ e) (n : length os < u64_mod - 1) (a : Accounts base o.seq w w') where
  expected_step :
      expected base e (o ∷ os) ≡ (if leb w.next_expected o.seq then suc o.seq else w.next_expected)
  expected_step = ground (arith, f.watermark)

  exact_step : (s : ℕ) → w'.untracked ≡ 0 → missing s w' ≡ lost base e (o ∷ os) s
  exact_step s z = ground (
    arith,
    a.missing_after s,
    a.untracked_after,
    a.watermark,
    expected_step,
    f.few,
    f.exact s,
    f.watermark,
    arrived_beyond base e s os,
    Ranges-le base w.next_expected w.open_ranges f.valid,
    add64_exact w.untracked 1,
  )

  sound_step : (s : ℕ) → missing s w' ≡ true → lost base e (o ∷ os) s ≡ true
  sound_step s m = ground (
    arith,
    a.missing_after s,
    a.untracked_after,
    a.watermark,
    expected_step,
    f.few,
    f.sound s,
    f.watermark,
    arrived_beyond base e s os,
    Ranges-le base w.next_expected w.open_ranges f.valid,
    add64_exact w.untracked 1,
  )

  current_step : Faithful base e (o ∷ os) w'
  current_step = record {
    generation = a.epoch ∙ f.generation;
    valid = a.valid;
    watermark = a.watermark ∙ sym expected_step;
    few = ground (arith, a.untracked_after, f.few, add64_exact w.untracked 1);
    exact = exact_step;
    sound = sound_step;
  }

-- A well that starts a generation of which nothing has arrived.
start-Faithful :
    (base e e' : ℕ) (os : List Seen) → top e os < e' → Faithful base e' os (start_well e' base)
start-Faithful base e e' os h = record {
  generation = refl;
  valid = omega arith;
  watermark = sym (expected_above e base e' os h);
  few = omega arith;
  exact = λ s z. ground (arith, expected_above e base e' os h);
  sound = λ s m. cc;
}

module _ (pad well epoch base : ℕ) (o : Seen) (os : List Seen) (w : WellGaps) where
  abbrev Next : WellGaps → Type 0
  Next w' = Faithful (floor epoch base (o ∷ os)) (top epoch (o ∷ os)) (o ∷ os) w'

  older_step : Faithful (floor epoch base os) (top epoch os) os w → o.epoch < top epoch os → Next w
  older_step f h =
      let same_top : top epoch (o ∷ os) ≡ top epoch os = ground arith in
      subst₂ (λ b g. Faithful b g (o ∷ os) w)
        (ap (λ g. if g == epoch then base else 1) (sym same_top)) (sym same_top)
        (straggler_step _ _ o os w f h)

  same_step :
      (w' : WellGaps)
      → Faithful (floor epoch base os) (top epoch os) os w
      → o.epoch ≡ top epoch os
      → length os < u64_mod - 1
      → Accounts (floor epoch base os) o.seq w w'
      → Next w'
  same_step w' f h n a =
      let same_top : top epoch (o ∷ os) ≡ top epoch os = ground arith in
      subst₂ (λ b g. Faithful b g (o ∷ os) w')
        (ap (λ g. if g == epoch then base else 1) (sym same_top)) (sym same_top)
        (current_step _ _ o os w w' f h n a)

  newer_step :
      (w' : WellGaps)
      → top epoch os < o.epoch
      → length os < u64_mod - 1
      → Accounts 1 o.seq (start_well o.epoch 1) w'
      → Next w'
  newer_step w' h n a =
      let new_top : top epoch (o ∷ os) ≡ o.epoch = ground arith in
      let new_floor : floor epoch base (o ∷ os) ≡ 1 = ground (arith, epoch-le-top epoch os) in
      subst₂ (λ b g. Faithful b g (o ∷ os) w') (sym new_floor) (sym new_top)
        (current_step 1 o.epoch o os (start_well o.epoch 1) w' (start-Faithful 1 epoch o.epoch os h)
          refl n a)

  observe_step :
      Faithful (floor epoch base os) (top epoch os) os w
      → InRange o
      → length os < u64_mod - 1
      → Next (observe_well pad well w o.epoch o.seq o.now).0
  unfolding observe_well
  observe_step f r n = elim (Bool-cases (ltb o.epoch w.epoch)) [
    | inl e ↦ rw e (older_step f (ground (arith, f.generation)))
    | inr e ↦ rw e (elim (Bool-cases (ltb w.epoch o.epoch)) [
      | inl e' ↦ rw e' (
          newer_step _ (ground (arith, f.generation)) n
            (arrive-Accounts 1 pad well (start_well o.epoch 1) o.seq o.now (omega arith) r))
      | inr e' ↦ rw e' (
          same_step _ f (ground (arith, f.generation)) n
            (arrive-Accounts _ pad well w o.seq o.now f.valid r))
    ])
  ]

-- Whatever arrives in whatever order, the well accounts for exactly its newest generation.
pub after-Faithful :
    (pad well epoch base : ℕ) (os : List Seen)
    → All InRange os
    → length os < u64_mod
    → Faithful (floor epoch base os) (top epoch os) os (after pad well epoch base os)
unfolding after
after-Faithful pad well epoch base [] r n =
    let begins : floor epoch base [] ≡ base = ground arith in
    subst (λ b. Faithful b epoch [] (start_well epoch base)) (sym begins)
      (record {
        generation = refl;
        valid = omega arith;
        watermark = refl;
        few = omega arith;
        exact = λ s z. ground arith;
        sound = λ s m. cc;
      })
after-Faithful pad well epoch base (o ∷ os) r n =
    observe_step pad well epoch base o os (after pad well epoch base os)
      (after-Faithful pad well epoch base os r.1 (omega arith)) r.0 (omega arith)
