-- ===== src/Edge/Sim/Sequence.antt =====
-- The sequence numbers that crates/coldbore-edge/src/sim.rs gives out.
use cold_bore.Base.{
  ℕ, zero, suc, ◌<◌, ◌≡◌, refl, sym, ap, subst, ◌∙◌, inl, inr, Bool, List, [], ◌∷◌, Option, none,
  some, Bool-cases, length, arith, add64, u64_mod,
}
use cold_bore.Base.Map.{same, find, put, find-put}
use cold_bore.Proto.Float.{F64}
use cold_bore.Proto.Frame.{Frame}
use cold_bore.Edge.Counters.{Counters}
use cold_bore.Edge.Sim.{
  Waves, WellSim, Generator, Status, running, gone, Tick, then_go, new, step, or_new, generate,
  each_well, each_pad, each_sample, generator, at_end, empty_field,
}
use cold_bore.Edge.Sim.Numbers.{
  seqs_of, down_from, length-down_from, length-seqs_of, seqs_hit, seqs_miss, same_key, same_owner,
  find-put_hit, find-put_miss, next_down,
}

module _ (waves : Waves) (epoch : ℕ) where
  abbrev seq_of : Option (WellSim waves.State) → ℕ
  seq_of none = 0
  seq_of (some sim) = sim.seq

  -- A well stands under its own numbers, in this epoch.
  abbrev Owned : ℕ × ℕ → Option (WellSim waves.State) → Type 0
  Owned k none = Unit
  Owned k (some sim) = (sim.pad ≡ k.0) × (sim.well ≡ k.1) × (sim.epoch ≡ epoch)

  abbrev pub InEpoch : List Frame → Type 0
  InEpoch [] = Unit
  InEpoch (f ∷ fs) = (f.epoch ≡ epoch) × InEpoch fs

  -- While the loop runs every well has sent the numbers from 1 up to its own.
  pub record Counted (g : Generator waves.State) : Type 0 where
    pub numbers :
        length g.sent < u64_mod
        → (k : ℕ × ℕ) → seqs_of k g.sent ≡ down_from (seq_of (find k g.wells))
    pub owned : (k : ℕ × ℕ) → Owned k (find k g.wells)
    pub in_epoch : InEpoch g.sent

  Owned-new :
      (pad well : ℕ) (o : Option (WellSim waves.State))
      → Owned (pad, well) o
      → Owned (pad, well) (some (or_new waves pad well epoch o))
  unfolding new
  Owned-new pad well none h = (refl, refl, refl)
  Owned-new pad well (some sim) h = h

  seq_new :
      (pad well : ℕ) (o : Option (WellSim waves.State))
      → (or_new waves pad well epoch o).seq ≡ seq_of o
  unfolding new
  seq_new pad well none = refl
  seq_new pad well (some sim) = refl

  generate-Counted :
      (t_ms : ℕ) (dt : F64) (pad well : ℕ) (g : Generator waves.State) (c : Counters)
      → Counted g
      → let (sim, frame) =
          step waves (or_new waves pad well epoch (find (pad, well) g.wells)) t_ms dt in
        Counted
          (record { wells = put (pad, well) sim g.wells; counters = c; sent = frame ∷ g.sent })
  unfolding step
  generate-Counted t_ms dt pad well g c h =
      let old = or_new waves pad well epoch (find (pad, well) g.wells) in
      let made = step waves old t_ms dt in
      let mine = Owned-new pad well (find (pad, well) g.wells) (h.owned (pad, well)) in
      record {
        numbers = λ small k. elim (Bool-cases (same k (pad, well))) [
          | inl e ↦
              let here = same_key k (pad, well) e in
              let before : seqs_of k g.sent ≡ down_from old.seq =
                h.numbers (omega (arith, small)) k
                ∙ ap (λ j. down_from (seq_of (find j g.wells))) here
                ∙ ap down_from (sym (seq_new pad well (find (pad, well) g.wells))) in
              let fits : suc old.seq < u64_mod = omega (
                arith,
                small,
                length-seqs_of k g.sent,
                ap length before,
                length-down_from old.seq,
              ) in
              seqs_hit k made.1 g.sent (same_owner k old.pad old.well pad well mine.0 mine.1 ∙ e)
              ∙ ap (λ xs. add64 old.seq 1 ∷ xs) before
              ∙ next_down old.seq fits
              ∙ ap (λ o. down_from (seq_of o)) (sym (find-put_hit k (pad, well) made.0 g.wells e))
          | inr e ↦
              seqs_miss k made.1 g.sent (same_owner k old.pad old.well pad well mine.0 mine.1 ∙ e)
              ∙ h.numbers (omega (arith, small)) k
              ∙ ap (λ o. down_from (seq_of o)) (sym (find-put_miss k (pad, well) made.0 g.wells e))
        ];
        owned = λ k.
            subst (Owned k) (sym (find-put k (pad, well) made.0 g.wells))
              (elim (Bool-cases (same k (pad, well))) [
                | inl e ↦
                    rw e (subst (λ j. Owned j (some made.0)) (sym (same_key k (pad, well) e)) mine)
                | inr e ↦ rw e (h.owned k)
              ]);
        in_epoch = (mine.2, h.in_epoch);
      }

  -- The numbers of each well run from 1 on, in the order in which its frames were sent.
  abbrev pub Contiguous : List Frame → Type 0
  Contiguous sent =
      InEpoch sent × ((k : ℕ × ℕ) → seqs_of k sent ≡ down_from (length (seqs_of k sent)))

  -- What stays true of the frames sent when the loop returns in the middle of a well.
  abbrev Bounded : Generator waves.State → Type 0
  Bounded g = length g.sent < u64_mod → Contiguous g.sent

  abbrev Holds : Status waves.State → Type 0
  Holds (running g) = Counted g
  Holds (gone g) = Bounded g

  Counted-Bounded : (g : Generator waves.State) → Counted g → Bounded g
  Counted-Bounded g h small = (
    h.in_epoch,
    λ k.
        let e = h.numbers small k in
        let n = ap length e ∙ length-down_from (seq_of (find k g.wells)) in
        e ∙ ap down_from (sym n),
  )

  generate-Holds :
      (takes : List Frame → Bool) (t_ms : ℕ) (dt : F64) (pad well : ℕ) (g : Generator waves.State)
      → Counted g
      → Holds (generate waves epoch takes t_ms dt pad well g)
  unfolding generate
  generate-Holds takes t_ms dt pad well g h = elim (Bool-cases (takes g.sent)) [
    | inl e ↦ rw e (generate-Counted t_ms dt pad well g _ h)
    | inr e ↦ rw e (Counted-Bounded g h)
  ]

  then_go-Holds :
      (f : Generator waves.State → Status waves.State) (r : Status waves.State)
      → ((g : Generator waves.State) → Counted g → Holds (f g))
      → Holds r
      → Holds (then_go f r)
  then_go-Holds f (running g) k h = k g h
  then_go-Holds f (gone g) k h = h

  each_well-Holds :
      (takes : List Frame → Bool) (t_ms : ℕ) (dt : F64) (pad left well : ℕ)
      (g : Generator waves.State)
      → Counted g
      → Holds (each_well waves epoch takes t_ms dt pad well left g)
  unfolding each_well
  each_well-Holds takes t_ms dt pad zero well g h = h
  each_well-Holds takes t_ms dt pad (suc left) well g h =
      then_go-Holds (each_well waves epoch takes t_ms dt pad (suc well) left) _
        (each_well-Holds takes t_ms dt pad left (suc well))
        (generate-Holds takes t_ms dt pad well g h)

  each_pad-Holds :
      (takes : List Frame → Bool) (t_ms : ℕ) (dt : F64) (wells_per_pad left pad : ℕ)
      (g : Generator waves.State)
      → Counted g
      → Holds (each_pad waves epoch takes t_ms dt wells_per_pad pad left g)
  unfolding each_pad
  each_pad-Holds takes t_ms dt wells_per_pad zero pad g h = h
  each_pad-Holds takes t_ms dt wells_per_pad (suc left) pad g h =
      then_go-Holds (each_pad waves epoch takes t_ms dt wells_per_pad (suc pad) left) _
        (each_pad-Holds takes t_ms dt wells_per_pad left (suc pad))
        (each_well-Holds takes t_ms dt pad wells_per_pad 1 g h)

  each_sample-Holds :
      (takes : List Frame → Bool) (tick : Tick) (left : ℕ) (g : Generator waves.State)
      → Counted g
      → Holds (each_sample waves epoch takes tick left g)
  unfolding each_sample
  each_sample-Holds takes tick zero g h = h
  each_sample-Holds takes tick (suc left) g h =
      then_go-Holds (each_sample waves epoch takes tick left) _ (each_sample-Holds takes tick left)
        (each_pad-Holds takes (tick.t_ms left) tick.dt tick.wells_per_pad tick.pads 1 g h)

  generator-Holds :
      (takes : List Frame → Bool) (ticks : List Tick) (g : Generator waves.State)
      → Counted g
      → Holds (generator waves epoch takes ticks g)
  unfolding generator
  generator-Holds takes [] g h = h
  generator-Holds takes (tick ∷ ticks) g h =
      then_go-Holds (generator waves epoch takes ticks) _ (generator-Holds takes ticks)
        (each_sample-Holds takes tick tick.samples g h)

  nothing_yet : (k : ℕ × ℕ) → find k (empty_field {State = waves.State}).wells ≡ none
  unfolding find
  nothing_yet k = refl

  Holds-Bounded : (r : Status waves.State) → Holds r → Bounded (at_end r)
  Holds-Bounded (running g) h = Counted-Bounded g h
  Holds-Bounded (gone g) h = h

  -- However the field is resized between samples, at whatever rate and wherever the channel closes,
  -- with fewer than 2^64 frames sent: the frames that the generator sent of each well carry, in the
  -- order in which they were sent, the sequence numbers 1, 2, 3 and so on, without a gap or a repeat;
  -- and every frame carries the epoch of the run.
  pub generator-Contiguous :
      (takes : List Frame → Bool) (ticks : List Tick)
      → length (at_end (generator waves epoch takes ticks empty_field)).sent < u64_mod
      → Contiguous (at_end (generator waves epoch takes ticks empty_field)).sent
  generator-Contiguous takes ticks small =
      Holds-Bounded _
        (generator-Holds takes ticks empty_field record {
          numbers = λ small k. ap (λ o. down_from (seq_of o)) (sym (nothing_yet k));
          owned = λ k. subst (Owned k) (sym (nothing_yet k)) tt;
          in_epoch = tt;
        })
        small
