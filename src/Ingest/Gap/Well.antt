-- ===== src/Ingest/Gap/Well.antt =====
-- One well of crates/coldbore-ingest/src/gap.rs: its open ranges are what is missing.
use cold_bore.Base.{
  ℕ, suc, ◌+◌, ◌-◌, ◌<◌, ◌≡◌, refl, subst, inl, inr, Bool, true, false, ◌&&◌, not, Option, none,
  some, Bool-cases, ltb, leb, ◌==◌, if◌then◌else◌, length, arith, u64_mod, add64, add64_exact,
}
use cold_bore.Base.Map.{insert}
use cold_bore.Ingest.Gap.{GapRange, WellGaps, max_open_per_well, containing, jump, fill, arrive}
use cold_bore.Ingest.Gap.Ranges.{
  Ranges, Ranges-raise, covers, insert_last-Ranges, insert_last-covers, covers_above,
}
use cold_bore.Ingest.Gap.Ranges.Punch.{lookup_ge, Contains, containing-Contains, punch-Punched}

-- Open ranges are sorted, disjoint and non-empty, start at `base` or above, and lie strictly below
-- the watermark.
abbrev pub IsValid : ℕ → WellGaps → Type 0
IsValid base w = Ranges base w.next_expected w.open_ranges

-- Is `s` known to be missing?
abbrev pub missing : ℕ → WellGaps → Bool
missing s w = covers s w.open_ranges

-- What an arrival of `seq` does to the missing numbers and to the watermark. A jump makes the
-- numbers that it skips missing, if the table has room; otherwise it counts one more untracked gap.
abbrev pub has_room : WellGaps → Bool
has_room w = ltb (length w.open_ranges) max_open_per_well

abbrev pub skipped : ℕ → ℕ → WellGaps → Bool
skipped s seq w = leb w.next_expected s && ltb s seq

pub record Accounts (base seq : ℕ) (w w' : WellGaps) : Type 0 where
  pub valid : IsValid base w'
  pub epoch : w'.epoch ≡ w.epoch
  pub watermark : w'.next_expected ≡ (if leb w.next_expected seq then suc seq else w.next_expected)
  pub missing_after :
      (s : ℕ)
      → missing s w'
        ≡ (if s == seq then false else if skipped s seq w && has_room w then true else missing s w)
  pub untracked_after :
      w'.untracked
      ≡ (if ltb w.next_expected seq && not (has_room w) then add64 w.untracked 1 else w.untracked)

in_order-Accounts :
    (base : ℕ) (w : WellGaps) (seq : ℕ)
    → IsValid base w
    → seq ≡ w.next_expected
    → suc seq < u64_mod
    → Accounts base seq w (record w { next_expected = add64 w.next_expected 1 })
in_order-Accounts base w seq v e b =
    let a : add64 w.next_expected 1 ≡ suc seq = omega (arith, add64_exact w.next_expected 1) in
    rw a (record {
      valid = Ranges-raise base w.next_expected (suc seq) w.open_ranges v (omega arith);
      epoch = refl;
      watermark = ground arith;
      missing_after = λ s. ground (arith, covers_above s base w.next_expected w.open_ranges v);
      untracked_after = ground arith;
    })

fill-Accounts :
    (base pad well : ℕ) (w : WellGaps) (seq now : ℕ) (o : Option (ℕ × GapRange))
    → IsValid base w
    → seq < w.next_expected
    → Contains seq w.open_ranges o
    → Accounts base seq w (fill pad well w seq now o).0
unfolding fill
fill-Accounts base pad well w seq now none v h c = record {
  valid = v;
  epoch = refl;
  watermark = ground arith;
  missing_after = λ s. ground (arith, c);
  untracked_after = ground arith;
}
fill-Accounts base pad well w seq now (some (start, r)) v h c =
    let p = punch-Punched seq start base w.next_expected r w.open_ranges v c.0 c.1 c.2 in
    record {
      valid = p.ranges;
      epoch = refl;
      watermark = ground arith;
      missing_after = λ s. ground (arith, p.covered s);
      untracked_after = ground arith;
    }

jump-Accounts :
    (base pad well : ℕ) (w : WellGaps) (seq now : ℕ)
    → IsValid base w
    → w.next_expected < seq
    → suc seq < u64_mod
    → Accounts base seq w (jump pad well w seq now).0
unfolding jump
jump-Accounts base pad well w seq now v h b =
    let a : add64 seq 1 ≡ suc seq = omega (arith, add64_exact seq 1) in
    let r : GapRange = record { end = seq - 1; opened_at_ms = now } in
    let inserted =
      insert_last-Ranges base w.next_expected (seq - 1) r w.open_ranges v refl (omega arith) in
    let kept = Ranges-raise base w.next_expected (suc seq) w.open_ranges v (omega arith) in
    record {
      valid = rw a (
          ground (
            arith,
            kept,
            Ranges-raise base (suc (seq - 1)) (suc seq) (insert w.next_expected r w.open_ranges)
                inserted,
          ));
      epoch = refl;
      watermark = ground arith;
      missing_after = λ s. ground (
        arith,
        insert_last-covers s base w.next_expected r w.open_ranges v,
        covers_above s base w.next_expected w.open_ranges v,
      );
      untracked_after = ground arith;
    }

-- Every arrival in the current epoch is accounted for.
pub arrive-Accounts :
    (base pad well : ℕ) (w : WellGaps) (seq now : ℕ)
    → IsValid base w
    → suc seq < u64_mod
    → Accounts base seq w (arrive pad well w seq now).0
unfolding arrive
arrive-Accounts base pad well w seq now v b = elim (Bool-cases (seq == w.next_expected)) [
  | inl e ↦ rw e (in_order-Accounts base w seq v (ground arith) b)
  | inr e ↦ rw e (elim (Bool-cases (ltb w.next_expected seq)) [
    | inl f ↦ rw f (jump-Accounts base pad well w seq now v (ground arith) b)
    | inr f ↦ rw f (
        fill-Accounts base pad well w seq now (containing seq w.open_ranges) v (ground arith)
          (containing-Contains seq base w.next_expected w.open_ranges v))
  ])
]

-- A late arrival strictly inside an open range splits it in two, so the table grows by one entry
-- whatever its length: `max_open_per_well` does not bound it.
pub arrive_inside_grows :
    (base pad well : ℕ) (w : WellGaps) (seq now start : ℕ) (r : GapRange)
    → IsValid base w
    → containing seq w.open_ranges ≡ some (start, r)
    → start < seq
    → seq < r.end
    → length (arrive pad well w seq now).0.open_ranges ≡ length w.open_ranges + 1
unfolding arrive
arrive_inside_grows base pad well w seq now start r v e p q =
    let c : Contains seq w.open_ranges (some (start, r)) =
      subst (Contains seq w.open_ranges) e
        (containing-Contains seq base w.next_expected w.open_ranges v) in
    let b = lookup_ge start base w.next_expected r w.open_ranges v c.0 in
    let size = (punch-Punched seq start base w.next_expected r w.open_ranges v c.0 c.1 c.2).size in
    ground (arith, e, b, size)
