-- ===== src/Ingest/Main/Backoff.antt =====
-- The waits between the sessions of crates/coldbore-ingest/src/main.rs.
use cold_bore.Base.{
  ℕ, zero, suc, ◌*◌, ◌^◌, ◌≤◌, ◌≡◌, refl, sym, subst, All, ap, ◌∙◌, List, [], ◌∷◌, length, ltb,
  if◌then◌else◌, arith,
}
use cold_bore.Proto.Config.{Mode}
use cold_bore.Ingest.Counters.{Counters}
use cold_bore.Ingest.Gap.{GapTracker}
use cold_bore.Ingest.Sink.{Engine, Database}
use cold_bore.Ingest.Consume.{FromSlice}
use cold_bore.Ingest.Main.{State, Input, next_backoff, run_session, supervise, run}

-- Before the session of this number, from 0: half a second, doubled each time, up to ten seconds.
abbrev pub wait : ℕ → ℕ
wait k = if ltb k 5 then 500 * 2 ^ k else 10000

-- The waits before `n` sessions from the `k`th on.
abbrev pub waits_from : ℕ → ℕ → List ℕ
waits_from k zero = []
waits_from k (suc n) = wait k ∷ waits_from (suc k) n

next_backoff-wait : (k : ℕ) → next_backoff (wait k) ≡ wait (suc k)
unfolding next_backoff
next_backoff-wait zero = refl
next_backoff-wait (suc zero) = refl
next_backoff-wait (suc (suc zero)) = refl
next_backoff-wait (suc (suc (suc zero))) = refl
next_backoff-wait (suc (suc (suc (suc zero)))) = refl
next_backoff-wait (suc (suc (suc (suc (suc k))))) = ground arith

waits_from-Bounded : (k n : ℕ) → All (λ w. (500 ≤ w) × (w ≤ 10000)) (waits_from k n)
waits_from-Bounded k zero = tt
waits_from-Bounded k (suc n) = (wait-bounds k, waits_from-Bounded (suc k) n)
  where
    wait-bounds : (k : ℕ) → (500 ≤ wait k) × (wait k ≤ 10000)
    wait-bounds zero = omega arith
    wait-bounds (suc zero) = omega arith
    wait-bounds (suc (suc zero)) = omega arith
    wait-bounds (suc (suc (suc zero))) = omega arith
    wait-bounds (suc (suc (suc (suc zero)))) = omega arith
    wait-bounds (suc (suc (suc (suc (suc k))))) = ground arith

module _ (e : Engine) (from_slice : FromSlice) (batch_max : ℕ) where
  supervise-waits :
      (mode : Mode) (inputs : List Input) (k : ℕ) (st : State e.Table)
      → (supervise e from_slice batch_max mode inputs (wait k) st).1 ≡ waits_from k (length inputs)
  unfolding supervise
  supervise-waits mode [] k st = refl
  supervise-waits mode (input ∷ inputs) k st =
      let after = run_session e from_slice batch_max mode input st in
      ap (λ rest. wait k ∷ rest)
        (ap (λ b. (supervise e from_slice batch_max mode inputs b after).1) (next_backoff-wait k)
          ∙ supervise-waits mode inputs (suc k) after)

  -- Whatever its sessions do, the supervisor waits half a second behind the first, then twice as long
  -- behind each, and ten seconds from the sixth on: never shorter, and never longer than that.
  pub run-waits_from :
      (mode : Mode) (inputs : List Input) (db : Database e.Table) (counters : Counters)
      (gaps : GapTracker)
      → let waits = (run e from_slice batch_max mode inputs db counters gaps).1 in
        (waits ≡ waits_from 0 (length inputs)) × All (λ w. (500 ≤ w) × (w ≤ 10000)) waits
  run-waits_from mode inputs db counters gaps =
      let start : State e.Table = record {
        db = db;
        counters = counters;
        gaps = gaps;
        trace = [];
      } in
      let is = supervise-waits mode inputs 0 start in
      (
        is,
        subst (All (λ w. (500 ≤ w) × (w ≤ 10000))) (sym is) (waits_from-Bounded 0 (length inputs)),
      )
