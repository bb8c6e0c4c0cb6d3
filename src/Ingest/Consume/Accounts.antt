-- ===== src/Ingest/Consume/Accounts.antt =====
-- The counters of crates/coldbore-ingest/src/consume.rs: what was consumed is accounted for.
use cold_bore.Base.{ℕ, ◌+◌, ◌%◌, ◌≡◌, length, u64_mod}
use cold_bore.Proto.Frame.{Frame}
use cold_bore.Ingest.Counters.{Counters}
use cold_bore.Ingest.Sink.{Engine}
use cold_bore.Ingest.Consume.{Status, running, lost}

-- What the counters say was settled.
abbrev pub settled_count : Counters → ℕ
settled_count c = c.poison + c.inserted + c.dup_dropped

-- Since the counters stood at `c`, what was consumed is poison, inserted, a duplicate, or in a batch
-- of `pending` frames; the counters wrap around.
abbrev pub Balanced : Counters → Counters → ℕ → Type 0
Balanced c c' pending =
    (c'.consumed + settled_count c) % u64_mod ≡ (c.consumed + settled_count c' + pending) % u64_mod

module _ (e : Engine) where
  abbrev Holds : Counters → Status e.Table → Type 0
  Holds c (running s) = Balanced c s.counters (length s.batch)
  Holds c (lost s) = Unit
