-- ===== src/Pipeline/EndToEnd.antt =====
-- From the generator of crates/coldbore-edge/src/sim.rs to the table of crates/coldbore-ingest/src/sink.rs
-- in classic mode: what the table lacks is on its way or was given up.
use cold_bore.Base.{
  ℕ, ◌+◌, ◌≤◌, ◌≡◌, refl, sym, ap, subst, ◌∙◌, Bool, true, false, List, [], ◌∷◌, ◌++◌, map, All,
  if◌then◌else◌, weigh, weigh-append, arith,
}
use mathlib.Core.Logic.Or
use mathlib.Core.List.{Mem, mem-cons, not-mem-nil}
use cold_bore.Proto.Frame.{Frame, IsSound}
use cold_bore.Proto.Config.{classic, EdgeConfig}
use cold_bore.Edge.Sim.{Waves}
use cold_bore.Edge.Uplink.Custody.{live}
use cold_bore.Edge.Main.{World}
use cold_bore.Edge.Main.Accounted.{
  Ledger, IdsLast, tasks, books, sent, run-Balanced, in_mode, classic_IdsLast,
}
use cold_bore.Ingest.Counters.{Counters}
use cold_bore.Ingest.Gap.{GapTracker}
use cold_bore.Ingest.Sink.{to_row, contains, Engine}
use cold_bore.Ingest.Sink.Batch.{Stored}
use cold_bore.Ingest.Consume.{flush_tick, Session, running, run_classic}
use cold_bore.Pipeline.{Serde, Passage, deliver, in_health, published_frames-Stored}

-- The broker hands on each message that it confirmed, once or more often, and maybe others.
abbrev pub HandsOn : Ledger → List Frame → Type 0
HandsOn l handed = All (λ c. Mem c.0 handed) l.confirmed

module _ (e : Engine) where
  -- A frame counts if the table lacks its row.
  abbrev pub lacks : e.Table → Frame → ℕ
  lacks t f = if contains (to_row f) (e.rows t) then 0 else 1

  confirmed_none_lacking :
      (t : e.Table) (confirmed : List (Frame × Bool))
      → All (λ c. Stored e t c.0) confirmed
      → weigh (live (lacks t)) confirmed ≡ 0
  confirmed_none_lacking t [] h = refl
  confirmed_none_lacking t ((f, true) ∷ cs) (h, hs) = omega (arith, confirmed_none_lacking t cs hs)
  confirmed_none_lacking t ((f, false) ∷ cs) (h, hs) =
      rw h (omega (arith, confirmed_none_lacking t cs hs))

  All-Mem :
      (t : e.Table) (fs : List Frame) (f : Frame) → All (Stored e t) fs → Mem f fs → Stored e t f
  All-Mem t [] f h m = absurd (not-mem-nil m)
  All-Mem t (x ∷ fs) f (h, hs) m =
      Or.elim (hlevel) (mem-cons.0 m) (λ is. subst (Stored e t) (sym is) h) (All-Mem t fs f hs)

  confirmed-Stored :
      (t : e.Table) (fs : List Frame) (confirmed : List (Frame × Bool))
      → All (Stored e t) fs
      → All (λ c. Mem c.0 fs) confirmed
      → All (λ c. Stored e t c.0) confirmed
  confirmed-Stored t fs [] stored handed = tt
  confirmed-Stored t fs (c ∷ cs) stored (m, ms) =
      (All-Mem t fs c.0 stored m, confirmed-Stored t fs cs stored ms)

  -- What was sent and is not in the table is in the channel, in the uplink's hands, or given up.
  abbrev pub Elsewhere : e.Table → List Frame → List Frame → Ledger → Type 0
  Elsewhere t sent queued l =
      weigh (lacks t) sent
      ≤ weigh (lacks t) queued + l.waiting (lacks t) + weigh (lacks t) l.dropped

  -- Once the table holds what the broker handed on.
  pub handed_on-Elsewhere :
      (waves : Waves) (cfg : EdgeConfig) (epoch : ℕ) (world : World) (queued handed : List Frame)
      (t : e.Table)
      → IdsLast (tasks waves cfg epoch world).uplink
      → queued ++ (books waves cfg epoch world).received ≡ sent waves cfg epoch world
      → HandsOn (books waves cfg epoch world) handed
      → All (Stored e t) handed
      → Elsewhere t (sent waves cfg epoch world) queued (books waves cfg epoch world)
  handed_on-Elsewhere waves cfg epoch world queued handed t last channel hands stored =
      let l = books waves cfg epoch world in
      let none =
        confirmed_none_lacking t l.confirmed (confirmed-Stored t handed l.confirmed stored hands) in
      omega (
        arith,
        run-Balanced waves cfg epoch world (lacks t) last,
        sym (weigh-append (lacks t) queued l.received) ∙ ap (weigh (lacks t)) channel,
        none,
      )

  All-frames :
      (t : e.Table) (sends : List Passage)
      → All (λ s. Stored e t s.frame) sends
      → All (Stored e t) (map (λ s. s.frame) sends)
  All-frames t [] h = tt
  All-frames t (s ∷ sends) (h, hs) = (h, All-frames t sends hs)

module _ (e : Engine) (serde : Serde) (waves : Waves) (cfg : EdgeConfig) (epoch : ℕ)
    (world : World) where
  abbrev classic_sent : List Frame
  classic_sent = sent waves (in_mode classic cfg) epoch world

  abbrev classic_books : Ledger
  classic_books = books waves (in_mode classic cfg) epoch world

  -- Classic mode, from the generator to the table: whatever the links, the broker and the operators do
  -- to the edge, if the channel hands on what was sent in order, the broker hands on each message that
  -- it confirmed, in any order and any number of times, to a session whose database commits and whose
  -- acks are taken, and these frames are valid, then with the next flush tick the session goes on, and
  -- of the frames that the generator sent, at most as many are missing from the table as missing ones
  -- are in the channel, in the uplink's custody, on the wire, or were given up by a full buffer.
  pub classic_samples-Elsewhere :
      (queued : List Frame) (sends : List Passage) (batch_max : ℕ)
      (watermarks : List (ℕ × ℕ × ℕ × ℕ)) (now : ℕ) (table : e.Table) (counters : Counters)
      (gaps : GapTracker)
      → queued ++ classic_books.received ≡ classic_sent
      → HandsOn classic_books (map (λ s. s.frame) sends)
      → All (λ s. IsSound s.frame) sends
      → (s : Session e.Table) × (run_classic e serde.from_slice batch_max watermarks
            (map (deliver serde) sends ++ (flush_tick, in_health now) ∷ [])
            table
            counters
            gaps
          ≡ running s)
        × Elsewhere e s.table classic_sent queued classic_books
  classic_samples-Elsewhere queued sends batch_max watermarks now table counters gaps channel hands
        sound =
      let (s, is, stored) =
        published_frames-Stored serde e batch_max watermarks sends now table counters gaps sound in
      (
        s,
        is,
        handed_on-Elsewhere e waves (in_mode classic cfg) epoch world queued _ s.table
            (classic_IdsLast waves cfg epoch world) channel hands
            (All-frames e s.table sends stored),
      )
