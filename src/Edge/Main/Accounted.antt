-- ===== src/Edge/Main/Accounted.antt =====
-- crates/coldbore-edge/src/main.rs, sim.rs, uplink.rs and uplink_stream.rs together: where the samples
-- of a field are.
use cold_bore.Base.{
  ℕ, zero, suc, ◌+◌, ◌<◌, ◌≡◌, refl, sym, ap, ◌∙◌, inl, inr, Bool, ◌&&◌, List, [], ◌∷◌, ◌++◌,
  Bool-cases, leb, ◌==◌, if◌then◌else◌, length, weigh, weigh-append, arith, u64_mod,
}
use cold_bore.Base.Map.{same}
use cold_bore.Proto.Frame.{Frame}
use cold_bore.Proto.Config.{Mode, classic, stream, EdgeConfig}
use cold_bore.Edge.Sim
use cold_bore.Edge.Sim.{Waves}
use cold_bore.Edge.Sim.Sequence.{generator-Contiguous}
use cold_bore.Edge.Sim.Numbers.{seqs_of, down_from}
use cold_bore.Edge.Uplink.Custody.{held, live}
use cold_bore.Edge.Uplink.Session
use cold_bore.Edge.Uplink.Session.Books.{Good}
use cold_bore.Edge.Uplink.Session.Supervisor.{Reaped-Inv, run_conserves}
use cold_bore.Edge.UplinkStream
use cold_bore.Edge.UplinkStream.Books.{on_wire}
use cold_bore.Edge.UplinkStream.Supervisor.{Sound, stream_run_conserves}
use cold_bore.Edge.UplinkStream.Run
use cold_bore.Edge.Main.{Uplink, classic_uplink, stream_uplink, Tasks, World, spawn_uplink, run}

-- The books of an uplink: what the frames weigh that it holds or has on the wire; those that the broker
-- confirmed, and were they injected duplicates; those that a full buffer gave up; those that came out
-- of the channel; and the injected duplicates that a failed publish put into the retry queue.
pub record Ledger : Type 0 where
  pub waiting : (Frame → ℕ) → ℕ
  pub confirmed : List (Frame × Bool)
  pub dropped : List Frame
  pub received : List Frame
  pub promoted : List Frame

abbrev classic_ledger : Session.Session → Ledger
classic_ledger s = record {
  waiting = λ w. held w s.st + weigh (live w) s.pending;
  confirmed = s.trace.acked;
  dropped = s.trace.dropped;
  received = s.trace.received;
  promoted = s.trace.promoted;
}

abbrev stream_ledger : UplinkStream.Session → Ledger
stream_ledger s = record {
  waiting =
      λ w. held w s.st + weigh (λ r. w r.0) s.custody.retry_ids + weigh (on_wire w) s.inflight;
  confirmed = s.trace.acked;
  dropped = s.trace.dropped;
  received = s.trace.received;
  promoted = [];
}

abbrev empty_ledger : Ledger
empty_ledger = record {
  waiting = λ w. 0;
  confirmed = [];
  dropped = [];
  received = [];
  promoted = [];
}

abbrev pub ledger : Uplink → Ledger
ledger (classic_uplink (Session.running s)) = classic_ledger s
ledger (classic_uplink (Session.lost s)) = classic_ledger s
ledger (classic_uplink (Session.shutdown s)) = classic_ledger s
ledger (classic_uplink Session.panics) = empty_ledger
ledger (stream_uplink r) = stream_ledger (Run.at_end r)

-- Every frame that came in is in one of the places, and a duplicate that was promoted once more.
abbrev pub Balanced : Ledger → (Frame → ℕ) → Type 0
Balanced l w =
    l.waiting w + weigh (live w) l.confirmed + weigh w l.dropped
    ≡ weigh w l.received + weigh w l.promoted

-- The publishing ids of the stream uplink have not run out.
abbrev pub IdsLast : Uplink → Type 0
IdsLast (classic_uplink r) = Unit
IdsLast (stream_uplink r) = (Run.at_end r).trace.given < u64_mod

-- A frame counts if it is the sample `seq` of the well `k`.
abbrev pub is_sample : ℕ × ℕ → ℕ → Frame → ℕ
is_sample k seq f = if same k (f.pad, f.well) && (f.seq == seq) then 1 else 0

abbrev is_seq : ℕ → ℕ → ℕ
is_seq seq n = if n == seq then 1 else 0

-- One, if the sample is among the first `n`.
abbrev pub once_within : ℕ → ℕ → ℕ
once_within n seq = if leb 1 seq && leb seq n then 1 else 0

weigh-is_sample :
    (k : ℕ × ℕ) (seq : ℕ) (fs : List Frame)
    → weigh (is_sample k seq) fs ≡ weigh (is_seq seq) (seqs_of k fs)
weigh-is_sample k seq [] = refl
weigh-is_sample k seq (f ∷ fs) = elim (Bool-cases (same k (f.pad, f.well))) [
  | inl e ↦ rw e (ap (λ n. is_seq seq f.seq + n) (weigh-is_sample k seq fs))
  | inr e ↦ rw e (omega (arith, weigh-is_sample k seq fs))
]

weigh-down_from : (n seq : ℕ) → weigh (is_seq seq) (down_from n) ≡ once_within n seq
weigh-down_from zero seq = ground arith
weigh-down_from (suc n) seq = ground (arith, weigh-down_from n seq)

classic_ledger-Balanced :
    (r : Session.Status) (w : Frame → ℕ) → Good r → Balanced (ledger (classic_uplink r)) w
classic_ledger-Balanced (Session.running s) w v = v.account.balanced w
classic_ledger-Balanced (Session.lost s) w v = (Reaped-Inv s v).account.balanced w
classic_ledger-Balanced (Session.shutdown s) w v = (Reaped-Inv s v).account.balanced w
classic_ledger-Balanced Session.panics w v = absurd v

stream_ledger-Balanced :
    (r : UplinkStream.Status) (w : Frame → ℕ) → Sound r → Balanced (ledger (stream_uplink r)) w
stream_ledger-Balanced (UplinkStream.running s) w b = b.balanced w ∙ omega arith
stream_ledger-Balanced (UplinkStream.lost s) w b = b.0.balanced w ∙ omega arith
stream_ledger-Balanced (UplinkStream.shutdown s) w b = b.0.balanced w ∙ omega arith

spawn_uplink-Balanced :
    (cfg : EdgeConfig) (world : World) (mode : Mode) (w : Frame → ℕ)
    → IdsLast (spawn_uplink cfg world mode)
    → Balanced (ledger (spawn_uplink cfg world mode)) w
unfolding spawn_uplink
spawn_uplink-Balanced cfg world classic w last =
    classic_ledger-Balanced _ w (run_conserves cfg.confirm_window cfg.pads cfg.buffer_cap _)
spawn_uplink-Balanced cfg world stream w last =
    stream_ledger-Balanced _ w
      (stream_run_conserves cfg.confirm_window cfg.pads cfg.buffer_cap _ last)

module _ (waves : Waves) (cfg : EdgeConfig) (epoch : ℕ) (world : World) where
  abbrev pub tasks : Tasks waves.State
  tasks = run waves cfg epoch world

  abbrev pub books : Ledger
  books = ledger tasks.uplink

  -- The frames that the generator sent, newest first.
  abbrev pub sent : List Frame
  sent = (Sim.at_end tasks.sampling).sent

  pub run-Balanced : (w : Frame → ℕ) → IdsLast tasks.uplink → Balanced books w
  unfolding run
  run-Balanced w last = spawn_uplink-Balanced cfg world cfg.common.mode w last

  sent-is_sample :
      (k : ℕ × ℕ) (seq : ℕ)
      → length sent < u64_mod
      → weigh (is_sample k seq) sent ≡ once_within (length (seqs_of k sent)) seq
  unfolding run
  sent-is_sample k seq small =
      weigh-is_sample k seq sent
      ∙ ap (weigh (is_seq seq))
          ((generator-Contiguous waves epoch world.takes world.ticks small).1 k)
      ∙ weigh-down_from _ seq

  -- In either mode and whatever the links, the broker and the operators do: if the channel hands on
  -- what was sent in order, with the frames of `queued` still in it, fewer than 2^64 frames were sent,
  -- and the stream uplink's publishing ids have not run out, then each sample that the generator
  -- numbered, from 1 to as many as it sent of the well, is in exactly one place: in the channel, in
  -- the uplink's custody or on the wire, confirmed, or given up by a full buffer; and no other number
  -- occurs. (An injected duplicate whose publish failed stands in line once more.)
  pub samples_accounted :
      (queued : List Frame) (k : ℕ × ℕ) (seq : ℕ)
      → length sent < u64_mod
      → IdsLast tasks.uplink
      → queued ++ books.received ≡ sent
      → weigh (is_sample k seq) queued
          + books.waiting (is_sample k seq)
          + weigh (live (is_sample k seq)) books.confirmed
          + weigh (is_sample k seq) books.dropped
        ≡ once_within (length (seqs_of k sent)) seq + weigh (is_sample k seq) books.promoted
  samples_accounted queued k seq small last channel =
      let w = is_sample k seq in
      omega (
        arith,
        run-Balanced w last,
        sym (weigh-append w queued books.received) ∙ ap (weigh w) channel,
        sent-is_sample k seq small,
      )

-- A configuration with `CB_MODE` set to one of the modes.
abbrev pub in_mode : Mode → EdgeConfig → EdgeConfig
in_mode mode cfg = record cfg { common = record cfg.common { mode = mode } }

-- The classic uplink gives out no publishing ids.
pub classic_IdsLast :
    (waves : Waves) (cfg : EdgeConfig) (epoch : ℕ) (world : World)
    → IdsLast (tasks waves (in_mode classic cfg) epoch world).uplink
unfolding run spawn_uplink
classic_IdsLast waves cfg epoch world = tt
