-- ===== src/Ingest/Consume/Delivered.antt =====
-- What the rounds of `run_classic` in crates/coldbore-ingest/src/consume.rs bring, read off the events alone.
use cold_bore.Base.{ℕ, ◌≡◌, true, List, [], ◌∷◌, ◌++◌, Option, none, some, All, All-split}
use cold_bore.Proto.Frame.{Frame}
use cold_bore.Ingest.Consume.{
  Delivery, FromSlice, parse_frame, committed, ack_ok, Turn, Event, delivered, consumer_ended,
  flush_tick, metrics_tick, probe_tick,
}

-- The consumer goes on, and the snapshot and the probe come back in time.
abbrev pub Goes : Event → Type 0
Goes (delivered d) = Unit
Goes consumer_ended = ⊥
Goes flush_tick = Unit
Goes (metrics_tick in_time) = in_time ≡ true
Goes (probe_tick alive) = alive ≡ true

-- In every round the database commits, should it be asked, and the broker takes the ack.
abbrev pub Healthy : List (Event × Turn) → Type 0
Healthy rounds = All (λ r. Goes r.0 × (r.1.answer ≡ committed) × (r.1.ack ≡ ack_ok)) rounds

abbrev pub frame_of : Option Frame → List Frame
frame_of none = []
frame_of (some f) = f ∷ []

abbrev pub brought : FromSlice → Event → List Frame
brought from_slice (delivered d) = frame_of (parse_frame from_slice d.body)
brought from_slice consumer_ended = []
brought from_slice flush_tick = []
brought from_slice (metrics_tick _) = []
brought from_slice (probe_tick _) = []

-- The valid frames that were delivered, newest round first.
abbrev pub delivered_frames : FromSlice → List (Event × Turn) → List Frame → List Frame
delivered_frames from_slice [] fs = fs
delivered_frames from_slice ((event, turn) ∷ rounds) fs =
    delivered_frames from_slice rounds (brought from_slice event ++ fs)

abbrev pub tag_of : ℕ → Delivery → Option Frame → ℕ
tag_of tag d none = tag
tag_of tag d (some f) = d.delivery_tag

abbrev pub tag_behind : FromSlice → ℕ → Event → ℕ
tag_behind from_slice tag (delivered d) = tag_of tag d (parse_frame from_slice d.body)
tag_behind from_slice tag consumer_ended = tag
tag_behind from_slice tag flush_tick = tag
tag_behind from_slice tag (metrics_tick _) = tag
tag_behind from_slice tag (probe_tick _) = tag

-- The tag of the newest delivery with a valid frame, or `tag` if there is none.
abbrev pub newest_tag : FromSlice → List (Event × Turn) → ℕ → ℕ
newest_tag from_slice [] tag = tag
newest_tag from_slice ((event, turn) ∷ rounds) tag =
    newest_tag from_slice rounds (tag_behind from_slice tag event)

-- What holds of the delivered frames holds of those that each round brought.
pub delivered_frames-All :
    (P : Frame → Type 0) (from_slice : FromSlice) (rounds : List (Event × Turn)) (fs : List Frame)
    → All P (delivered_frames from_slice rounds fs)
    → All P fs × All (λ r. All P (brought from_slice r.0)) rounds
delivered_frames-All P from_slice [] fs h = (h, tt)
delivered_frames-All P from_slice ((event, turn) ∷ rounds) fs h =
    let (now, later) =
      delivered_frames-All P from_slice rounds (brought from_slice event ++ fs) h in
    let (new, old) = All-split P (brought from_slice event) fs now in (old, (new, later))
