-- ===== src/Edge/Uplink/Custody.antt =====
-- No frame leaves the state of crates/coldbore-edge/src/uplink.rs unseen: what buffering and pulling do to
-- the bag of frames that it holds.
use cold_bore.Base.{
  ℕ, suc, ◌+◌, ◌≤◌, ◌≡◌, refl, Bool, true, false, List, [], ◌∷◌, ◌++◌, Option, none, some,
  if◌then◌else◌, weigh, weigh-append, arith,
}
use cold_bore.Base.Map.{lookup, Ascending, Ascending-insert, weigh-insert, weigh_entry}
use cold_bore.Proto.Frame.{Frame}
use cold_bore.Edge.Counters.{Counters}
use cold_bore.Edge.Uplink.{
  UplinkState, buffer_frame, buffer_of, is_full, rest_of, front_of, or_default, pull_round,
  pull_pad,
}

abbrev pub weigh_buffers : (Frame → ℕ) → List (ℕ × List Frame) → ℕ
weigh_buffers w m = weigh (λ b. weigh w b.1) m

-- What the state holds in custody.
abbrev pub held : (Frame → ℕ) → UplinkState → ℕ
held w st =
    weigh_buffers w st.pad_buffers
    + weigh w st.shuffle
    + weigh w st.publish_queue
    + weigh w st.retry

-- The weight of an entry that is not an injected duplicate.
abbrev pub live : (Frame → ℕ) → Frame × Bool → ℕ
live w (frame, is_dup) = if is_dup then 0 else w frame

abbrev pub IsSorted : UplinkState → Type 0
IsSorted st = Ascending 0 st.pad_buffers

rest-front :
    (w : Frame → ℕ) (buf : List Frame)
    → weigh w (rest_of buf) + weigh w (front_of buf) ≡ weigh w buf
rest-front w [] = omega arith
rest-front w (f ∷ fs) = omega arith

weigh_entry-default :
    (w : Frame → ℕ) (o : Option (List Frame)) → weigh_entry (weigh w) o ≡ weigh w (or_default o)
weigh_entry-default w none = refl
weigh_entry-default w (some buf) = refl

-- Buffering a frame adds it to custody; a full buffer gives up exactly the frame that it reports.
pub buffer_frame-held :
    (w : Frame → ℕ) (st : UplinkState) (frame : Frame) (c : Counters)
    → IsSorted st
    → let (st', _, gone) = buffer_frame st frame c in
      held w st' + weigh w gone ≡ held w st + w frame
unfolding buffer_frame
buffer_frame-held w st frame c h =
    let buf = buffer_of st frame.pad in
    ground (
      arith,
      weigh-insert (weigh w) frame.pad 0
          ((if is_full st buf then rest_of buf else buf) ++ frame ∷ []) st.pad_buffers h,
      weigh_entry-default w (lookup frame.pad st.pad_buffers),
      weigh-append w (rest_of buf) (frame ∷ []),
      weigh-append w buf (frame ∷ []),
      rest-front w buf,
    )

pub buffer_frame-IsSorted :
    (st : UplinkState) (frame : Frame) (c : Counters)
    → IsSorted st
    → IsSorted (buffer_frame st frame c).0
unfolding buffer_frame
buffer_frame-IsSorted st frame c h = Ascending-insert frame.pad 0 _ st.pad_buffers h (omega arith)

pub buffer_frame_backoff :
    (st : UplinkState) (frame : Frame) (c : Counters)
    → (buffer_frame st frame c).0.backoff ≡ st.backoff
unfolding buffer_frame
buffer_frame_backoff st frame c = refl

pull_pad-weigh :
    (w : Frame → ℕ) (up : Bool) (entry : ℕ × List Frame) (r : List (ℕ × List Frame) × List Frame)
    → weigh_buffers w (pull_pad up entry r).0 + weigh w (pull_pad up entry r).1
      ≡ weigh w entry.1 + weigh_buffers w r.0 + weigh w r.1
pull_pad-weigh w true (pad, f ∷ fs) (m, pulled) = omega arith
pull_pad-weigh w true (pad, []) (m, pulled) = omega arith
pull_pad-weigh w false entry (m, pulled) = omega arith

pub pull_round-weigh :
    (w : Frame → ℕ) (up : ℕ → Bool) (m : List (ℕ × List Frame))
    → weigh_buffers w (pull_round up m).0 + weigh w (pull_round up m).1 ≡ weigh_buffers w m
unfolding pull_round
pull_round-weigh w up [] = refl
pull_round-weigh w up (entry ∷ m) =
    omega (arith, pull_pad-weigh w (up entry.0) entry (pull_round up m), pull_round-weigh w up m)

pull_pad-Ascending :
    (up : Bool) (lo : ℕ) (entry : ℕ × List Frame) (r : List (ℕ × List Frame) × List Frame)
    → lo ≤ entry.0
    → Ascending (suc entry.0) r.0
    → Ascending lo (pull_pad up entry r).0
pull_pad-Ascending true lo (pad, f ∷ fs) (m, pulled) h a = (h, a)
pull_pad-Ascending true lo (pad, []) (m, pulled) h a = (h, a)
pull_pad-Ascending false lo entry (m, pulled) h a = (h, a)

pub pull_round-Ascending :
    (up : ℕ → Bool) (lo : ℕ) (m : List (ℕ × List Frame))
    → Ascending lo m
    → Ascending lo (pull_round up m).0
unfolding pull_round
pull_round-Ascending up lo [] h = h
pull_round-Ascending up lo (entry ∷ m) h =
    pull_pad-Ascending (up entry.0) lo entry (pull_round up m) h.0
      (pull_round-Ascending up (suc entry.0) m h.1)
