-- ===== src/Edge/UplinkStream/Staging.antt =====
-- Staging a batch in crates/coldbore-edge/src/uplink_stream.rs keeps the books.
use cold_bore.Base.{
  ℕ, zero, suc, ◌≡◌, refl, Bool, false, List, [], ◌∷◌, ◌++◌, Option, none, some, add64,
}
use cold_bore.Proto.Frame.{Frame}
use cold_bore.Edge.Uplink.{UplinkState, Reads, next_publishable}
use cold_bore.Edge.Uplink.Handover.{Takes, next_publishable-Takes}
use cold_bore.Edge.UplinkStream.{
  Session, Staged, send_off, pop_retry, handed_out, stage_retries, stage_fresh,
}
use cold_bore.Edge.UplinkStream.Books.{Inv, entry, retried-Inv, fresh-Inv, none-Inv}

pub pop_retry-Inv :
    (queue retry_ids : List (Frame × ℕ)) (take : Frame × ℕ → List (Frame × ℕ) → Staged)
    (done : Staged)
    → retry_ids ≡ queue
    → ((r : Frame × ℕ) (rest : List (Frame × ℕ)) → retry_ids ≡ r ∷ rest → Inv (take r rest).1)
    → Inv done.1
    → Inv (pop_retry queue take done).1
pop_retry-Inv [] retry_ids take done e t d = d
pop_retry-Inv (r ∷ rest) retry_ids take done e t d = t r rest e

pub stage_retries-Inv :
    (room now : ℕ) (messages : List (ℕ × Frame)) (s : Session)
    → Inv s
    → Inv (stage_retries room now messages s).1
unfolding stage_retries
stage_retries-Inv zero now messages s h = h
stage_retries-Inv (suc room) now messages s h =
    pop_retry-Inv s.custody.retry_ids s.custody.retry_ids _ (messages, s) refl
      (λ r rest e.
        stage_retries-Inv room now (messages ++ (r.1, r.0) ∷ [])
          (record s {
            custody = record s.custody { retry_ids = rest };
            inflight = send_off r.1 (r.0, false, now) s.inflight;
          })
          (retried-Inv now r.0 r.1 rest s e h))
      h

pub handed_out-Inv :
    (entry : Option (Frame × Bool)) (st st' : UplinkState) (take : Frame → Bool → Staged)
    (done : Staged)
    → Takes st st' entry
    → ((frame : Frame) (is_dup : Bool)
        → Takes st st' (some (frame, is_dup))
        → Inv (take frame is_dup).1)
    → (Takes st st' none → Inv done.1)
    → Inv (handed_out entry take done).1
handed_out-Inv none st st' take done takes t d = d takes
handed_out-Inv (some (frame, is_dup)) st st' take done takes t d = t frame is_dup takes

pub stage_fresh-Inv :
    (room : ℕ) (reads : ℕ → Reads) (now : ℕ) (messages : List (ℕ × Frame)) (s : Session)
    → Inv s
    → Inv (stage_fresh room reads now messages s).1
unfolding stage_fresh
stage_fresh-Inv zero reads now messages s h = h
stage_fresh-Inv (suc room) reads now messages s h =
    let (entry, st) = next_publishable (reads room) s.st in
    handed_out-Inv entry s.st st _ (messages, record s { st = st })
      (next_publishable-Takes (reads room) s.st)
      (λ frame is_dup takes.
        stage_fresh-Inv room reads now (messages ++ (s.custody.next_id, frame) ∷ [])
          (record s {
            st = st;
            custody = record s.custody { next_id = add64 s.custody.next_id 1 };
            trace = record s.trace { given = suc s.trace.given };
            inflight = send_off s.custody.next_id (frame, is_dup, now) s.inflight;
          })
          (fresh-Inv now frame is_dup st s takes h))
      (λ takes. none-Inv st s takes h)
