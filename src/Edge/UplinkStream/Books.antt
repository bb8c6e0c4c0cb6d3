-- ===== src/Edge/UplinkStream/Books.antt =====
-- The books of crates/coldbore-edge/src/uplink_stream.rs: frames and publishing ids, and what one frame
-- that is sent off does to them.
use cold_bore.Base.{
  ℕ, suc, ◌+◌, ◌≤◌, ◌<◌, ◌≡◌, refl, ap, ◌∙◌, inl, inr, Bool, true, false, List, [], ◌∷◌, Option,
  none, some, Bool-cases, ◌==◌, if◌then◌else◌, weigh, arith, add64, add64_exact, u64_mod,
}
use cold_bore.Base.Map.{lookup, remove}
use cold_bore.Proto.Frame.{Frame}
use cold_bore.Edge.Uplink.{UplinkState}
use cold_bore.Edge.Uplink.Custody.{held, live, IsSorted}
use cold_bore.Edge.Uplink.Handover.{Takes}
use cold_bore.Edge.UplinkStream.{Sent, Session, send_off}

-- What an entry of the map weighs, and how often an id occurs.
abbrev pub on_wire : (Frame → ℕ) → ℕ × Sent → ℕ
on_wire w e = live w (e.1.0, e.1.1)

abbrev pub is_id : ℕ → ℕ → ℕ
is_id k j = if k == j then 1 else 0

abbrev pub uses : ℕ → Session → ℕ
uses k s = weigh (λ e. is_id k e.0) s.inflight + weigh (λ r. is_id k r.1) s.custody.retry_ids

-- The books balance: for every weight, what is held, waits for a retransmit, is in flight, confirmed
-- and given up weighs as much as what came in, injected duplicates left aside. No publishing id is
-- used twice, and those from the next one on are not used.
pub record Books (s : Session) : Type 0 where
  pub sorted : IsSorted s.st
  pub balanced :
      (w : Frame → ℕ)
      → held w s.st
          + weigh (λ r. w r.0) s.custody.retry_ids
          + weigh (on_wire w) s.inflight
          + weigh (live w) s.trace.acked
          + weigh w s.trace.dropped
        ≡ weigh w s.trace.received
  pub unique : (k : ℕ) → uses k s ≤ 1
  pub below : (k : ℕ) → s.custody.next_id ≤ k → uses k s ≡ 0
  pub numbered : s.custody.next_id ≡ s.trace.given

-- As long as the publishing ids have not run out.
abbrev pub Inv : Session → Type 0
Inv s = s.trace.given < u64_mod → Books s

abbrev pub entry : (ℕ × Sent → ℕ) → ℕ → Option Sent → ℕ
entry w id none = 0
entry w id (some v) = w (id, v)

pub weigh-remove :
    (w : ℕ × Sent → ℕ) (id : ℕ) (m : List (ℕ × Sent))
    → weigh w (remove id m) + entry w id (lookup id m) ≡ weigh w m
weigh-remove w id [] = omega arith
weigh-remove w id ((j, v) ∷ m) = elim (Bool-cases (id == j)) [
  | inl e ↦ rw e (omega (arith, ap (λ k. w (k, v)) (same_id id j e)))
  | inr e ↦ rw e (omega (arith, weigh-remove w id m))
]
  where
    same_id : (a b : ℕ) → (a == b) ≡ true → a ≡ b
    same_id a b h = ground arith

pub absent : (id : ℕ) (m : List (ℕ × Sent)) → weigh (λ e. is_id id e.0) m ≡ 0 → lookup id m ≡ none
absent id [] h = refl
absent id ((j, v) ∷ m) h = elim (Bool-cases (id == j)) [
  | inl e ↦ absurd (omega (arith, rw e at h))
  | inr e ↦ rw e (absent id m (omega (arith, rw e at h)))
]

pub is_id_self : (k : ℕ) → is_id k k ≡ 1
is_id_self k = ground arith

pub is_id_other : (k j : ℕ) → j < k → is_id k j ≡ 0
is_id_other k j h = ground arith

pub is_id_bit : (k j : ℕ) → is_id k j ≤ 1
is_id_bit k j = ground arith

pub is_id_no : (k j : ℕ) → (k == j) ≡ false → is_id k j ≡ 0
is_id_no k j h = ground arith

pub same_up : (k j : ℕ) → (k == j) ≡ true → j ≤ k
same_up k j h = ground arith

-- An id that is not in flight takes the place of nothing.
pub send_off_new :
    (w : ℕ × Sent → ℕ) (id : ℕ) (v : Sent) (m : List (ℕ × Sent))
    → weigh (λ e. is_id id e.0) m ≡ 0
    → weigh w (send_off id v m) ≡ w (id, v) + weigh w m
send_off_new w id v m h = omega (arith, weigh-remove w id m, ap (entry w id) (absent id m h))

pub retried-Inv :
    (now : ℕ) (frame : Frame) (id : ℕ) (rest : List (Frame × ℕ)) (s : Session)
    → s.custody.retry_ids ≡ (frame, id) ∷ rest
    → Inv s
    → Inv (record s {
      custody = record s.custody { retry_ids = rest };
      inflight = send_off id (frame, false, now) s.inflight;
    })
retried-Inv now frame id rest s is h small =
    let b = h small in
    let retries : (w : Frame × ℕ → ℕ) → weigh w s.custody.retry_ids ≡ w (frame, id) + weigh w rest =
      λ w. ap (weigh w) is in
    let free : weigh (λ e. is_id id e.0) s.inflight ≡ 0 =
      omega (arith, b.unique id, retries (λ r. is_id id r.1), is_id_self id) in
    record {
      sorted = b.sorted;
      balanced = λ w. omega (
        arith,
        b.balanced w,
        retries (λ r. w r.0),
        send_off_new (on_wire w) id (frame, false, now) s.inflight free,
      );
      unique = λ k. omega (
        arith,
        b.unique k,
        retries (λ r. is_id k r.1),
        send_off_new (λ e. is_id k e.0) id (frame, false, now) s.inflight free,
      );
      below = λ k up. omega (
        arith,
        b.below k up,
        retries (λ r. is_id k r.1),
        send_off_new (λ e. is_id k e.0) id (frame, false, now) s.inflight free,
      );
      numbered = b.numbered;
    }

pub fresh-Inv :
    (now : ℕ) (frame : Frame) (is_dup : Bool) (st : UplinkState) (s : Session)
    → Takes s.st st (some (frame, is_dup))
    → Inv s
    → Inv (record s {
      st = st;
      custody = record s.custody { next_id = add64 s.custody.next_id 1 };
      trace = record s.trace { given = suc s.trace.given };
      inflight = send_off s.custody.next_id (frame, is_dup, now) s.inflight;
    })
fresh-Inv now frame is_dup st s takes h small =
    let b = h (omega (arith, small)) in
    let id = s.custody.next_id in
    let next : add64 id 1 ≡ suc id =
      add64_exact id 1 (omega (arith, small, b.numbered)) ∙ omega arith in
    let free : weigh (λ e. is_id id e.0) s.inflight ≡ 0 = omega (arith, b.below id (omega arith)) in
    record {
      sorted = takes.sorted b.sorted;
      balanced = λ w. omega (
        arith,
        b.balanced w,
        takes.held_less w,
        send_off_new (on_wire w) id (frame, is_dup, now) s.inflight free,
      );
      unique = λ k. elim (Bool-cases (k == id)) [
        | inl e ↦ omega (
          arith,
          send_off_new (λ e. is_id k e.0) id (frame, is_dup, now) s.inflight free,
          b.below k (same_up k id e),
          is_id_bit k id,
        )
        | inr e ↦ omega (
          arith,
          send_off_new (λ e. is_id k e.0) id (frame, is_dup, now) s.inflight free,
          b.unique k,
          is_id_no k id e,
        )
      ];
      below = λ k up. omega (
        arith,
        send_off_new (λ e. is_id k e.0) id (frame, is_dup, now) s.inflight free,
        b.below k (omega (arith, up, next)),
        is_id_other k id (omega (arith, up, next)),
      );
      numbered = omega (arith, next, b.numbered);
    }

pub none-Inv :
    (st : UplinkState) (s : Session) → Takes s.st st none → Inv s → Inv (record s { st = st })
none-Inv st s takes h small =
    let b = h small in
    record {
      sorted = takes.sorted b.sorted;
      balanced = λ w. omega (arith, b.balanced w, takes.held_less w);
      unique = b.unique;
      below = b.below;
      numbered = b.numbered;
    }
