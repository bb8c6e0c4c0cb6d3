-- ===== src/Edge/UplinkStream/Reclaim.antt =====
-- Taking frames off the map in crates/coldbore-edge/src/uplink_stream.rs keeps the books.
use cold_bore.Base.{
  ℕ, ◌+◌, ◌≡◌, refl, sym, ap, ◌∙◌, Bool, true, false, List, [], ◌∷◌, Option, none, some, weigh,
  arith,
}
use cold_bore.Base.Map.{lookup, remove}
use cold_bore.Edge.UplinkStream.{
  Sent, Session, reclaim_entry, reclaim, keys, drain_inflight_to_retry,
}
use cold_bore.Edge.UplinkStream.Books.{on_wire, is_id, Inv, entry, weigh-remove}

pub reclaim_entry-Inv :
    (counted : Bool) (id : ℕ) (found : Option Sent) (s : Session)
    → lookup id s.inflight ≡ found
    → Inv s
    → Inv (reclaim_entry counted id found s)
unfolding reclaim_entry
reclaim_entry-Inv counted id none s e h small = h small
reclaim_entry-Inv counted id (some (frame, true, at)) s e h small =
    let b = h small in
    let less : (w : ℕ × Sent → ℕ)
        → weigh w (remove id s.inflight) + w (id, (frame, true, at)) ≡ weigh w s.inflight =
      λ w.
        ap (λ x. weigh w (remove id s.inflight) + entry w id x) (sym e)
        ∙ weigh-remove w id s.inflight in
    record {
      sorted = b.sorted;
      balanced = λ w. omega (arith, b.balanced w, less (on_wire w));
      unique = λ k. omega (arith, b.unique k, less (λ x. is_id k x.0));
      below = λ k up. omega (arith, b.below k up, less (λ x. is_id k x.0));
      numbered = b.numbered;
    }
reclaim_entry-Inv counted id (some (frame, false, at)) s e h small =
    let b = h small in
    let less : (w : ℕ × Sent → ℕ)
        → weigh w (remove id s.inflight) + w (id, (frame, false, at)) ≡ weigh w s.inflight =
      λ w.
        ap (λ x. weigh w (remove id s.inflight) + entry w id x) (sym e)
        ∙ weigh-remove w id s.inflight in
    record {
      sorted = b.sorted;
      balanced = λ w. omega (arith, b.balanced w, less (on_wire w));
      unique = λ k. omega (arith, b.unique k, less (λ x. is_id k x.0));
      below = λ k up. omega (arith, b.below k up, less (λ x. is_id k x.0));
      numbered = b.numbered;
    }

pub reclaim-Inv :
    (counted : Bool) (ids : List ℕ) (s : Session) → Inv s → Inv (reclaim counted ids s)
unfolding reclaim
reclaim-Inv counted [] s h = h
reclaim-Inv counted (id ∷ ids) s h =
    reclaim-Inv counted ids (reclaim_entry counted id (lookup id s.inflight) s)
      (reclaim_entry-Inv counted id (lookup id s.inflight) s refl h)

pub lookup_head : (k : ℕ) (v : Sent) (m : List (ℕ × Sent)) → lookup k ((k, v) ∷ m) ≡ some v
lookup_head k v m = ground arith

pub remove_head : (k : ℕ) (v : Sent) (m : List (ℕ × Sent)) → remove k ((k, v) ∷ m) ≡ m
remove_head k v m = ground arith

-- Walking over all keys leaves nothing in flight.
pub reclaim-keys :
    (m : List (ℕ × Sent)) (s : Session) → s.inflight ≡ m → (reclaim false (keys m) s).inflight ≡ []
unfolding reclaim reclaim_entry
reclaim-keys [] s e = e
reclaim-keys ((id, (frame, is_dup, at)) ∷ m) s e =
    reclaim-keys m (reclaim_entry false id (lookup id s.inflight) s) (
      ap (λ x. (reclaim_entry false id (lookup id x) (record s { inflight = x })).inflight) e
      ∙ ap
          (λ o.
            (reclaim_entry false id o
              (record s { inflight = (id, (frame, is_dup, at)) ∷ m })).inflight)
          (lookup_head id (frame, is_dup, at) m)
      ∙ remove_head id (frame, is_dup, at) m)

-- After a drain nothing is in flight.
pub record Drained (s : Session) : Type 0 where
  pub inv : Inv s
  pub none_inflight : s.inflight ≡ []

pub drain-Drained :
    (order : List ℕ) (s : Session) → Inv s → Drained (drain_inflight_to_retry order s)
unfolding drain_inflight_to_retry
drain-Drained order s h =
    let s' = reclaim false order s in
    record {
      inv = reclaim-Inv false (keys s'.inflight) s' (reclaim-Inv false order s h);
      none_inflight = reclaim-keys s'.inflight s' refl;
    }
