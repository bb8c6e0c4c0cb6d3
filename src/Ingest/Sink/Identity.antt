-- ===== src/Ingest/Sink/Identity.antt =====
-- The identity of a frame and of a row of crates/coldbore-ingest/src/sink.rs, each by its own fields.
use cold_bore.Base.{
  ℕ, ◌+◌, ◌≤◌, ◌≡◌, refl, sym, subst, ap, ◌∙◌, Bool, false, ◌&&◌, ◌||◌, List, [], ◌∷◌, map, ◌==◌,
  if◌then◌else◌,
}
use mathlib.Core.Path.{ap₂}
use cold_bore.Proto.Float.{F32}
use cold_bore.Proto.Frame.{Frame}
use cold_bore.Ingest.Sink.{Row, to_row, contains, Engine}
use cold_bore.Ingest.Sink.Laws.{copies, IsUnique, insert_batches, delivered, copies-batches}

-- What tells two frames apart: the pad, the well, the producer's generation, the number and the time.
pub record Identity : Type 0 where
  pub pad : ℕ
  pub well : ℕ
  pub epoch : ℕ
  pub seq : ℕ
  pub t_ms : ℕ

abbrev pub is_of_frame : Identity → Frame → Bool
is_of_frame id f =
    id.pad == f.pad
    && id.well == f.well
    && id.epoch == f.epoch
    && id.seq == f.seq
    && id.t_ms == f.t_ms

abbrev pub is_of_row : Identity → Row → Bool
is_of_row id r =
    id.pad == r.pad_id
    && id.well == r.well_id
    && id.epoch == r.epoch
    && id.seq == r.seq
    && id.t_ms == r.time

-- How many rows have the identity, and whether there is one.
abbrev pub rows_of : Identity → List Row → ℕ
rows_of id [] = 0
rows_of id (r ∷ rows) = (if is_of_row id r then 1 else 0) + rows_of id rows

abbrev pub has_row : Identity → List Row → Bool
has_row id [] = false
has_row id (r ∷ rows) = is_of_row id r || has_row id rows

abbrev has_frame : Identity → List Frame → Bool
has_frame id [] = false
has_frame id (f ∷ fs) = is_of_frame id f || has_frame id fs

-- Does some batch have a frame with the identity?
abbrev pub brought : Identity → List (List Frame) → Bool
brought id [] = false
brought id (b ∷ bs) = has_frame id b || brought id bs

abbrev none32 : F32
none32 = record { bits = 0 }

-- A row with the identity.
abbrev probe : Identity → Row
probe id = record {
  time = id.t_ms;
  pad_id = id.pad;
  well_id = id.well;
  epoch = id.epoch;
  seq = id.seq;
  pressure_psi = none32;
  rate_bpm = none32;
  proppant_ppa = none32;
  temp_f = none32;
}

abbrev identity : Row → Identity
identity r = record {
  pad = r.pad_id;
  well = r.well_id;
  epoch = r.epoch;
  seq = r.seq;
  t_ms = r.time;
}

copies-probe : (id : Identity) (rows : List Row) → copies (probe id) rows ≡ rows_of id rows
copies-probe id [] = refl
copies-probe id (r ∷ rows) = ap (λ n. (if is_of_row id r then 1 else 0) + n) (copies-probe id rows)

copies-identity : (k : Row) (rows : List Row) → copies k rows ≡ rows_of (identity k) rows
copies-identity k [] = refl
copies-identity k (r ∷ rows) =
    ap (λ n. (if is_of_row (identity k) r then 1 else 0) + n) (copies-identity k rows)

contains-probe : (id : Identity) (rows : List Row) → contains (probe id) rows ≡ has_row id rows
unfolding contains
contains-probe id [] = refl
contains-probe id (r ∷ rows) = ap (◌||◌ (is_of_row id r)) (contains-probe id rows)

contains-frames :
    (id : Identity) (fs : List Frame) → contains (probe id) (map to_row fs) ≡ has_frame id fs
unfolding contains
contains-frames id [] = refl
contains-frames id (f ∷ fs) = ap (◌||◌ (is_of_frame id f)) (contains-frames id fs)

module _ (e : Engine) where
  delivered-probe :
      (id : Identity) (bs : List (List Frame)) → delivered e bs (probe id) ≡ brought id bs
  delivered-probe id [] = refl
  delivered-probe id (b ∷ bs) = ap₂ ◌||◌ (contains-frames id b) (delivered-probe id bs)

  -- Whatever batches are flushed into a table in which no two rows have the same identity (pad, well,
  -- epoch, seq, time), the table has exactly one row of each identity of which a frame was delivered,
  -- once or many times and in whatever batches and order, or of which it had one before, and no row of
  -- any other identity.
  pub stored_exactly_once :
      (t : e.Table) (bs : List (List Frame)) (id : Identity)
      → ((j : Identity) → rows_of j (e.rows t) ≤ 1)
      → rows_of id (e.rows (insert_batches e t bs))
        ≡ (if brought id bs || has_row id (e.rows t) then 1 else 0)
  stored_exactly_once t bs id unique =
      let u : IsUnique (e.rows t) =
        λ k. subst (λ n. n ≤ 1) (sym (copies-identity k (e.rows t))) (unique (identity k)) in
      sym (copies-probe id (e.rows (insert_batches e t bs)))
      ∙ copies-batches e t bs (probe id) u
      ∙ ap (λ b. if b then 1 else 0)
          (ap₂ ◌||◌ (delivered-probe id bs) (contains-probe id (e.rows t)))
