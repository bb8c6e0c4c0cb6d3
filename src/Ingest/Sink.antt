-- ===== src/Ingest/Sink.antt =====
-- crates/coldbore-ingest/src/sink.rs: the idempotent sink. The casts `as i16` and `as i64` keep the
-- bits, and a column is held by its bits. PostgreSQL is a parameter, `Engine`: it runs INSERT_SQL.
pub mod Laws
pub mod Identity
pub mod Batch
pub mod Samples
pub mod Watermarks
mod Tests
use cold_bore.Base.{
  ℕ, ◌+◌, ◌≡◌, Bool, true, false, ◌&&◌, ◌||◌, List, [], ◌∷◌, ◌++◌, map, ◌==◌, if◌then◌else◌, length,
  Option, some,
}
use cold_bore.Proto.Float.{F32}
use cold_bore.Proto.Frame.{Frame}

-- A row of `frames`, by the columns of INSERT_SQL.
pub record Row : Type 0 where
  pub time : ℕ
  pub pad_id : ℕ
  pub well_id : ℕ
  pub epoch : ℕ
  pub seq : ℕ
  pub pressure_psi : F32
  pub rate_bpm : F32
  pub proppant_ppa : F32
  pub temp_f : F32

-- What the loop over the frames pushes on the nine column arrays for one frame.
abbrev pub to_row : Frame → Row
to_row f = record {
  time = f.t_ms;
  pad_id = f.pad;
  well_id = f.well;
  epoch = f.epoch;
  seq = f.seq;
  pressure_psi = f.pressure_psi;
  rate_bpm = f.rate_bpm;
  proppant_ppa = f.proppant_ppa;
  temp_f = f.temp_f;
}

-- `frames_identity`: (pad_id, well_id, epoch, seq, time).
abbrev pub same_identity : Row → Row → Bool
same_identity a b =
    a.pad_id == b.pad_id
    && a.well_id == b.well_id
    && a.epoch == b.epoch
    && a.seq == b.seq
    && a.time == b.time

unfoldable pub contains : Row → List Row → Bool
contains r [] = false
contains r (x ∷ xs) = same_identity r x || contains r xs

-- INSERT ... ON CONFLICT (pad_id, well_id, epoch, seq, time) DO NOTHING: row by row, a row whose
-- identity is there is passed over.
pub insert_row : List Row → Row → List Row
unfolding contains
insert_row rows r = if contains r rows then rows else r ∷ rows

pub insert_rows : List Row → List Row → List Row
unfolding insert_row
insert_rows rows [] = rows
insert_rows rows (r ∷ rs) = insert_rows (insert_row rows r) rs

-- PostgreSQL, as far as the sink uses it: the frames table, and INSERT_SQL on arrays of columns, which
-- answers with the number of rows inserted. The two laws are its documented behaviour.
pub record Engine : Type 1 where
  pub Table : Type 0
  pub rows : Table → List Row
  pub execute : Table → List Row → Table × ℕ
  pub do_nothing :
      (t : Table) (batch : List Row) → rows (execute t batch).0 ≡ insert_rows (rows t) batch
  pub row_count :
      (t : Table) (batch : List Row)
      → length (rows t) + (execute t batch).1 ≡ length (rows (execute t batch).0)

-- `Sink::insert_batch`, where the database answers.
unfoldable pub insert_batch : (e : Engine) → e.Table → List Frame → e.Table × ℕ
insert_batch e t frames = e.execute t (map to_row frames)

-- The two tables that one transaction of stream mode writes: `frames`, and the row of the consumer in
-- `stream_offsets`.
pub record Database (Table : Type 0) : Type 0 where
  pub table : Table
  pub committed_offset : Option ℕ

-- `Sink::insert_batch_with_offset`, where the transaction commits.
unfoldable pub insert_batch_with_offset :
    (e : Engine) → Database e.Table → List Frame → ℕ → Database e.Table × ℕ
unfolding insert_batch
insert_batch_with_offset e db frames offset =
    let (t, inserted) = insert_batch e db.table frames in
    (record { table = t; committed_offset = some offset }, inserted)

-- `Sink::stored_offset`
abbrev pub stored_offset : {Table : Type 0} → Database Table → Option ℕ
stored_offset db = db.committed_offset
