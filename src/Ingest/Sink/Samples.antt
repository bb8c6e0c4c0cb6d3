-- ===== src/Ingest/Sink/Samples.antt =====
-- A table held as a list, and frames, on which the code around crates/coldbore-ingest/src/sink.rs runs.
use cold_bore.Base.{ℕ, ◌-◌, refl, List, length, arith}
use cold_bore.Proto.Float.{F32}
use cold_bore.Proto.Frame.{Frame}
use cold_bore.Ingest.Sink.{Row, Engine, insert_rows}
use cold_bore.Ingest.Sink.Laws.{insert_rows-length}

abbrev pub table : Engine
table = record {
  Table = List Row;
  rows = λ t. t;
  execute = λ t batch. (insert_rows t batch, length (insert_rows t batch) - length t);
  do_nothing = λ t batch. refl;
  row_count = λ t batch. omega (arith, insert_rows-length t batch);
}

abbrev pub zero32 : F32
zero32 = record { bits = 0 }

abbrev pub sample : ℕ → Frame
sample seq = record {
  v = 1;
  pad = 1;
  well = 1;
  epoch = 1;
  seq = seq;
  t_ms = seq;
  pressure_psi = zero32;
  rate_bpm = zero32;
  proppant_ppa = zero32;
  temp_f = zero32;
}
