-- ===== src/Ingest/Sink/Tests.antt =====
-- Runs of crates/coldbore-ingest/src/sink.rs on concrete batches, against a table held as a list.
use cold_bore.Base.{◌≤◌, ◌≡◌, List, [], ◌∷◌, arith}
use cold_bore.Proto.Frame.{Frame}
use cold_bore.Ingest.Sink.Samples.{table, sample}
use cold_bore.Ingest.Sink.{insert_batch}
use cold_bore.Ingest.Sink.Laws.{insert_batches, insert_batch_again}
use cold_bore.Ingest.Sink.Identity.{Identity, rows_of, stored_exactly_once}

-- Frame 2 is delivered three times, in two batches.
abbrev batches : List (List Frame)
batches = (sample 2 ∷ sample 1 ∷ sample 2 ∷ []) ∷ (sample 3 ∷ sample 2 ∷ []) ∷ []

abbrev second : Identity
second = record { pad = 1; well = 1; epoch = 1; seq = 2; t_ms = 2 }

stored_exactly_once_example : rows_of second (table.rows (insert_batches table [] batches)) ≡ 1
stored_exactly_once_example = stored_exactly_once table [] batches second (λ j. omega arith)

insert_batch_again_example :
    let (t', n) = insert_batch table [] (sample 2 ∷ sample 1 ∷ sample 2 ∷ []) in
    (n ≤ 3)
    × ((insert_batch table t' (sample 2 ∷ sample 1 ∷ sample 2 ∷ [])).1 ≡ 0)
    × (table.rows (insert_batch table t' (sample 2 ∷ sample 1 ∷ sample 2 ∷ [])).0 ≡ table.rows t')
insert_batch_again_example = insert_batch_again table [] (sample 2 ∷ sample 1 ∷ sample 2 ∷ [])
