-- ===== src/Ingest/Control/Tests.antt =====
-- Runs of crates/coldbore-ingest/src/control.rs: a malformed command and one for the edge, then the kill.
use cold_bore.Base.{◌≡◌, ◌↔◌, refl, true, false, List, [], ◌∷◌, none, some}
use cold_bore.Proto.Control.{kill, edge, ingest}
use cold_bore.Ingest.Control.{Next, got, failed, serve, exited, KilledBy, serve-exited}

abbrev three : List Next
three = got none true ∷ got (some (kill edge)) true ∷ got (some (kill ingest)) false ∷ failed ∷ []

three_exit : serve three ≡ exited 3
unfolding serve
three_exit = refl

serve-exited_example : (serve three ≡ exited 3) ↔ KilledBy three
serve-exited_example = serve-exited three
