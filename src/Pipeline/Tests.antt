-- ===== src/Pipeline/Tests.antt =====
-- A run of the edge in either mode, whose frame that is confirmed is handed on to the ingest. The payload
-- is the frame's integers.
use cold_bore.Base.{
  ℕ, ◌≡◌, refl, sym, subst, arith, List, [], ◌∷◌, ◌++◌, map, Option, none, some, All, false,
}
use cold_bore.Proto.Frame.{Frame, IsSound}
use cold_bore.Ingest.Counters.{zeros}
use cold_bore.Ingest.Gap
use cold_bore.Ingest.Sink.{Row, Database}
use cold_bore.Ingest.Sink.Samples.{table, zero32}
use cold_bore.Ingest.Consume.{flush_tick, Session, running, run_classic}
use mathlib.Core.List.{Mem, mem-cons_self}
use cold_bore.Proto.Config.{classic, stream}
use cold_bore.Edge.Main.Samples.{
  flat, config, frame, world, queued, run_in, sent_in, one_confirmed, one_confirmed_stream,
  classic_channel, stream_channel,
}
use cold_bore.Ingest.ConsumeStream
use cold_bore.Pipeline.EndToEnd.{Elsewhere, classic_samples-Elsewhere}
use cold_bore.Pipeline.Streamed.{Appended, deliver_record, turn_at, stream_samples-Elsewhere}
use cold_bore.Pipeline.{Serde, Passage, deliver, in_health}

-- The integers in order; the readings come back as 0.
abbrev fields : Frame → List ℕ
fields f = f.pad ∷ f.well ∷ f.epoch ∷ f.seq ∷ f.t_ms ∷ []

abbrev of_fields : List ℕ → Option Frame
of_fields (pad ∷ well ∷ epoch ∷ seq ∷ t_ms ∷ []) = some record {
  v = 1;
  pad = pad;
  well = well;
  epoch = epoch;
  seq = seq;
  t_ms = t_ms;
  pressure_psi = zero32;
  rate_bpm = zero32;
  proppant_ppa = zero32;
  temp_f = zero32;
}
of_fields _ = none

abbrev serde : Serde
serde = record {
  to_vec = fields;
  from_slice = of_fields;
  reads_back = λ f sound. (_, refl, (refl, refl, refl, refl, refl), (refl, refl, refl, refl), refl);
}

abbrev confirmed_frame : Frame
confirmed_frame = frame 1 1 1

confirmed_frame-IsSound : IsSound confirmed_frame
confirmed_frame-IsSound = (refl, refl, refl, refl, refl)

abbrev handed_on : List Passage
handed_on = record { frame = confirmed_frame; tag = 1; redelivered = false; now = 5 } ∷ []

classic_samples-Elsewhere_example :
    (s : Session (List Row)) × (run_classic table serde.from_slice 2 []
        (map (deliver serde) handed_on ++ (flush_tick, in_health 8) ∷ [])
        []
        zeros
        Gap.new
      ≡ running s)
    × Elsewhere table s.table (sent_in classic) queued (run_in classic)
classic_samples-Elsewhere_example =
    classic_samples-Elsewhere table serde flat config 7 world queued handed_on 2 [] 8 [] zeros
      Gap.new classic_channel
      (subst (All (λ c. Mem c.0 (confirmed_frame ∷ []))) (sym one_confirmed.1) (mem-cons_self, tt))
      (confirmed_frame-IsSound, tt)

-- The record at offset 0, and again at offset 1.
abbrev records : List Appended
records =
    record { frame = confirmed_frame; publishing_id = 0; at = 0; now = 5 }
    ∷ record { frame = confirmed_frame; publishing_id = 1; at = 1; now = 6 }
    ∷ []

abbrev empty_store : Database (List Row)
empty_store = record { table = []; committed_offset = none }

stream_samples-Elsewhere_example :
    (s : ConsumeStream.Session (List Row)) × (ConsumeStream.run_stream table serde.from_slice 2 []
        (map (deliver_record serde) records ++ (ConsumeStream.flush_tick, turn_at 8) ∷ [])
        empty_store
        zeros
        Gap.new
      ≡ ConsumeStream.running s)
    × Elsewhere table s.db.table (sent_in stream) queued (run_in stream)
stream_samples-Elsewhere_example =
    stream_samples-Elsewhere table serde flat config 7 world queued records 2 [] 8 empty_store zeros
      Gap.new one_confirmed_stream.2 stream_channel
      (subst (All (λ c. Mem c.0 (confirmed_frame ∷ confirmed_frame ∷ [])))
        (sym one_confirmed_stream.1) (mem-cons_self, tt))
      (omega arith, (omega arith, tt)) (confirmed_frame-IsSound, (confirmed_frame-IsSound, tt))
