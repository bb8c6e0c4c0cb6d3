-- ===== src/Edge/Main/Samples.antt =====
-- A run of crates/coldbore-edge/src/main.rs in either mode: two wells are sampled twice; of the four frames
-- one is confirmed, and three are in the channel.
use cold_bore.Base.{
  sym, ap, ◌∙◌, ℕ, ◌≡◌, refl, true, false, List, [], ◌∷◌, ◌++◌, length, arith, add64,
}
use cold_bore.Base.Map.{find, put}
use cold_bore.Proto.Float.{F32, f64_zero, f64_one}
use cold_bore.Proto.Frame.{Frame}
use cold_bore.Proto.Config.{Mode, classic, stream, EdgeConfig}
use cold_bore.Edge.Sim.{Waves, generator, each_sample, each_pad, each_well, generate, step, new}
use cold_bore.Edge.Uplink
use cold_bore.Edge.Uplink.{
  Reads, buffer_frame, next_publishable, fill_publish_queue, pull_loop, pull_round, stage, buffered,
}
use cold_bore.Edge.Uplink.Session.{
  Attempt, sent as published, ack, Event, reaped, received as taken, publish_round, pump,
  publish_sent, select, accept, settle, inject, gauge, count_confirmed, note_ack,
}
use cold_bore.Edge.Uplink.Session.Run as ClassicRun
use cold_bore.Edge.Uplink.Session.Run.{Round, Life, serving, publish_loop, buffer_all, live_once}
use cold_bore.Edge.UplinkStream
use cold_bore.Edge.UplinkStream.{
  stage_batch, stage_retries, stage_fresh, send_failed, send_done, reclaim, reclaim_entry,
  drain_inflight_to_retry,
}
use cold_bore.Edge.UplinkStream.Select
use cold_bore.Edge.UplinkStream.Run
use cold_bore.Edge.Main.{World, spawn_uplink, run}
use cold_bore.Edge.Main.Accounted.{Ledger, IdsLast, tasks, books, sent, in_mode}

abbrev pub zero32 : F32
zero32 = record { bits = 0 }

abbrev pub flat : Waves
flat = record {
  State = Unit {0};
  seeded = λ pad well. tt;
  advance = λ s dt. s;
  read = λ s. record { pressure = zero32; rate = zero32; proppant = zero32; temp = zero32 };
}

abbrev pub config : EdgeConfig
config = record {
  common = record {
    amqp_url = "";
    mode = classic;
    metrics_interval_ms = 1000;
    stream_host = "";
    stream_port = 5552;
    stream_user = "";
    stream_pass = "";
  };
  pads = 1;
  wells_per_pad = 2;
  rate_hz = f64_one;
  buffer_cap = 10;
  confirm_window = 4;
}

abbrev pub frame : ℕ → ℕ → ℕ → Frame
frame well seq t_ms = record {
  v = 1;
  pad = 1;
  well = well;
  epoch = 7;
  seq = seq;
  t_ms = t_ms;
  pressure_psi = zero32;
  rate_bpm = zero32;
  proppant_ppa = zero32;
  temp_f = zero32;
}

abbrev pub works : ℕ → Attempt
works room = record {
  reads = record { window = 0; link_up = λ turn pad. true; pick = λ i. i };
  result = published;
}

abbrev pub round : Event → Round
round event = record { attempts = works; event = event; reaps = [] }

abbrev pub classic_life : List Life
classic_life =
    record {
      connects = serving;
      now = 0;
      rounds = round (taken (frame 1 1 1)) ∷ round (reaped ack f64_zero f64_zero 5) ∷ [];
      offline = [];
      closed = false;
    }
    ∷ []

abbrev pub stream_round : Select.Event → Run.Round
stream_round event = record {
  attempts = λ n. record {
    reads = λ _. record { window = 0; link_up = λ turn pad. true; pick = λ i. i };
    now = 1;
    sends = true;
    order = [];
  };
  event = event;
  order = [];
}

abbrev pub stream_life : List Run.Life
stream_life =
    record {
      connects = true;
      now = 0;
      rounds =
          stream_round (Select.received (frame 1 1 1))
          ∷ stream_round (Select.confirmed 0 true 5 f64_zero f64_zero)
          ∷ [];
      offline = [];
      closed = false;
    }
    ∷ []

abbrev pub world : World
world = record {
  takes = λ _. true;
  ticks =
      record { samples = 2; t_ms = λ left. left; pads = 1; wells_per_pad = 2; dt = f64_one } ∷ [];
  classic_lives = classic_life;
  stream_lives = stream_life;
}

abbrev pub queued : List Frame
queued = frame 2 2 0 ∷ frame 1 2 0 ∷ frame 2 1 1 ∷ []

abbrev pub run_in : Mode → Ledger
run_in mode = books flat (in_mode mode config) 7 world

abbrev pub sent_in : Mode → List Frame
sent_in mode = sent flat (in_mode mode config) 7 world

pub four_sent : length (sent_in classic) ≡ 4
unfolding run generator each_sample each_pad each_well generate step new find put
four_sent = refl

-- What the generator sent, in either mode, newest first.
pub all_sent : (mode : Mode) → sent_in mode ≡ queued ++ frame 1 1 1 ∷ []
unfolding run generator each_sample each_pad each_well generate step new find put add64
all_sent mode = refl

pub one_confirmed :
    ((run_in classic).received ≡ frame 1 1 1 ∷ [])
    × ((run_in classic).confirmed ≡ (frame 1 1 1, false) ∷ [])
unfolding run spawn_uplink ClassicRun.run ClassicRun.start publish_loop publish_round pump
    next_publishable fill_publish_queue pull_loop pull_round stage publish_sent select accept
    buffer_frame settle inject gauge count_confirmed note_ack Uplink.new buffer_all live_once add64
one_confirmed = (refl, refl)

pub one_confirmed_stream :
    ((run_in stream).received ≡ frame 1 1 1 ∷ [])
    × ((run_in stream).confirmed ≡ (frame 1 1 1, false) ∷ [])
    × IdsLast (tasks flat (in_mode stream config) 7 world).uplink
unfolding run spawn_uplink Run.run Run.live_once Run.publish_loop Select.publish_round
    UplinkStream.pump stage_batch stage_retries stage_fresh send_failed reclaim reclaim_entry
    drain_inflight_to_retry Run.buffer_all Select.accept Run.start Uplink.new buffer_frame
    next_publishable fill_publish_queue pull_loop pull_round stage Select.select Select.settle
    Select.gauge add64 send_done
one_confirmed_stream = (refl, refl, omega arith)

pub classic_channel : queued ++ (run_in classic).received ≡ sent_in classic
classic_channel = ap (λ fs. queued ++ fs) one_confirmed.0 ∙ sym (all_sent classic)

pub stream_channel : queued ++ (run_in stream).received ≡ sent_in stream
stream_channel = ap (λ fs. queued ++ fs) one_confirmed_stream.0 ∙ sym (all_sent stream)
