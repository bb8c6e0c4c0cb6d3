-- ===== src/Edge/Main/Tests.antt =====
-- A run of crates/coldbore-edge/src/main.rs in classic mode.
use cold_bore.Base.{◌+◌, ◌≡◌, length, weigh, arith}
use cold_bore.Proto.Config.{classic}
use cold_bore.Edge.Sim.Numbers.{seqs_of}
use cold_bore.Edge.Uplink.Custody.{live}
use cold_bore.Edge.Main.Accounted.{
  is_sample, once_within, in_mode, classic_IdsLast, samples_accounted,
}
use cold_bore.Edge.Main.Samples.{
  flat, config, world, queued, run_in, sent_in, four_sent, classic_channel,
}

samples_accounted_example :
    let w = is_sample (1, 2) 2 in
    let l = run_in classic in
    weigh w queued + l.waiting w + weigh (live w) l.confirmed + weigh w l.dropped
    ≡ once_within (length (seqs_of (1, 2) (sent_in classic))) 2 + weigh w l.promoted
samples_accounted_example =
    samples_accounted flat (in_mode classic config) 7 world queued (1, 2) 2
      (omega (arith, four_sent)) (classic_IdsLast flat config 7 world) classic_channel
