-- ===== src/Lib.antt =====
-- cold-bore moves sensor frames from a field site to a database, meaning to lose none and to store none
-- twice. This library models its Rust crates.
--
-- The parts, and the files that model them:
--
--   Proto      crates/coldbore-proto: Frame (frame.rs: Frame, validate, routing_key, message_id), Control
--              (control.rs: ControlCommand, validate), Config (config.rs: env_parse, Mode, StreamFrom and
--              the three from_env), Metrics (metrics.rs), Topology (topology.rs: names and routing keys;
--              the calls that declare them), Float (f32 and f64 by their bits, as far as the code compares
--              them or makes them of integers).
--   Edge       crates/coldbore-edge. Faults: faults.rs and the consumer of control.rs. Uplink: the
--              custody of uplink.rs (buffer_frame, fill_publish_queue, next_publishable); Uplink/Severed:
--              what it reads of the fault state; Uplink/Session: publish_loop and reap_all;
--              Uplink/Session/Run: connect_and_serve and run.
--              UplinkStream: uplink_stream.rs, which shares the custody and keeps publishing ids: the
--              batches and the pump, UplinkStream/Select: the branches of its loop, UplinkStream/Run: run.
--              Topology: declare_topology of uplink.rs. Sim: sim.rs (WellSim, generator). Counters,
--              Telemetry: telemetry.rs. Message: start_publish of uplink.rs and build_message of
--              uplink_stream.rs. Main: main.rs, the two tasks and the select! that ends them.
--   Ingest     crates/coldbore-ingest. Gap: gap.rs (GapTracker). Sink: sink.rs. Consume: consume.rs
--              (accept, flush, run_classic). ConsumeStream: consume_stream.rs and, for its sessions one
--              after the other, main.rs. Main: main.rs, in both modes and with its waits. Topology:
--              declare_topology of consume.rs. Counters, Telemetry: telemetry.rs and the loop over a
--              batch that calls it. Control: control.rs. Sink/Watermarks: the query that seeds the gaps.
--   Pipeline   a frame from the edge's message through the classic consumer to the sink; EndToEnd and
--              Streamed: from the generator to the table, in classic and in stream mode.
--   Base       lists, association lists for maps, wrap-around arithmetic on u64, Result, and what the code
--              uses of Rust's text functions: decimal printing, trim, parse, strip_prefix.
--
-- How they interact: the generator hands frames to an uplink, which holds each in custody until the
-- broker confirms it; the ingest takes deliveries, validates them, inserts batches into the sink, tells
-- the gap tracker, and only then acks (classic) or, in the same transaction, stores its offset (stream).
-- Commands reach the fault state of the edge, which the uplinks read.
--
-- How the code is rendered. State is passed explicitly. An async loop is a function over a list of
-- rounds; a round holds what the environment chose: the branch of select! that is ready, what the broker
-- and the database answered or that they did not in time, the clock, random numbers, the order in which
-- a HashMap is walked, and what was read of the fault state. So a theorem about all lists of rounds is
-- one about all interleavings. A session that ends is a status (lost, shutdown); the two expects of
-- uplink.rs are a status too. Fields named trace record what became of each frame; the program has none of them.
-- u64 counters wrap around, as in release builds; usize has 64 bits. PostgreSQL, the broker, serde_json,
-- hdrhistogram and, of the standard library, the reading of an f64 and the quoted form of a text are
-- parameters; the laws that a theorem relies on are fields of Engine (Ingest/Sink), Broker
-- (Proto/Topology), Stream (Edge/UplinkStream/Dedup), Histogram (Ingest/Telemetry) and Serde (Pipeline),
-- and each has a concrete instance in the tests.
--
-- Fuel: fill_publish_queue pulls at most 512 frames, so its loop gets 512 rounds. The pump of the classic
-- uplink gets as many turns as the window has room, and each turn takes one frame or stops. The pump of
-- the stream uplink gets as many turns as the window is wide; a turn sends a batch or stops. A number
-- is printed with at most twenty digits, which 64 bits do not exceed, and log2 of a u64 takes 64 steps.
--
-- Not modelled: the waveforms of sim.rs and its arithmetic on time and rate, JSON (serde), the making
-- of connections, the async runtime with its channel (theorems say what the channel and the broker hand
-- on), logging, and everything that is not Rust (the api service, the dashboard, the infrastructure).
pub mod Base
pub mod Proto
pub mod Edge
pub mod Ingest
pub mod Pipeline
