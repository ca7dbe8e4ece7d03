-- ===== src/Lib.antt =====
-- Tuning Tools watches and tunes the variables of a robot firmware while it runs. The host reads the
-- target's memory through a debug probe, or talks to the firmware over a framed protocol, on a
-- serial line or on RTT channels in the target's memory; it samples values at a steady rate, and
-- hands them on in batches. This library models the host's core, which is written in Rust.
--
-- The parts, each in a module with the child modules that its theorems stand in:
--
-- Base: what the others share: tests on numbers, lists measured by native numbers, little-endian
--   words, bits.
-- Wire: crates/studio-core/src/wire.rs. `crc16`, `encode`, `Decoder` with `feed`, the payload's
--   `Reader` (Wire/Reader), the commands (Wire/Cmd) and the status texts (Wire/Status). The callback
--   of `feed` is the list of the frames it is called with. The loop runs on fuel, a round for each
--   byte that the buffer holds and one more, which is enough since each round but the last drops a
--   byte at least.
-- Ticker: crates/studio-core/src/schedule.rs, the ticker of the sampling loop. Times are nanoseconds;
--   the tick numbers wrap at 64 bits, and at 32 bits where the source truncates them.
-- Batch: crates/studio-core/src/frame.rs, the builder of sample batches (`FrameBuilder`), the batch
--   (`SampleBatch`), its binary frame, and the frame's decoder. A value is the 64 bits of its `f64`.
-- Carrier: crates/studio-carriers/src/lib.rs and mock.rs. `MemoryAccess` is an interface: a memory is
--   a state that an access passes on with an error or a result, and the laws say that a read yields
--   the bytes that stand there and a write puts its bytes there. Carrier/Mock is the in-memory target
--   of mock.rs, and fills the interface. Carrier/Ends is what holds of a chain of accesses.
-- Rtt: crates/studio-carriers/src/rtt.rs. A ring of the firmware's control block is read and written
--   through any memory; Rtt/Channels searches the block for channels and keeps the reader of the log
--   and the duplex end that the framed protocol runs on.
-- ReadPlan: crates/studio-core/src/plan.rs. The watched values' spans are sorted and merged into the
--   regions that a tick reads (`with_limits`), and each value is decoded from its slot (`sample`). A
--   value as an `f64` is the number that is converted, or the bits of a float.
--
-- Message: the texts of errors, by what they say. Float: the operations on `f64` and `f32` as an
--   interface with laws on the numbers of 32 bits, which Float/Sample fills.
-- Catalog: crates/studio-core/src/catalog.rs. The kinds of cells, the entries and what a request of a
--   value writes; Catalog/Read reads the target's table through any memory (`TableLayout::read`), and
--   Catalog/Read/Image is the ELF's image as such a memory.
-- Tune: crates/studio-core/src/tune.rs. A `Tuner` checks the target's table against the ELF's, samples
--   the cells through a ReadPlan, and writes requests.
-- Stats: crates/studio-core/src/stats.rs, the window of recent ticks and the snapshot over it.
-- Session: what a session is asked and what it tells, of crates/studio-core/src/session.rs and log.rs.
-- Link: crates/studio-core/src/link.rs, the worker of a session over the framed protocol. A method takes
--   the worker and the world and yields a result, a failure or a panic with both. The world is what
--   the worker calls: the stream, the sink, the channels of those who wait. Link/Commands is the loop of
--   `run` over turns, each with what the channel, the stream and the clock give; Link/Frames what a
--   reply or a timeout does, and Link/Samples what a sample does; Link/Entry the reading of the firmware's
--   catalog, on fuel of 2 ^ 16 + 1 rounds, since each round but the last brings an entry and there are
--   fewer than 2 ^ 16; Link/Handshake the start of a session, each call with the reads of the
--   stream until its time is over. The sink is not told the wall-clock time.
--   `chunks` has a round for each id. A `HashMap` is an association list, in an order of its own.
-- RttTuning: crates/studio-core/src/rtt_tuning.rs, tuning requests over the duplex end of Rtt. Whoever
--   waits is a channel's number, and an operation yields the answers that it sends. RttTuning/Calls has the
--   operations; the loop of `poll` runs on fuel, a round for each byte of the up ring and one more, since
--   each round but the last takes 1024 bytes. A payload has 4 or 16 bytes, so its frame never panics.
-- Core: crates/studio-carriers/src/cortex_m.rs, the core's run state.
-- Probe: crates/studio-core/src/session.rs, the worker of a session over a probe. What it puts out is a
--   trace, on which the sink's decision to take a frame may depend. Probe/Requests answers what is queued,
--   Probe/Turn has the parts of a turn of `serve`, and Probe/Loop `serve` over turns, each with the
--   commands and the instants that it finds and what the target did to its memory since, and `run` over the
--   openings of the memory. A session that puts out nothing more has no result yet, nor has one in which a
--   poll of the control channel is still running behind its rounds; a panic is a result of its own.
--
-- Watches: crates/studio-core/src/tap.rs, the names that go with a batch. A number has at most ten digits.
-- Tap: crates/studio-core/src/tap.rs, the subscribers and their queues, and the events that they get. What
--   the lock guards is a state, and each operation a function of it. A channel is the list of what is
--   queued, and whether its receiver is there.
-- Stream: crates/studio-app/src/stream.rs, the live stream's clients. A line is what its JSON says; a
--   client's queue is bounded, and its writer takes lines from the front. Stream/Fanout is what the lines
--   are made of, and the end of clients that left, on fuel of a round for each client.
-- TaskStats: crates/studio-dwarf/src/task_stats.rs, the decoding of the tasks' counters.
--
-- The duplex end of Rtt carries what Wire encodes and decodes. The ticker says when a plan is sampled,
-- through the same memory; the values of a tick are a row of a batch. The link's worker decodes its
-- stream with Wire, puts samples into a Batch and counts them in Stats, and checks requests with Catalog.
-- The probe's worker samples a ReadPlan through the memory, puts the rows
-- into a Batch, and hands requests to RttTuning or to Tune. The tap stands between a worker and its sink, and takes the worker's batches and events; the stream is one of its subscribers.
--
-- Numbers are natural numbers. Where the source computes in a fixed width and a value can reach it, the
-- wrap-around is written out. Addresses are not wrapped at 64 bits, and the sums of ReadPlan's addresses and
-- lengths are those of numbers without a bound. Where arithmetic overflows, it wraps, as in a release
-- build; a debug build panics there, which it does on a signed field of 63 bits in ReadPlan. The panics of
-- assertions, of `unwrap`, of a rate without a period and of a buffer that is too long to allocate
-- are there: a panic is a result `none`, the failure `panics` of a method of Link, or the outcome
-- `panics` of Probe. The slice of a region's buffer that an item of ReadPlan is decoded from is taken as far
-- as the buffer reaches; `with_limits` puts each slot inside its region.
--
-- Not modelled: `f64` below its interface, with the decimal text of an `f32` and what it is read as, and the
-- period of a rate, which is a parameter of Probe; threads, locks and sleeping; a
-- firmware that changes memory between two accesses of the host, but between the turns of Probe and the
-- calls of RttTuning, so a firmware that refills a ring while `poll` empties it is outside the model; the
-- search of the table's layout in the debug information and the parsing of the ELF, which libraries
-- do. `String::from_utf8` and `String::from_utf8_lossy` are parameters. Logging and
-- serialization are left out.
pub mod Base
pub mod Wire
pub mod Ticker
pub mod Batch
pub mod Carrier
pub mod Rtt
pub mod ReadPlan
pub mod Message
pub mod Float
pub mod Catalog
pub mod Tune
pub mod Stats
pub mod Session
pub mod Link
pub mod Watches
pub mod Tap
pub mod RttTuning
pub mod Core
pub mod Probe
pub mod TaskStats
pub mod Stream
