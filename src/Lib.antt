-- ===== src/Lib.antt =====
-- A model of the "bare metal canvas" server: a shared canvas of 1000 x 1000 pixels to which tens of
-- thousands of clients write over QUIC, one pixel each per five minutes.
--
-- Worker threads receive datagrams, let a pixel pass when its user is not on cooldown, and push it
-- into their ring buffer. One master thread drains the ring buffers onto the canvas and, every 100 ms,
-- publishes a snapshot of it, plain and compressed, in the next slot of a pool of 16. The workers see
-- the active slot change and send their clients the whole canvas or the cells that changed.
--
-- Which file models which code (paths from the repository's root):
--   Base            lists over the native numbers, Boolean tests, bitwise operations
--   Settings        server/src/const_settings.rs: the constants that the other parts use, under their
--                   own names, and the memory budget
--   Cooldown        server/src/cooldown.rs: `CooldownArray`, `is_on_cooldown`, `set_cooldown`
--   TimingWheel     server/src/timing_wheel.rs: `tick`, `add_cooldown`; TimingWheel/Remaining has the
--                   abstract view, the number of ticks each user still has to wait
--   Spsc            server/src/spsc.rs: `push`, `pop`; Spsc/Refine has the bounded queue they
--                   implement, Spsc/Threads the two threads as a step relation
--   Rle             `rle_compress` of server/src/master.rs with its vector paths, `rle_decompress` of
--                   client/src/main.rs
--   Canvas          server/src/canvas.rs: `set_pixel`, `snapshot_to_pool` and the statics
--   Master          server/src/master.rs: one round of the loop of `run`; Master/Service has many, while
--                   the workers push
--   Quiche          the QUIC crate, a parameter
--   Broadcast       `handle_broadcast` of server/src/worker.rs and what it calls; Broadcast/Follow has a
--                   receiver that gets every datagram and is told the kind of each broadcast (the wire
--                   does not say it), Broadcast/Resync such a receiver over many broadcasts
--   HashMap         the maps of server/src/transport.rs, as association lists
--   Transport       server/src/transport.rs: `handle_incoming`, `cleanup_connections` and what they call;
--                   Transport/Users has the user ids, Transport/Later how later packets find a connection
--   Worker          the admission of pixels in server/src/worker.rs: `handle_tick` and the loop over the
--                   pixels in `handle_incoming_cqe`; Worker/Admission has the abstract view
--   Transmit        the transmit slots of server/src/worker.rs: `flush_outgoing` and the completions of
--                   sends in `process_pending_cqes`
--   Outcome         results of code that may panic and of loops on fuel
--   Framing         `Framing::parse` of server/src/worker.rs; Framing/Ends says when it returns,
--                   Framing/Spin when it never does, Framing/Message has the layout of a message
--   EventLoop       `WorkerCore`, `process_pending_cqes`, `handle_incoming_cqe`, `maintain_connections`
--                   and the loop of `run_linux` in server/src/worker.rs. The ring is the list of
--                   completions that a turn finds, and what was submitted; EventLoop/Sound has the
--                   invariant and what is asked of the kernel
--   Clock           server/src/time.rs
--   Startup         server/src/main.rs: the flag, the cores, the workers and the master in `main`;
--                   Startup/Certificates has the certificates, with Transport/Config for the
--                   configuration that loads them, and `boot`, the whole of `main`
--   LoadMetrics     client/src/metrics.rs: the counters and the rows of the exporter, LoadMetrics/Csv
--                   its file; LoadMetrics/Read has a reader of that file
--   Client          client/src/main.rs: `simulate_user` and the loop that spawns the users, as what their
--                   tasks do at each event, with Client/Launch for `main` and Client/Tls for
--                   client/src/tls.rs; `rle_decompress` is in Rle
--   EndToEnd        a pixel from a worker's packet to the master's canvas
--   Server          the threads that `main` starts, together, as a step relation: the turns of the
--                   workers, the rounds of the master and the kernel that fills receive buffers.
--                   Server/Safe has the invariant, Server/Main what holds from `main` on,
--                   Server/Served the way of a write to the canvas
--   FileSystem      files, a parameter
--   Tests           runs at small inputs
--
-- Conventions. A `u8`, `u32`, `u64` or `usize` is a native number with its wrap-around written out;
-- `usize` has 64 bits; overflow wraps, as in release builds. A panic, an index out of range and a read
-- of an unwritten slot are values (`none`, `Popped.undefined`). Structs that the source mutates are
-- passed and returned. Bytes go to the wire in little-endian order, and the machine is little-endian.
--
-- Fuel. The vector loop has fuel 256, since a round adds 16 or 32 to a count that stays below 256. The
-- outer loop of the compressor and `chunks` have the length of their input as fuel, since each round
-- takes at least one byte. Rle/Compress and Broadcast/Chunks show that both are enough. The loop over
-- received datagrams has the configured length of the receive queue and one more as fuel; the QUIC crate
-- keeps that bound, which is a hypothesis (Transport/Incoming). The fuel of `flush_outgoing` is an
-- argument, and a hypothesis of Transmit/Slots says that sending a packet leaves one less to send;
-- EventLoop/Turn shows that for every turn some fuel is enough. The loop over control messages has 9
-- rounds: a message takes at least 8 of the 64 bytes, if it announces a length that is not 0
-- (Framing/Ends). Loops without an end are taken turn by turn or event by event.
--
-- Interleavings. In Server a step is a turn of one worker, a round of the master or the kernel at work
-- on a worker's receive buffers, and steps come in any order. Spsc/Threads takes a push and a pop apart
-- into their accesses, acquire and release ones as sequentially consistent. In the other files a
-- broadcast reads its slot in one step and the master drains in one step; Master/Snapshot has for how
-- many publications a slot stays.
--
-- The kernel. What a turn relies on is written out in EventLoop/Sound: a completed receive names a
-- buffer that holds a message, and a completed send was in flight.
--
-- Files. The file system is a parameter that keeps what was written and may fail; so is the crate that
-- makes certificates. Of the exporter's file the model has the text that is handed to it.
--
-- Not modelled: the set-up of sockets, io_uring and threads, the clock's thread, what is printed, the
-- text of floating point numbers, the arguments of the client, and the deployment files. The ids
-- that `rand` draws and the flags of a completion are parameters.
pub mod Base
pub mod Settings
pub mod Cooldown
pub mod TimingWheel
pub mod Spsc
pub mod Rle
pub mod Canvas
pub mod Master
pub mod Quiche
pub mod Broadcast
pub mod Worker
pub mod Transport
pub mod Tests
pub mod Client
pub mod Clock
pub mod EndToEnd
pub mod EventLoop
pub mod FileSystem
pub mod Framing
pub mod HashMap
pub mod LoadMetrics
pub mod Outcome
pub mod Server
pub mod Startup
pub mod Transmit
