-- ===== src/EventLoop/Start.antt =====
-- `WorkerCore::new` of server/src/worker.rs and what `run_linux` does before its loop.
use reddit_puzzle_system_des.Base.{ℕ, ◌+◌, ◌*◌, List, [], ◌++◌, replicate, length-replicate, refl}
use reddit_puzzle_system_des.Settings.{canvas_size, pkt_buf_size, io_uring_num_buffers}
use reddit_puzzle_system_des.Cooldown
use reddit_puzzle_system_des.TimingWheel
use reddit_puzzle_system_des.TimingWheel.Remaining.{new-Represents}
use reddit_puzzle_system_des.Spsc.{SpscRingBuffer}
use reddit_puzzle_system_des.Spsc.Refine.{Holds}
use reddit_puzzle_system_des.HashMap.{get}
use reddit_puzzle_system_des.Master.{PixelWrite}
use reddit_puzzle_system_des.Transport.{range}
use reddit_puzzle_system_des.Transport
use reddit_puzzle_system_des.Transport.Users.{new-IsShared}
use reddit_puzzle_system_des.Transmit
use reddit_puzzle_system_des.Transmit.Slots.{new-IsPool}
use reddit_puzzle_system_des.EventLoop.{WorkerCore}
use reddit_puzzle_system_des.EventLoop.Sound.{IsSound}

-- The locals of `run_linux` are 0 until it starts, and nothing was submitted.
unfoldable pub new : {C : Type 0} → SpscRingBuffer PixelWrite → ℕ → WorkerCore C
new {C} master_queue port = record {
  port = port;
  buffer_slab = replicate (pkt_buf_size * io_uring_num_buffers) 0;
  transport = Transport.new C;
  admitter = record {
    master_queue = master_queue;
    cooldown_master = Cooldown.new;
    timing_wheel = TimingWheel.new;
    last_tick_sec = 0;
  };
  broadcaster = record {
    last_broadcast_index = 0;
    last_sent_canvas = replicate canvas_size 0;
    local_canvas = replicate canvas_size 0;
    local_compressed = replicate (canvas_size * 2) 0;
    broadcast_ticks = 0;
    diff_buffer = [];
  };
  transmitter = Transmit.new;
  last_timeout_ms = 0;
  provided = [];
  armed = 0;
  draws = 0;
}

-- All buffers are handed to the kernel; the completion of that request is taken off the ring.
abbrev pub provide_initial_buffers : {C : Type 0} → WorkerCore C → WorkerCore C
provide_initial_buffers w = record w { provided = w.provided ++ range io_uring_num_buffers }

-- The buffers are handed over, one receive request is made, the clock is read, and the slot that is
-- active counts as sent.
unfoldable pub start : {C : Type 0} → ℕ → ℕ → ℕ → WorkerCore C → WorkerCore C
start active_index now_sec now_ms w = record (provide_initial_buffers w) {
  admitter = record (w.admitter) { last_tick_sec = now_sec };
  broadcaster = record (w.broadcaster) { last_broadcast_index = active_index };
  last_timeout_ms = now_ms;
  armed = w.armed + 1;
}

pub new-IsSound :
    {C : Type 0} (scids : ℕ → List ℕ) {queue : SpscRingBuffer PixelWrite}
    {waiting : List PixelWrite} (port : ℕ)
    → Holds queue waiting
    → IsSound {C = C} scids (new queue port)
unfolding new Transport.new get
new-IsSound {C} scids {queue} {waiting} port holds = record {
  steady = record {
    shared = new-IsShared C;
    unused = λ i later. refl;
    quota = record { remaining = λ user. 0; waiting = waiting; last_tick_sec = 0 };
    models = record { cooldowns = new-Represents; queue = holds; clock = refl };
    ready = record {
      sent = length-replicate {A = ℕ} canvas_size 0;
      buffer = length-replicate {A = ℕ} (canvas_size * 2) 0;
    };
  };
  pool = new-IsPool;
  slab = length-replicate {A = ℕ} (pkt_buf_size * io_uring_num_buffers) 0;
}

pub started-IsSound :
    {C : Type 0} (scids : ℕ → List ℕ) (active_index now_sec now_ms : ℕ) {w : WorkerCore C}
    → IsSound scids w
    → IsSound scids (start active_index now_sec now_ms w)
unfolding start
started-IsSound scids active_index now_sec now_ms s = record {
  steady = record {
    shared = s.steady.shared;
    unused = s.steady.unused;
    quota = record (s.steady.quota) { last_tick_sec = now_sec };
    models = record {
      cooldowns = s.steady.models.cooldowns;
      queue = s.steady.models.queue;
      clock = refl;
    };
    ready = record { sent = s.steady.ready.sent; buffer = s.steady.ready.buffer };
  };
  pool = s.pool;
  slab = s.slab;
}

-- A worker that starts on a ring buffer that holds the pixels `waiting` is sound, whatever the clock
-- says and whichever slot is active.
pub start-IsSound :
    {C : Type 0} (scids : ℕ → List ℕ) {queue : SpscRingBuffer PixelWrite}
    {waiting : List PixelWrite} (port active_index now_sec now_ms : ℕ)
    → Holds queue waiting
    → IsSound {C = C} scids (start active_index now_sec now_ms (new queue port))
start-IsSound scids port active_index now_sec now_ms holds =
    started-IsSound scids active_index now_sec now_ms (new-IsSound scids port holds)
