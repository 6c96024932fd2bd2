-- ===== src/Master.antt =====
-- server/src/master.rs: the thread that drains the workers' queues onto the canvas and publishes
-- snapshots of it. One call of `iteration` is one round of the loop of `run`; `now` is what the clock
-- says in that round.
pub mod Drain
pub mod Publish
pub mod Snapshot
pub mod Round
pub mod Waiting
pub mod Service
use reddit_puzzle_system_des.Base.{
  ℕ, zero, suc, ◌+◌, leb, if◌then◌else◌, Option, none, some, List, [], ◌∷◌, get_elem?, store,
  bit_and, ◌>>=◌,
}
use reddit_puzzle_system_des.Settings.{
  broadcast_interval_ms, canvas_buffer_pool_mask, master_batch_drain,
}
use reddit_puzzle_system_des.Spsc.{
  SpscRingBuffer, Popped, empty, value, undefined, pop, wrapping_sub,
}
use reddit_puzzle_system_des.Canvas.{
  Canvas, CanvasBuffer, CompressedBuffer, Statics, set_pixel, snapshot_to_pool,
}
use reddit_puzzle_system_des.Rle.{Cpu, rle_compress}

pub record PixelWrite : Type 0 where
  pub x : ℕ
  pub y : ℕ
  pub color : ℕ

-- `MasterCore` with the statics that it owns and the local of `run`.
pub record MasterCore : Type 0 where
  pub workers : List (SpscRingBuffer PixelWrite)
  pub canvas : Canvas
  pub statics : Statics
  pub last_broadcast_time : ℕ

-- `for _ in 0..n` over one queue. `none` is the read of a slot that was never written.
pub drain : ℕ → SpscRingBuffer PixelWrite → Canvas → Option (SpscRingBuffer PixelWrite × Canvas)
drain zero queue canvas = some (queue, canvas)
drain (suc n) queue canvas =
    let (popped, queue') = pop queue in
    elim popped [
      | value p ↦ drain n queue' (set_pixel canvas p.x p.y p.color)
      | empty ↦ some (queue', canvas)
      | undefined ↦ none
    ]

pub drain_all :
    List (SpscRingBuffer PixelWrite) → Canvas → Option (List (SpscRingBuffer PixelWrite) × Canvas)
drain_all [] canvas = some ([], canvas)
drain_all (queue ∷ queues) canvas = do
  first ← drain master_batch_drain queue canvas
  rest ← drain_all queues first.1
  some (first.0 ∷ rest.0, rest.1)

-- The body of the broadcast branch; `none` is a panic.
pub publish : Cpu → Canvas → Statics → Option Statics
publish cpu canvas s = do
  let next_active = bit_and (s.active_index + 1) canvas_buffer_pool_mask
  pool ← snapshot_to_pool canvas next_active s.buffer_pool
  src ← get_elem? pool next_active
  dst ← get_elem? s.compressed_buffer_pool next_active
  written ← rle_compress cpu src.bytes dst.bytes
  compressed ← store s.compressed_buffer_pool next_active (record { bytes = written.0 })
  lens ← store s.compressed_lens next_active written.1
  some (record {
    buffer_pool = pool;
    compressed_buffer_pool = compressed;
    compressed_lens = lens;
    active_index = next_active;
  })

-- The test of the clock, behind the drains.
pub broadcast_if_due : Cpu → ℕ → MasterCore → Option MasterCore
broadcast_if_due cpu now m =
    if leb broadcast_interval_ms (wrapping_sub now m.last_broadcast_time)
    then (do
      statics ← publish cpu m.canvas m.statics
      some (record m { statics = statics; last_broadcast_time = now }))
    else some m

pub iteration : Cpu → ℕ → MasterCore → Option MasterCore
iteration cpu now m = do
  drained ← drain_all m.workers m.canvas
  broadcast_if_due cpu now (record m { workers = drained.0; canvas = drained.1 })
