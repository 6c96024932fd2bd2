-- ===== src/Tests/Master.antt =====
-- The master's round at a small input.
use reddit_puzzle_system_des.Base.{ℕ, ◌+◌, ◌%◌, some, [], ◌∷◌, ◌≡◌, ◌≢◌, arith}
use reddit_puzzle_system_des.Settings.{canvas_buffer_pool_size}
use reddit_puzzle_system_des.Canvas
use reddit_puzzle_system_des.Canvas.{Canvas, Statics, initial_statics}
use reddit_puzzle_system_des.Canvas.Pixels.{new-IsWhole}
use reddit_puzzle_system_des.Rle.{avx2, sse2}
use reddit_puzzle_system_des.Spsc.{SpscRingBuffer, push}
use reddit_puzzle_system_des.Spsc
use reddit_puzzle_system_des.Spsc.Refine.{Holds, new-Holds, push_refines}
use reddit_puzzle_system_des.Master.{PixelWrite, MasterCore, publish, iteration}
use reddit_puzzle_system_des.Master.Drain.{apply_writes}
use reddit_puzzle_system_des.Master.Publish.{IsValid, initial_statics-IsValid, SameSlot}
use reddit_puzzle_system_des.Master.Snapshot.{Shows, publish_lem, publish_each, active_slot_stable}
use reddit_puzzle_system_des.Master.Round.{Ready, AfterTest, iteration_lem}

abbrev red_dot : PixelWrite
red_dot = record { x = 3; y = 4; color = 9 }

abbrev queue : SpscRingBuffer PixelWrite
queue = (push (Spsc.new PixelWrite) red_dot).1

queue-Holds : Holds queue (red_dot ∷ [])
queue-Holds = (push_refines red_dot new-Holds).1

abbrev core : MasterCore
core = record {
  workers = queue ∷ Spsc.new PixelWrite ∷ [];
  canvas = Canvas.new;
  statics = initial_statics;
  last_broadcast_time = 1000;
}

core-Ready : Ready core ((red_dot ∷ []) ∷ [] ∷ [])
core-Ready = record {
  queues = (queue-Holds, (new-Holds, tt));
  whole = new-IsWhole;
  statics_valid = initial_statics-IsValid;
}

iteration_lem_example :
    (m' : MasterCore) × (iteration avx2 1100 core ≡ some m')
    × Ready m' ([] ∷ [] ∷ [])
    × (m'.canvas ≡ apply_writes (red_dot ∷ []) Canvas.new)
    × AfterTest 1100 core m'
iteration_lem_example = iteration_lem avx2 1100 ((red_dot ∷ []) ∷ [] ∷ []) core-Ready

publish_lem_example :
    (s' : Statics) × (publish sse2 Canvas.new initial_statics ≡ some s')
    × IsValid s'
    × (s'.active_index ≡ (initial_statics.active_index + 1) % canvas_buffer_pool_size)
    × (s'.active_index ≢ initial_statics.active_index)
    × Shows Canvas.new s'
    × ((i : ℕ) → s'.active_index ≢ i → SameSlot i initial_statics s')
publish_lem_example = publish_lem sse2 Canvas.new initial_statics-IsValid new-IsWhole

active_slot_stable_example :
    (s' : Statics) × (publish_each avx2 (Canvas.new ∷ Canvas.new ∷ []) initial_statics ≡ some s')
    × SameSlot initial_statics.active_index initial_statics s'
active_slot_stable_example =
    active_slot_stable avx2 (Canvas.new ∷ Canvas.new ∷ []) initial_statics-IsValid
      (new-IsWhole, (new-IsWhole, tt)) (omega arith)
