-- ===== src/Tests/Service.antt =====
-- The master's loop between two pushes.
use reddit_puzzle_system_des.Base.{some, [], ◌∷◌, ◌≡◌, refl, arith}
use reddit_puzzle_system_des.Canvas
use reddit_puzzle_system_des.Canvas.{initial_statics}
use reddit_puzzle_system_des.Canvas.Pixels.{new-IsWhole}
use reddit_puzzle_system_des.Rle.{avx2}
use reddit_puzzle_system_des.Spsc.{SpscRingBuffer, push}
use reddit_puzzle_system_des.Spsc
use reddit_puzzle_system_des.Spsc.Refine.{Holds, new-Holds, push_refines}
use reddit_puzzle_system_des.Master.{PixelWrite, MasterCore}
use reddit_puzzle_system_des.Master.Drain.{apply_writes}
use reddit_puzzle_system_des.Master.Publish.{initial_statics-IsValid}
use reddit_puzzle_system_des.Master.Round.{Ready}
use reddit_puzzle_system_des.Master.Waiting.{Occurs}
use reddit_puzzle_system_des.Master.Service.{write, round, run, served, write_served}

abbrev red : PixelWrite
red = record { x = 3; y = 4; color = 9 }

abbrev blue : PixelWrite
blue = record { x = 3; y = 4; color = 2 }

-- Red, then blue wait in the second queue.
abbrev waiting : SpscRingBuffer PixelWrite
waiting = (push (push (Spsc.new PixelWrite) red).1 blue).1

waiting-Holds : Holds waiting (red ∷ blue ∷ [])
waiting-Holds = (push_refines blue (push_refines red new-Holds).1).1

abbrev core : MasterCore
core = record {
  workers = Spsc.new PixelWrite ∷ waiting ∷ [];
  canvas = Canvas.new;
  statics = initial_statics;
  last_broadcast_time = 1_000;
}

core-Ready : Ready core ([] ∷ (red ∷ blue ∷ []) ∷ [])
core-Ready = record {
  queues = (new-Holds, (waiting-Holds, tt));
  whole = new-IsWhole;
  statics_valid = initial_statics-IsValid;
}

write_served_example :
    (m' : MasterCore) × (run avx2 (write 0 red ∷ round 1_050 ∷ write 1 red ∷ []) core ≡ some m')
    × (m'.canvas
        ≡ apply_writes
            (served (write 0 red ∷ round 1_050 ∷ write 1 red ∷ []) ([] ∷ (red ∷ blue ∷ []) ∷ []))
            Canvas.new)
    × Occurs blue
        (served (write 0 red ∷ round 1_050 ∷ write 1 red ∷ []) ([] ∷ (red ∷ blue ∷ []) ∷ []))
write_served_example =
    write_served avx2 (write 0 red ∷ round 1_050 ∷ write 1 red ∷ []) 1 1 blue core-Ready refl
      (omega arith)
