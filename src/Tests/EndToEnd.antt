-- ===== src/Tests/EndToEnd.antt =====
-- A pixel from an idle worker to the canvas, past another worker.
use reddit_puzzle_system_des.Base.{some, List, [], ◌∷◌, ◌++◌, ◌≡◌, refl, arith}
use reddit_puzzle_system_des.Cooldown
use reddit_puzzle_system_des.TimingWheel
use reddit_puzzle_system_des.TimingWheel.Remaining.{new-Represents}
use reddit_puzzle_system_des.Spsc
use reddit_puzzle_system_des.Spsc.Refine.{new-Holds}
use reddit_puzzle_system_des.Rle.{avx2}
use reddit_puzzle_system_des.Canvas
use reddit_puzzle_system_des.Canvas.{initial_statics}
use reddit_puzzle_system_des.Canvas.Pixels.{new-IsWhole}
use reddit_puzzle_system_des.Transport.{PixelDatagram}
use reddit_puzzle_system_des.Worker.{Admitter, pixel_write, admit}
use reddit_puzzle_system_des.Worker.Admission.{Quota, Models}
use reddit_puzzle_system_des.Master.{PixelWrite, MasterCore}
use reddit_puzzle_system_des.Master.Publish.{initial_statics-IsValid}
use reddit_puzzle_system_des.Master.Drain.{apply_writes}
use reddit_puzzle_system_des.Master.Waiting.{Occurs}
use reddit_puzzle_system_des.Master.Service
use reddit_puzzle_system_des.Master.Service.{write, round, run, served}
use reddit_puzzle_system_des.EndToEnd.{passed, pixel_served}

abbrev idle : Admitter
idle = record {
  master_queue = Spsc.new PixelWrite;
  cooldown_master = Cooldown.new;
  timing_wheel = TimingWheel.new;
  last_tick_sec = 50;
}

abbrev nobody : Quota
nobody = record { remaining = λ user. 0; waiting = []; last_tick_sec = 50 }

idle-Models : Models idle nobody
idle-Models = record { cooldowns = new-Represents; queue = new-Holds; clock = refl }

abbrev dot : PixelDatagram
dot = record { x = 8; y = 9; color = 1 }

abbrev core : MasterCore
core = record {
  workers = [];
  canvas = Canvas.new;
  statics = initial_statics;
  last_broadcast_time = 0;
}

abbrev events : List Service.Event
events = write 0 (pixel_write dot) ∷ round 120 ∷ write 1 (pixel_write dot) ∷ []

pixel_served_example :
    (a' : Admitter) × (m' : MasterCore) × (admit 77 (dot ∷ []) idle ≡ some a')
    × (run avx2 events
          (record core { workers = (Spsc.new PixelWrite ∷ []) ++ a'.master_queue ∷ [] })
        ≡ some m')
    × (m'.canvas ≡ apply_writes (served events (([] ∷ []) ++ passed nobody dot ∷ [])) Canvas.new)
    × Occurs (pixel_write dot) (served events (([] ∷ []) ++ passed nobody dot ∷ []))
pixel_served_example =
    pixel_served avx2 events 77 dot [] core (Spsc.new PixelWrite ∷ []) [] ([] ∷ []) [] idle-Models
      (omega arith) refl (omega arith) (new-Holds, tt) tt new-IsWhole initial_statics-IsValid
      (omega arith)
