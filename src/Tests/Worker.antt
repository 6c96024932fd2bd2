-- ===== src/Tests/Worker.antt =====
-- Admission at small inputs.
use reddit_puzzle_system_des.Base.{List, [], ◌∷◌, some, All, ◌≡◌, refl, arith}
use reddit_puzzle_system_des.Cooldown
use reddit_puzzle_system_des.TimingWheel
use reddit_puzzle_system_des.TimingWheel.Remaining.{new-Represents}
use reddit_puzzle_system_des.Spsc
use reddit_puzzle_system_des.Spsc.Refine.{new-Holds}
use reddit_puzzle_system_des.Master.{PixelWrite}
use reddit_puzzle_system_des.Transport.{PixelDatagram}
use reddit_puzzle_system_des.Worker.{Admitter, Event, packet, turn, collect, handle_all}
use reddit_puzzle_system_des.Worker.Admission.{
  Quota, Models, IsKnown, allow_all, handle_all_lem, one_pixel_per_cooldown,
}

abbrev fresh : Admitter
fresh = record {
  master_queue = Spsc.new PixelWrite;
  cooldown_master = Cooldown.new;
  timing_wheel = TimingWheel.new;
  last_tick_sec = 1000;
}

abbrev nobody_waits : Quota
nobody_waits = record { remaining = λ user. 0; waiting = []; last_tick_sec = 1000 }

fresh-Models : Models fresh nobody_waits
fresh-Models = record { cooldowns = new-Represents; queue = new-Holds; clock = refl }

abbrev dot : PixelDatagram
dot = record { x = 3; y = 4; color = 9 }

abbrev day : List Event
day = packet 7 (dot ∷ dot ∷ []) ∷ turn 1001 ∷ packet 8 (dot ∷ []) ∷ collect ∷ turn 1001 ∷ []

day-IsKnown : All IsKnown day
day-IsKnown = (omega arith, (tt, (omega arith, (tt, (tt, tt)))))

handle_all_lem_example :
    (a' : Admitter) × (handle_all day fresh ≡ some a') × Models a' (allow_all day nobody_waits)
handle_all_lem_example = handle_all_lem day fresh-Models day-IsKnown

abbrev later : Admitter
later = (handle_all_lem day fresh-Models day-IsKnown).0

later_clock : later.last_tick_sec ≡ 1001
unfolding allow_all
later_clock = (handle_all_lem day fresh-Models day-IsKnown).2.clock

one_pixel_per_cooldown_example : handle_all (packet 7 (dot ∷ []) ∷ []) later ≡ some later
one_pixel_per_cooldown_example =
    one_pixel_per_cooldown 7 dot (dot ∷ [])
      (turn 1001 ∷ packet 8 (dot ∷ []) ∷ collect ∷ turn 1001 ∷ []) (dot ∷ []) fresh-Models
      (omega arith) (tt, (omega arith, (tt, (tt, tt)))) refl
      (handle_all_lem day fresh-Models day-IsKnown).1 (omega (arith, later_clock))
