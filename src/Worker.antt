-- ===== src/Worker.antt =====
-- The part of server/src/worker.rs that decides which pixels reach the master: `handle_tick` and the
-- loop over the pixels in `handle_incoming_cqe`. `none` is a panic.
pub mod Admission
use reddit_puzzle_system_des.Base.{
  ℕ, ltb, if◌then◌else◌, Option, none, some, List, [], ◌∷◌, true, false, ◌>>=◌,
}
use reddit_puzzle_system_des.Cooldown.{CooldownArray, is_on_cooldown, set_cooldown}
use reddit_puzzle_system_des.TimingWheel.{TimingWheel, tick, add_cooldown}
use reddit_puzzle_system_des.Spsc.{SpscRingBuffer, push, pop}
use reddit_puzzle_system_des.Master.{PixelWrite}
use reddit_puzzle_system_des.Transport.{PixelDatagram}

-- The fields of `WorkerCore` that admission uses, and the local `last_tick_sec` of `run_linux`.
pub record Admitter : Type 0 where
  pub master_queue : SpscRingBuffer PixelWrite
  pub cooldown_master : CooldownArray
  pub timing_wheel : TimingWheel
  pub last_tick_sec : ℕ

-- `now_sec` is what the clock says.
unfoldable pub handle_tick : ℕ → Admitter → Option Admitter
handle_tick now_sec a =
    if ltb a.last_tick_sec now_sec
    then (do
      s ← tick a.timing_wheel a.cooldown_master
      some (record a { timing_wheel = s.0; cooldown_master = s.1; last_tick_sec = now_sec }))
    else some a

abbrev pub pixel_write : PixelDatagram → PixelWrite
pixel_write p = record { x = p.x; y = p.y; color = p.color }

-- The body of the loop over the pixels; a full queue drops the pixel.
unfoldable pub admit_pixel : ℕ → PixelDatagram → Admitter → Option Admitter
admit_pixel user_id p a = do
  waits ← is_on_cooldown a.cooldown_master user_id
  if waits then some a else (do
    cooldown_master ← set_cooldown a.cooldown_master user_id
    timing_wheel ← add_cooldown a.timing_wheel user_id
    some (record a {
      cooldown_master = cooldown_master;
      timing_wheel = timing_wheel;
      master_queue = (push a.master_queue (pixel_write p)).1;
    }))

unfoldable pub admit : ℕ → List PixelDatagram → Admitter → Option Admitter
admit user_id [] a = some a
admit user_id (p ∷ pixels) a = do a' ← admit_pixel user_id p a; admit user_id pixels a'

-- What happens to the state, in any order: the datagrams of one packet, a turn of the loop of
-- `run_linux` by its clock, and a `pop` by the master.
pub data Event : Type 0 where
  packet : (user_id : ℕ) (pixels : List PixelDatagram) → Event
  turn : (now_sec : ℕ) → Event
  collect : Event

pub handle : Event → Admitter → Option Admitter
handle (packet user_id pixels) a = admit user_id pixels a
handle (turn now_sec) a = handle_tick now_sec a
handle collect a = some (record a { master_queue = (pop a.master_queue).1 })

pub handle_all : List Event → Admitter → Option Admitter
handle_all [] a = some a
handle_all (e ∷ es) a = do a' ← handle e a; handle_all es a'
