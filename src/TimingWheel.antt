-- ===== src/TimingWheel.antt =====
-- server/src/timing_wheel.rs: one bitset of users for each of the next ticks.
pub mod Evict
pub mod Remaining
pub mod Expiry
use reddit_puzzle_system_des.Base.{
  ℕ, suc, ◌+◌, ◌-◌, ◌%◌, Option, none, some, List, [], ◌∷◌, replicate, get_elem?, set, bit_and,
  bit_not, ◌>>=◌,
}
use reddit_puzzle_system_des.Settings.{timing_wheel_ticks}
use reddit_puzzle_system_des.Cooldown
use reddit_puzzle_system_des.Cooldown.{CooldownArray, set_cooldown}

pub record TimingWheel : Type 0 where
  pub wheel : List CooldownArray
  pub current_tick : ℕ

pub new : TimingWheel
new = record { wheel = replicate timing_wheel_ticks Cooldown.new; current_tick = 0 }

-- The loop of `tick` over the zipped words: `*m &= !*e; *e = 0`, as long as both arrays last.
pub evict : List ℕ → List ℕ → List ℕ × List ℕ
evict [] es = ([], es)
evict (m ∷ ms) [] = (m ∷ ms, [])
evict (m ∷ ms) (e ∷ es) = let (ms', es') = evict ms es in (bit_and m (bit_not 64 e) ∷ ms', 0 ∷ es')

-- `tick` mutates the wheel and `master`; `none` is an index out of range.
pub tick : TimingWheel → CooldownArray → Option (TimingWheel × CooldownArray)
tick w master = do
  let current_tick = (w.current_tick + 1) % timing_wheel_ticks
  expiring_users ← get_elem? w.wheel current_tick
  let words = evict master.bits expiring_users.bits
  some (
    record {
      wheel = set w.wheel current_tick (record expiring_users { bits = words.1 });
      current_tick = current_tick;
    },
    record master { bits = words.0 },
  )

pub add_cooldown : TimingWheel → ℕ → Option TimingWheel
add_cooldown w local_id = do
  bucket ← get_elem? w.wheel w.current_tick
  bucket' ← set_cooldown bucket local_id
  some (record w { wheel = set w.wheel w.current_tick bucket' })
