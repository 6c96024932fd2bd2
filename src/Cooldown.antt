-- ===== src/Cooldown.antt =====
-- server/src/cooldown.rs: the bitset of the users of one worker that are on cooldown.
pub mod Laws
use reddit_puzzle_system_des.Base.{
  ℕ, ◌/◌, ◌^◌, ◌==◌, not, Bool, Option, none, some, List, replicate, get_elem?, set, bit_and,
  bit_or, ◌>>=◌,
}
use reddit_puzzle_system_des.Settings.{cooldown_array_len}

-- The array `bits` holds `u64` words.
pub record CooldownArray : Type 0 where
  pub bits : List ℕ

pub new : CooldownArray
new = record { bits = replicate cooldown_array_len 0 }

-- `none` is the panic of an index out of range.
pub is_on_cooldown : CooldownArray → ℕ → Option Bool
is_on_cooldown arr local_id = do
  let chunk_idx = local_id / 2 ^ 6
  let bit_mask = 2 ^ bit_and local_id 63
  chunk ← get_elem? arr.bits chunk_idx
  some (not (bit_and chunk bit_mask == 0))

pub set_cooldown : CooldownArray → ℕ → Option CooldownArray
set_cooldown arr local_id = do
  let chunk_idx = local_id / 2 ^ 6
  let bit_mask = 2 ^ bit_and local_id 63
  chunk ← get_elem? arr.bits chunk_idx
  some (record arr { bits = set arr.bits chunk_idx (bit_or chunk bit_mask) })
