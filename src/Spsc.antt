-- ===== src/Spsc.antt =====
-- server/src/spsc.rs: the ring buffer between one worker and the master.
-- `usize` has 64 bits. A slot is `none` until it is written (`MaybeUninit`). The array has
-- `SPSC_CAPACITY` slots and every index is masked by `SPSC_CAPACITY - 1`, so none is out of range.
pub mod Refine
pub mod Threads
use reddit_puzzle_system_des.Base.{
  ℕ, ◌+◌, ◌-◌, ◌%◌, ◌^◌, leb, ◌==◌, if◌then◌else◌, Option, none, some, List, replicate, get_or, set,
  bit_and,
}
use reddit_puzzle_system_des.Settings.{spsc_capacity}

pub record SpscRingBuffer {ℓ} (A : Type ℓ) : Type ℓ where
  pub tail : ℕ
  pub head : ℕ
  pub buffer : List (Option A)

-- `Result<(), T>`: a refused value is handed back.
pub data Pushed {ℓ} (A : Type ℓ) : Type ℓ where
  ok : Pushed A
  err : A → Pushed A

-- `Option<T>`, or the read of a slot that was never written, which is undefined behaviour.
pub data Popped {ℓ} (A : Type ℓ) : Type ℓ where
  empty : Popped A
  value : A → Popped A
  undefined : Popped A

abbrev pub wrapping_add : ℕ → ℕ → ℕ
wrapping_add a b = (a + b) % 2 ^ 64

abbrev pub wrapping_sub : ℕ → ℕ → ℕ
wrapping_sub a b = (a + 2 ^ 64 - b) % 2 ^ 64

abbrev pub read_slot {ℓ} : {A : Type ℓ} → Option A → Popped A
read_slot none = undefined
read_slot (some v) = value v

module _ {ℓ} {A : Type ℓ} where
  pub push : SpscRingBuffer A → A → Pushed A × SpscRingBuffer A
  push r v =
      let current_tail = r.tail in
      let next_tail = wrapping_add current_tail 1 in
      let index = bit_and current_tail (spsc_capacity - 1) in
      if leb spsc_capacity (wrapping_sub current_tail r.head)
      then (err v, r)
      else (ok, record r { buffer = set r.buffer index (some v); tail = next_tail })

  pub pop : SpscRingBuffer A → Popped A × SpscRingBuffer A
  pop r =
      let current_head = r.head in
      let index = bit_and current_head (spsc_capacity - 1) in
      if current_head == r.tail
      then (empty, r)
      else (read_slot (get_or r.buffer index none), record r { head = wrapping_add current_head 1 })

unfoldable pub new {ℓ} : (A : Type ℓ) → SpscRingBuffer A
new A = record { tail = 0; head = 0; buffer = replicate spsc_capacity none }
