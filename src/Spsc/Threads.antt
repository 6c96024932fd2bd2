-- ===== src/Spsc/Threads.antt =====
-- server/src/spsc.rs with its two threads: one worker that pushes and one master that pops, their
-- accesses to the shared buffer interleaved in any order. One step is one access. The acquire and
-- release accesses are taken as sequentially consistent.
pub mod Invariant
pub mod Safety
use reddit_puzzle_system_des.Base.{
  ℕ, zero, ◌-◌, ◌≤◌, ◌<◌, Option, none, some, List, [], ◌∷◌, ◌++◌, get_or, set, bit_and, ◌≡◌, ◌≢◌,
}
use reddit_puzzle_system_des.Settings.{spsc_capacity}
use reddit_puzzle_system_des.Spsc.{SpscRingBuffer, new, wrapping_sub, wrapping_add}

-- Where the worker stands in `push`, with its live locals.
pub data Producer {ℓ} (A : Type ℓ) : Type ℓ where
  idle : Producer A
  loaded : (current_tail : ℕ) (v : A) → Producer A  -- before the load of the head
  granted : (current_tail : ℕ) (v : A) → Producer A  -- before the write of the slot
  written : (current_tail : ℕ) (v : A) → Producer A  -- before the store of the tail

-- Where the master stands in `pop`.
pub data Consumer {ℓ} (A : Type ℓ) : Type ℓ where
  idle : Consumer A
  loaded : (current_head : ℕ) → Consumer A  -- before the load of the tail
  granted : (current_head : ℕ) → Consumer A  -- before the read of the slot
  holding : (current_head : ℕ) (slot : Option A) → Consumer A  -- before the store of the head

-- `pushed` and `popped` record the values of the completed calls, oldest first.
pub record System {ℓ} (A : Type ℓ) : Type ℓ where
  pub ring : SpscRingBuffer A
  pub worker : Producer A
  pub master : Consumer A
  pub pushed : List A
  pub popped : List (Option A)

abbrev pub slot_of : ℕ → ℕ
slot_of counter = bit_and counter (spsc_capacity - 1)

module _ {ℓ} {A : Type ℓ} where
  pub data Step (s : System A) : System A → Type ℓ where
    load_tail :
        (v : A)
        → s.worker ≡ Producer.idle
        → Step s (record s { worker = Producer.loaded s.ring.tail v })
    refuse :
        (t : ℕ) (v : A)
        → s.worker ≡ Producer.loaded t v
        → spsc_capacity ≤ wrapping_sub t s.ring.head
        → Step s (record s { worker = Producer.idle })
    grant_write :
        (t : ℕ) (v : A)
        → s.worker ≡ Producer.loaded t v
        → wrapping_sub t s.ring.head < spsc_capacity
        → Step s (record s { worker = Producer.granted t v })
    write :
        (t : ℕ) (v : A)
        → s.worker ≡ Producer.granted t v
        → Step s (record s {
          ring = record (s.ring) { buffer = set s.ring.buffer (slot_of t) (some v) };
          worker = Producer.written t v;
        })
    store_tail :
        (t : ℕ) (v : A)
        → s.worker ≡ Producer.written t v
        → Step s (record s {
          ring = record (s.ring) { tail = wrapping_add t 1 };
          worker = Producer.idle;
          pushed = s.pushed ++ v ∷ [];
        })
    load_head :
        s.master ≡ Consumer.idle → Step s (record s { master = Consumer.loaded s.ring.head })
    find_empty :
        (h : ℕ)
        → s.master ≡ Consumer.loaded h
        → h ≡ s.ring.tail
        → Step s (record s { master = Consumer.idle })
    grant_read :
        (h : ℕ)
        → s.master ≡ Consumer.loaded h
        → h ≢ s.ring.tail
        → Step s (record s { master = Consumer.granted h })
    read :
        (h : ℕ)
        → s.master ≡ Consumer.granted h
        → Step s (record s { master = Consumer.holding h (get_or s.ring.buffer (slot_of h) none) })
    store_head :
        (h : ℕ) (slot : Option A)
        → s.master ≡ Consumer.holding h slot
        → Step s (record s {
          ring = record (s.ring) { head = wrapping_add h 1 };
          master = Consumer.idle;
          popped = s.popped ++ slot ∷ [];
        })

unfoldable pub init {ℓ} : (A : Type ℓ) → System A
init A = record {
  ring = new A;
  worker = Producer.idle;
  master = Consumer.idle;
  pushed = [];
  popped = [];
}

pub data Reach {ℓ} {A : Type ℓ} : System A → Type ℓ where
  start : Reach (init A)
  later : {s t : System A} → Reach s → Step s t → Reach t
