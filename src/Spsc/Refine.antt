-- ===== src/Spsc/Refine.antt =====
-- The ring buffer of server/src/spsc.rs holds a bounded FIFO queue, across the wrap of its counters.
use reddit_puzzle_system_des.Base.{
  ℕ, zero, suc, ◌+◌, ◌-◌, ◌%◌, ◌^◌, ◌≤◌, ◌<◌, leb, ◌==◌, if◌then◌else◌, Option, none, some, List,
  [], ◌∷◌, ◌++◌, length, length-append, length-set, length-replicate, get_elem?, get_or, set,
  get_or-set, get_or-set_self, bit_and, bit_and_mask, ◌≡◌, ◌∙◌, ap₂, ◌⊎◌, inl, inr, true, false,
  Bool-cases, ap, refl, arith,
}
use reddit_puzzle_system_des.Settings.{spsc_capacity}
use reddit_puzzle_system_des.Spsc.{
  SpscRingBuffer, Pushed, ok, err, Popped, empty, value, wrapping_sub, wrapping_add, read_slot,
  push, pop, new,
}

pub mask_lem : (n : ℕ) → bit_and n (spsc_capacity - 1) ≡ n % spsc_capacity
mask_lem n = bit_and_mask 16 n

module _ {ℓ} {A : Type ℓ} where
  -- The buffer holds the queue `q`, oldest first.
  pub record Holds (r : SpscRingBuffer A) (q : List A) : Type ℓ where
    pub tail_fits : r.tail < 2 ^ 64
    pub head_fits : r.head < 2 ^ 64
    pub slots : length r.buffer ≡ spsc_capacity
    pub count : wrapping_sub r.tail r.head ≡ length q
    pub room : length q ≤ spsc_capacity
    pub stored :
        (i : ℕ) (v : A)
        → get_elem? q i ≡ some v
        → get_or r.buffer ((r.head + i) % spsc_capacity) none ≡ some v

  pub get_elem?-lt : (q : List A) (i : ℕ) {v : A} → get_elem? q i ≡ some v → i < length q
  get_elem?-lt [] i e = absurd (ground arith)
  get_elem?-lt (x ∷ q) zero e = omega arith
  get_elem?-lt (x ∷ q) (suc i) e = omega (arith, get_elem?-lt q i e)

  -- An entry of the longer queue is the new one at the end, or an old one.
  pub get_elem?-snoc :
      (q : List A) (x : A) (i : ℕ)
      → get_elem? (q ++ x ∷ []) i ≡ (if i == length q then some x else get_elem? q i)
  get_elem?-snoc [] x zero = refl
  get_elem?-snoc [] x (suc i) = ground arith
  get_elem?-snoc (y ∷ q) x zero = ground arith
  get_elem?-snoc (y ∷ q) x (suc i) = ground (arith, get_elem?-snoc q x i)

  pub length-snoc : (q : List A) (x : A) → length (q ++ x ∷ []) ≡ length q + 1
  length-snoc q x = length-append q (x ∷ [])

  pub new-Holds : Holds (new A) []
  unfolding new
  new-Holds = record {
    tail_fits = omega arith;
    head_fits = omega arith;
    slots = length-replicate spsc_capacity none;
    count = refl;
    room = omega arith;
    stored = λ i v e. absurd (ground arith);
  }

  module _ {r : SpscRingBuffer A} {q : List A} (h : Holds r q) where
    -- A write to the slot at the tail leaves the queue as it is, while there is room.
    pub write_slot-Holds :
        (x : Option A)
        → length q < spsc_capacity
        → Holds (record r { buffer = set r.buffer (r.tail % spsc_capacity) x }) q
    write_slot-Holds x free = record {
      tail_fits = h.tail_fits;
      head_fits = h.head_fits;
      slots = length-set r.buffer _ x ∙ h.slots;
      count = h.count;
      room = h.room;
      stored = λ i v e. ground (
        arith,
        get_or-set r.buffer (r.tail % spsc_capacity) ((r.head + i) % spsc_capacity) x none,
        h.slots,
        h.stored i v e,
        get_elem?-lt q i e,
        h.count,
        h.tail_fits,
        h.head_fits,
      );
    }

    -- Moving the tail over a written slot appends its value.
    pub advance_tail-Holds :
        (x : A)
        → length q < spsc_capacity
        → get_or r.buffer (r.tail % spsc_capacity) none ≡ some x
        → Holds (record r { tail = wrapping_add r.tail 1 }) (q ++ x ∷ [])
    advance_tail-Holds x free written = record {
      tail_fits = omega arith;
      head_fits = h.head_fits;
      slots = h.slots;
      count = omega (arith, length-snoc q x, h.count, h.tail_fits, h.head_fits);
      room = omega (arith, length-snoc q x);
      stored = λ i v e.
          ground (arith, get_elem?-snoc q x i, h.stored i v, h.count, h.tail_fits, h.head_fits);
    }

  -- Moving the head drops the oldest value.
  pub advance_head-Holds :
      {r : SpscRingBuffer A} {x : A} {q : List A}
      → Holds r (x ∷ q)
      → Holds (record r { head = wrapping_add r.head 1 }) q
  advance_head-Holds {r} {x} {q} h = record {
    tail_fits = h.tail_fits;
    head_fits = omega arith;
    slots = h.slots;
    count = omega (arith, h.count, h.tail_fits, h.head_fits);
    room = omega (arith, h.room);
    stored = λ i v e. ground (arith, h.stored (suc i) v e, h.head_fits);
  }

  -- The slot at the head holds the oldest value.
  pub oldest :
      {r : SpscRingBuffer A} {x : A} {q : List A}
      → Holds r (x ∷ q)
      → get_or r.buffer (r.head % spsc_capacity) none ≡ some x
  oldest {r} {x} h =
      let here : (r.head + 0) % spsc_capacity ≡ r.head % spsc_capacity = omega arith in
      rw (← here) (h.stored 0 x refl)

  -- What the bounded queue does with a value, and what it gives.
  abbrev pub offer : List A → A → Pushed A × List A
  offer q x = if leb spsc_capacity (length q) then (err x, q) else (ok, q ++ x ∷ [])

  abbrev pub poll : List A → Popped A × List A
  poll [] = (empty, [])
  poll (x ∷ q) = (value x, q)

  -- `push` answers as the bounded queue does, and leaves the buffer holding its queue.
  pub push_refines :
      {r : SpscRingBuffer A} {q : List A} (x : A)
      → Holds r q
      → ((push r x).0 ≡ (offer q x).0) × Holds (push r x).1 (offer q x).1
  unfolding push
  push_refines {r} {q} x h = elim (Bool-cases (leb spsc_capacity (length q))) [
    | inl full ↦ rw (h.count, full) (refl, h)
    | inr free ↦
        rw (h.count, free, mask_lem r.tail)
          (
            refl,
            advance_tail-Holds (write_slot-Holds h (some x) (ground arith)) x (ground arith) (
                get_or-set_self r.buffer (r.tail % spsc_capacity) (some x) none
                  (omega (arith, h.slots))),
          )
  ]

  -- `pop` too: in particular it never reads a slot that was not written.
  pub pop_refines :
      {r : SpscRingBuffer A} (q : List A)
      → Holds r q
      → ((pop r).0 ≡ (poll q).0) × Holds (pop r).1 (poll q).1
  unfolding pop
  pop_refines {r} [] h = rw same (refl, h)
    where
      same : (r.head == r.tail) ≡ true
      same = ground (arith, h.count, h.tail_fits, h.head_fits)
  pop_refines {r} (x ∷ q) h =
      rw (other, mask_lem r.head) (ap read_slot (oldest h), advance_head-Holds h)
    where
      other : (r.head == r.tail) ≡ false
      other = ground (arith, h.count, h.tail_fits, h.head_fits)

-- Calls of either end, and what they return.
pub data Op {ℓ} (A : Type ℓ) : Type ℓ where
  put : A → Op A
  get : Op A

module _ {ℓ} {A : Type ℓ} where
  pub run : SpscRingBuffer A → List (Op A) → List (Pushed A ⊎ Popped A)
  run r [] = []
  run r (put x ∷ ops) = let (s, r') = push r x in inl s ∷ run r' ops
  run r (get ∷ ops) = let (s, r') = pop r in inr s ∷ run r' ops

  abbrev pub run_queue : List A → List (Op A) → List (Pushed A ⊎ Popped A)
  run_queue q [] = []
  run_queue q (put x ∷ ops) = let (s, q') = offer q x in inl s ∷ run_queue q' ops
  run_queue q (get ∷ ops) = let (s, q') = poll q in inr s ∷ run_queue q' ops

  run_refines :
      (ops : List (Op A)) {r : SpscRingBuffer A} {q : List A}
      → Holds r q
      → run r ops ≡ run_queue q ops
  unfolding run
  run_refines [] h = refl
  run_refines (put x ∷ ops) h =
      let (s, h') = push_refines x h in ap₂ ◌∷◌ (ap inl s) (run_refines ops h')
  run_refines (get ∷ ops) {q = q} h =
      let (s, h') = pop_refines q h in ap₂ ◌∷◌ (ap inr s) (run_refines ops h')

  -- Every sequence of `push` and `pop` calls on a new buffer returns what a FIFO queue of at most
  -- `SPSC_CAPACITY` values returns.
  pub run-new : (ops : List (Op A)) → run (new A) ops ≡ run_queue [] ops
  run-new ops = run_refines ops new-Holds
