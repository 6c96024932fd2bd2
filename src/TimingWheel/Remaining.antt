-- ===== src/TimingWheel/Remaining.antt =====
-- The wheel of server/src/timing_wheel.rs and the master bitset together stand for one number for
-- each user: the ticks that are left of the user's cooldown.
use reddit_puzzle_system_des.Base.{
  ℕ, ◌+◌, ◌-◌, ◌%◌, ◌≤◌, ◌<◌, ltb, ◌==◌, if◌then◌else◌, if_both, some, length, length-set,
  length-replicate, get_or-replicate, get_or, set, get_or-set, get_elem?-eq-get_or, ◌≡◌, ◌∙◌, arith,
}
use reddit_puzzle_system_des.Settings.{timing_wheel_ticks, max_connections_per_worker}
use reddit_puzzle_system_des.Cooldown
use reddit_puzzle_system_des.Cooldown.{CooldownArray, set_cooldown, is_on_cooldown}
use reddit_puzzle_system_des.Cooldown.Laws.{
  IsValid, has, mark, has-new, new-IsValid, mark-IsValid, has-mark, set_cooldown-eq-mark,
  is_on_cooldown_lem,
}
use reddit_puzzle_system_des.TimingWheel.{TimingWheel, new, tick, add_cooldown}
use reddit_puzzle_system_des.TimingWheel.Evict.{kept, wiped, kept-IsValid, wiped-IsValid, has-evict}

-- The specification: 0 is a user that may place a pixel.
abbrev pub Remaining : Type 0
Remaining = ℕ → ℕ

abbrev pub elapse : Remaining → Remaining
elapse rem id = rem id - 1

abbrev pub start : Remaining → ℕ → Remaining
start rem user id = if user == id then timing_wheel_ticks else rem id

abbrev pub bucket : TimingWheel → ℕ → CooldownArray
bucket w i = get_or w.wheel i Cooldown.new

-- A user with `r` ticks left stands in the bucket that the wheel reaches in `r` ticks, and in no other.
pub record Represents (w : TimingWheel) (master : CooldownArray) (rem : Remaining) : Type 0 where
  pub master_valid : IsValid master
  pub size : length w.wheel ≡ timing_wheel_ticks
  pub in_range : w.current_tick < timing_wheel_ticks
  pub buckets_valid : (i : ℕ) → i < timing_wheel_ticks → IsValid (bucket w i)
  pub bounded : (id : ℕ) → rem id ≤ timing_wheel_ticks
  pub master_bits :
      (id : ℕ) → id < max_connections_per_worker → has master id ≡ (if rem id == 0 then 0 else 1)
  pub bucket_bits :
      (i id : ℕ)
      → i < timing_wheel_ticks
      → id < max_connections_per_worker
      → has (bucket w i) id ≡ (
          if rem id == 0
          then 0
          else if i == (w.current_tick + rem id) % timing_wheel_ticks
          then 1
          else 0)

-- The wheel after the step, whatever the tick is called.
abbrev ticked : TimingWheel → CooldownArray → TimingWheel
ticked w master =
    let t = (w.current_tick + 1) % timing_wheel_ticks in
    record { wheel = set w.wheel t (wiped master (bucket w t)); current_tick = t }

tick-eq :
    (w : TimingWheel) (master : CooldownArray)
    → length w.wheel ≡ timing_wheel_ticks
    → tick w master
      ≡ some (ticked w master, kept master (bucket w ((w.current_tick + 1) % timing_wheel_ticks)))
unfolding tick
tick-eq w master e = rw (
    get_elem?-eq-get_or w.wheel ((w.current_tick + 1) % timing_wheel_ticks) Cooldown.new
      (omega (arith, e)))

module _ {w : TimingWheel} {master : CooldownArray} {rem : Remaining}
    (r : Represents w master rem) where
  abbrev next : ℕ
  next = (w.current_tick + 1) % timing_wheel_ticks

  next-IsValid : IsValid (bucket w next)
  next-IsValid = r.buckets_valid next (omega arith)

  bucket-ticked :
      (i : ℕ)
      → bucket (ticked w master) i
        ≡ (if next == i then wiped master (bucket w next) else bucket w i)
  bucket-ticked i =
      get_or-set w.wheel next i (wiped master (bucket w next)) Cooldown.new (omega (arith, r.size))

  kept_bits :
      (id : ℕ)
      → id < max_connections_per_worker
      → has (kept master (bucket w next)) id ≡ (if elapse rem id == 0 then 0 else 1)
  kept_bits id h = ground (
    arith,
    (has-evict r.master_valid next-IsValid id h).0,
    r.master_bits id h,
    r.bucket_bits next id (omega arith) h,
    r.bounded id,
    r.in_range,
  )

  ticked_bits :
      (i id : ℕ)
      → i < timing_wheel_ticks
      → id < max_connections_per_worker
      → has (bucket (ticked w master) i) id ≡ (
          if elapse rem id == 0
          then 0
          else if i == (next + elapse rem id) % timing_wheel_ticks
          then 1
          else 0)
  ticked_bits i id p h = rw (bucket-ticked i) (
      ground (
        arith,
        (has-evict r.master_valid next-IsValid id h).1,
        r.bucket_bits i id p h,
        r.bounded id,
        r.in_range,
      ))

  ticked-IsValid : (i : ℕ) → i < timing_wheel_ticks → IsValid (bucket (ticked w master) i)
  ticked-IsValid i p = rw (bucket-ticked i) (
      if_both IsValid (next == i) (wiped-IsValid r.master_valid next-IsValid) (r.buckets_valid i p))

  -- A tick takes one from every user's remaining ticks.
  pub tick-Represents :
      (w' : TimingWheel) × (master' : CooldownArray) × (tick w master ≡ some (w', master'))
      × Represents w' master' (elapse rem)
  tick-Represents = (
    ticked w master,
    kept master (bucket w next),
    tick-eq w master r.size,
    record {
      master_valid = kept-IsValid r.master_valid next-IsValid;
      size = length-set w.wheel next _ ∙ r.size;
      in_range = omega arith;
      buckets_valid = ticked-IsValid;
      bounded = λ id. omega (arith, r.bounded id);
      master_bits = kept_bits;
      bucket_bits = ticked_bits;
    },
  )

-- A fresh wheel beside a fresh bitset: nobody is on cooldown.
pub new-Represents : Represents new Cooldown.new (λ _. 0)
unfolding new
new-Represents = record {
  master_valid = new-IsValid;
  size = length-replicate timing_wheel_ticks Cooldown.new;
  in_range = omega arith;
  buckets_valid = λ i p. rw (get_or-replicate timing_wheel_ticks i Cooldown.new) new-IsValid;
  bounded = λ id. omega arith;
  master_bits = λ id h. has-new id;
  bucket_bits = λ i id p h. rw (get_or-replicate timing_wheel_ticks i Cooldown.new) (has-new id);
}

abbrev marked : TimingWheel → ℕ → TimingWheel
marked w user = record w {
  wheel = set w.wheel w.current_tick (mark (bucket w w.current_tick) user);
}

module _ {w : TimingWheel} {master : CooldownArray} {rem : Remaining} (r : Represents w master rem)
    (user : ℕ) (known : user < max_connections_per_worker) where
  -- `is_on_cooldown` answers whether ticks are left.
  pub is_on_cooldown-Represents : is_on_cooldown master user ≡ some (ltb 0 (rem user))
  is_on_cooldown-Represents =
      ground (arith, is_on_cooldown_lem user r.master_valid known, r.master_bits user known)

  current-IsValid : IsValid (bucket w w.current_tick)
  current-IsValid = r.buckets_valid w.current_tick r.in_range

  add_cooldown-eq : add_cooldown w user ≡ some (marked w user)
  unfolding add_cooldown
  add_cooldown-eq = rw (
    get_elem?-eq-get_or w.wheel w.current_tick Cooldown.new (omega (arith, r.size, r.in_range)),
    set_cooldown-eq-mark user current-IsValid known,
  )

  bucket-marked :
      (i : ℕ)
      → bucket (marked w user) i
        ≡ (if w.current_tick == i then mark (bucket w w.current_tick) user else bucket w i)
  bucket-marked i =
      get_or-set w.wheel w.current_tick i (mark (bucket w w.current_tick) user) Cooldown.new
        (omega (arith, r.size, r.in_range))

  marked_bits :
      rem user ≡ 0
      → (i id : ℕ) → i < timing_wheel_ticks
      → id < max_connections_per_worker
      → has (bucket (marked w user) i) id ≡ (
          if start rem user id == 0
          then 0
          else if i == (w.current_tick + start rem user id) % timing_wheel_ticks
          then 1
          else 0)
  marked_bits idle i id p h = rw (bucket-marked i) (
      ground (
        arith,
        has-mark {arr = bucket w w.current_tick} user id current-IsValid known,
        r.bucket_bits i id p h,
        r.bounded id,
        r.in_range,
      ))

  -- A user without cooldown that is put into both structures gets the full number of ticks.
  pub start-Represents :
      rem user ≡ 0
      → (master' : CooldownArray) × (w' : TimingWheel) × (set_cooldown master user ≡ some master')
        × (add_cooldown w user ≡ some w')
        × Represents w' master' (start rem user)
  start-Represents idle = (
    mark master user,
    marked w user,
    set_cooldown-eq-mark user r.master_valid known,
    add_cooldown-eq,
    record {
      master_valid = mark-IsValid user r.master_valid known;
      size = length-set w.wheel w.current_tick _ ∙ r.size;
      in_range = r.in_range;
      buckets_valid = λ i p. rw (bucket-marked i) (
          if_both IsValid (w.current_tick == i) (mark-IsValid user current-IsValid known)
            (r.buckets_valid i p));
      bounded = λ id. ground (arith, r.bounded id);
      master_bits = λ id h.
          ground (arith, has-mark {arr = master} user id r.master_valid known, r.master_bits id h);
      bucket_bits = marked_bits idle;
    },
  )
