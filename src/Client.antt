-- ===== src/Client.antt =====
-- client/src/main.rs: the simulated users of the load generator, as what their tasks do at each event.
-- Sending and receiving is the crate `quinn`'s, the ranges are those of `rand`.
pub mod Counts
pub mod Waits
pub mod Tls
pub mod Launch
use reddit_puzzle_system_des.Base.{
  ℕ, zero, suc, ◌+◌, ◌-◌, ◌%◌, ◌^◌, leb, ◌==◌, if◌then◌else◌, Bool, true, false, Option, none, some,
  List, [], ◌∷◌, ◌++◌, length, get_elem?, set,
}
use reddit_puzzle_system_des.LoadMetrics.{LoadMetrics, add}
use reddit_puzzle_system_des.LoadMetrics

-- The arguments that the tasks use.
pub record Args : Type 0 where
  pub clients : ℕ
  pub max_conn_jitter : ℕ
  pub min_pixel_wait : ℕ
  pub max_pixel_wait : ℕ

-- A user waits, connects, waits for the next pixel or a datagram, and ends.
pub data UserState : Type 0 where
  jittering : (jitter : ℕ) → UserState
  connecting : UserState
  running : (wait : ℕ) → UserState
  failed : UserState
  left : UserState

pub record User : Type 0 where
  pub endpoint : ℕ
  pub state : UserState

-- What a task awaits; a number that the range is drawn with comes along.
pub data Event : Type 0 where
  slept : Event
  connected : (roll : ℕ) → Event
  refused : Event
  received : (dgram : List ℕ) → Event
  closed : Event
  woke : (sent : Bool) (roll : ℕ) → Event

abbrev pub num_endpoints : ℕ
num_endpoints = 64

-- The five bytes of a pixel.
abbrev pub payload : List ℕ
payload = 100 ∷ 0 ∷ 200 ∷ 0 ∷ 255 ∷ []

module _ (gen_range : ℕ → ℕ → ℕ → ℕ) (args : Args) where
  pub next_wait : ℕ → ℕ
  next_wait roll =
      if leb args.max_pixel_wait args.min_pixel_wait
      then args.min_pixel_wait
      else gen_range roll args.min_pixel_wait args.max_pixel_wait

  abbrev pub jitter_of : ℕ → ℕ
  jitter_of roll = if args.max_conn_jitter == 0 then 0 else gen_range roll 0 args.max_conn_jitter

  -- The loop that spawns the users, the `i`th with the number that `rolls i` is drawn with.
  unfoldable pub spawn_users : (ℕ → ℕ) → ℕ → ℕ → List User
  spawn_users rolls i zero = []
  spawn_users rolls i (suc rest) =
      record { endpoint = i % num_endpoints; state = jittering (jitter_of (rolls i)) }
      ∷ spawn_users rolls (i + 1) rest

  abbrev while_connecting : Event → LoadMetrics → UserState × LoadMetrics
  while_connecting (connected roll) m =
      (running (next_wait roll), record m { active = add 1 m.active })
  while_connecting refused m = (failed, record m { failed = add 1 m.failed })
  while_connecting slept m = (connecting, m)
  while_connecting (received dgram) m = (connecting, m)
  while_connecting closed m = (connecting, m)
  while_connecting (woke sent roll) m = (connecting, m)

  -- The end of the task.
  abbrev leave : LoadMetrics → UserState × LoadMetrics
  leave m = (left, record m { active = add (2 ^ 64 - 1) m.active })

  -- The loop of `simulate_user`.
  abbrev while_running : ℕ → Event → LoadMetrics → UserState × LoadMetrics
  while_running wait (received dgram) m = (
    running wait,
    record m { rx_datagrams = add 1 m.rx_datagrams; rx_bytes = add (length dgram) m.rx_bytes },
  )
  while_running wait closed m = leave m
  while_running wait (woke true roll) m =
      (running (next_wait roll), record m { tx_pixels = add 1 m.tx_pixels })
  while_running wait (woke false roll) m = leave m
  while_running wait slept m = (running wait, m)
  while_running wait (connected roll) m = (running wait, m)
  while_running wait refused m = (running wait, m)

  -- What a task does at an event; it goes on only at those that it awaits.
  pub simulate_user : Event → UserState → LoadMetrics → UserState × LoadMetrics
  unfolding next_wait
  simulate_user slept (jittering jitter) m = (connecting, m)
  simulate_user (connected roll) (jittering jitter) m = (jittering jitter, m)
  simulate_user refused (jittering jitter) m = (jittering jitter, m)
  simulate_user (received dgram) (jittering jitter) m = (jittering jitter, m)
  simulate_user closed (jittering jitter) m = (jittering jitter, m)
  simulate_user (woke sent roll) (jittering jitter) m = (jittering jitter, m)
  simulate_user e connecting m = while_connecting e m
  simulate_user e (running wait) m = while_running wait e m
  simulate_user e failed m = (failed, m)
  simulate_user e left m = (left, m)

  -- The users share the counters; an event is that of the `i`th user.
  pub happens : ℕ → Event → List User → LoadMetrics → List User × LoadMetrics
  unfolding simulate_user
  happens i e users m = elim (get_elem? users i) [
    | none ↦ (users, m)
    | some user ↦
        let after = simulate_user e user.state m in
        (set users i (record user { state = after.0 }), after.1)
  ]

  unfoldable pub all_happen : List (ℕ × Event) → List User → LoadMetrics → List User × LoadMetrics
  unfolding happens
  all_happen [] users m = (users, m)
  all_happen (e ∷ es) users m =
      let after = happens (e.0) (e.1) users m in all_happen es (after.0) (after.1)
