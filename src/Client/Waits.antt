-- ===== src/Client/Waits.antt =====
-- The waits of the simulated users of client/src/main.rs.
use reddit_puzzle_system_des.Base.{
  ℕ, zero, suc, ◌+◌, ◌≤◌, ◌<◌, leb, ◌==◌, Bool-cases, true, false, inl, inr, ◌⊎◌, Option-cases,
  some, List, [], ◌∷◌, get_elem?, set, All, ◌≡◌, subst, refl, arith,
}
use reddit_puzzle_system_des.LoadMetrics.{LoadMetrics}
use reddit_puzzle_system_des.Client.{
  Args, UserState, jittering, connecting, running, failed, left, User, Event, slept, connected,
  refused, received, closed, woke, next_wait, jitter_of, spawn_users, simulate_user, happens,
  all_happen,
}

-- What `rand` says of its ranges.
abbrev pub Draws : (ℕ → ℕ → ℕ → ℕ) → Type 0
Draws gen_range =
    (roll low high : ℕ)
    → low < high
    → (low ≤ gen_range roll low high) × (gen_range roll low high < high)

module _ (gen_range : ℕ → ℕ → ℕ → ℕ) (args : Args) where
  -- A wait is drawn from the range of the arguments, or is the least one if that range is empty.
  abbrev pub IsPaced : UserState → Type 0
  IsPaced (jittering jitter) = (jitter < args.max_conn_jitter) ⊎ (jitter ≡ 0)
  IsPaced connecting = Unit
  IsPaced (running wait) =
      (args.min_pixel_wait ≤ wait) × ((wait < args.max_pixel_wait) ⊎ (wait ≡ args.min_pixel_wait))
  IsPaced failed = Unit
  IsPaced left = Unit

  module _ (draws : Draws gen_range) where
    next_wait-IsPaced : (roll : ℕ) → IsPaced (running (next_wait gen_range args roll))
    unfolding next_wait
    next_wait-IsPaced roll = elim (Bool-cases (leb args.max_pixel_wait args.min_pixel_wait)) [
      | inl single ↦ rw (next_wait, single) (omega arith, inr refl)
      | inr range ↦
          let (low, high) = draws roll args.min_pixel_wait args.max_pixel_wait (ground arith) in
          rw (next_wait, range) (low, inl high)
    ]

    jitter-IsPaced : (roll : ℕ) → IsPaced (jittering (jitter_of gen_range args roll))
    jitter-IsPaced roll = elim (Bool-cases (args.max_conn_jitter == 0)) [
      | inl never ↦ rw never (inr refl)
      | inr some_range ↦ rw some_range (inl (draws roll 0 args.max_conn_jitter (ground arith)).1)
    ]

    simulate_user-IsPaced :
        (e : Event) (s : UserState) (m : LoadMetrics)
        → IsPaced s
        → IsPaced (simulate_user gen_range args e s m).0
    unfolding simulate_user
    simulate_user-IsPaced slept (jittering jitter) m p = tt
    simulate_user-IsPaced (connected roll) connecting m p = next_wait-IsPaced roll
    simulate_user-IsPaced refused connecting m p = tt
    simulate_user-IsPaced (received dgram) (running wait) m p = p
    simulate_user-IsPaced closed (running wait) m p = tt
    simulate_user-IsPaced (woke true roll) (running wait) m p = next_wait-IsPaced roll
    simulate_user-IsPaced (woke false roll) (running wait) m p = tt
    simulate_user-IsPaced e s m p = p

    abbrev pub ArePaced : List User → Type 0
    ArePaced users = All (λ (user : User). IsPaced user.state) users

    paced-set :
        (i : ℕ) (users : List User) (user : User)
        → ArePaced users
        → IsPaced user.state
        → ArePaced (set users i user)
    paced-set i [] user all p = tt
    paced-set zero (first ∷ users) user (here, all) p = (p, all)
    paced-set (suc i) (first ∷ users) user (here, all) p = (here, paced-set i users user all p)

    some_injective : (x y : User) → some x ≡ some y → x ≡ y
    some_injective x y e = cc

    IsPaced-at :
        (i : ℕ) (users : List User) (user : User)
        → ArePaced users
        → get_elem? users i ≡ some user
        → IsPaced user.state
    IsPaced-at i [] user all at = absurd (ground (arith, at))
    IsPaced-at zero (first ∷ users) user (here, all) at =
        let same : first ≡ user = some_injective first user at in
        subst (λ (x : User). IsPaced x.state) same here
    IsPaced-at (suc i) (first ∷ users) user (here, all) at = IsPaced-at i users user all at

    happens-IsPaced :
        (i : ℕ) (e : Event) (users : List User) (m : LoadMetrics)
        → ArePaced users
        → ArePaced (happens gen_range args i e users m).0
    unfolding happens
    happens-IsPaced i e users m all = elim (Option-cases (get_elem? users i)) [
      | inl nobody ↦ rw (happens, nobody) all
      | inr (user, at) ↦
          let after = simulate_user gen_range args e user.state m in
          let p = simulate_user-IsPaced e user.state m (IsPaced-at i users user all at) in
          rw (happens, at) (paced-set i users (record user { state = after.0 }) all p)
    ]

    all_happen-IsPaced :
        (es : List (ℕ × Event)) (users : List User) (m : LoadMetrics)
        → ArePaced users
        → ArePaced (all_happen gen_range args es users m).0
    unfolding all_happen
    all_happen-IsPaced [] users m all = all
    all_happen-IsPaced ((i, e) ∷ es) users m all =
        all_happen-IsPaced es (happens gen_range args i e users m).0
          (happens gen_range args i e users m).1 (happens-IsPaced i e users m all)

    spawn_users-IsPaced :
        (rolls : ℕ → ℕ) (i n : ℕ) → ArePaced (spawn_users gen_range args rolls i n)
    unfolding spawn_users
    spawn_users-IsPaced rolls i zero = tt
    spawn_users-IsPaced rolls i (suc n) =
        (jitter-IsPaced (rolls i), spawn_users-IsPaced rolls (i + 1) n)

    -- Whatever the users are drawn, and in whatever order their events happen: a user first waits less than
    -- the greatest jitter, or not at all, and a connected user waits for its next pixel at least the
    -- least wait, and less than the greatest one unless the range is empty.
    pub load_waits :
        (rolls : ℕ → ℕ) (es : List (ℕ × Event)) (m : LoadMetrics)
        → ArePaced
            (all_happen gen_range args es (spawn_users gen_range args rolls 0 args.clients) m).0
    load_waits rolls es m =
        all_happen-IsPaced es (spawn_users gen_range args rolls 0 args.clients) m
          (spawn_users-IsPaced rolls 0 args.clients)
