-- ===== src/Client/Counts.antt =====
-- The counters of the simulated users of client/src/main.rs, whatever the order of their events.
use reddit_puzzle_system_des.Base.{
  ℕ, zero, suc, ◌+◌, ◌-◌, ◌%◌, ◌^◌, ◌<◌, true, false, inl, inr, Option-cases, some, List, [], ◌∷◌,
  get_elem?, set, ◌≡◌, ap, refl, arith,
}
use reddit_puzzle_system_des.LoadMetrics.{LoadMetrics, add}
use reddit_puzzle_system_des.LoadMetrics
use reddit_puzzle_system_des.Client.{
  Args, UserState, jittering, connecting, running, failed, left, User, Event, slept, connected,
  refused, received, closed, woke, next_wait, spawn_users, simulate_user, happens, all_happen,
}

-- Whether a user is connected, and whether it could not connect, as 1 or 0.
abbrev pub is_active : UserState → ℕ
is_active (jittering jitter) = 0
is_active connecting = 0
is_active (running wait) = 1
is_active failed = 0
is_active left = 0

abbrev pub has_failed : UserState → ℕ
has_failed (jittering jitter) = 0
has_failed connecting = 0
has_failed (running wait) = 0
has_failed failed = 1
has_failed left = 0

abbrev pub count : (UserState → ℕ) → List User → ℕ
count f [] = 0
count f (user ∷ users) = f user.state + count f users

abbrev state_of : User → UserState
state_of user = user.state

some_injective : (x y : User) → some x ≡ some y → x ≡ y
some_injective x y e = cc

count-set :
    (f : UserState → ℕ) (i : ℕ) (users : List User) (user : User) (s : UserState)
    → get_elem? users i ≡ some user
    → count f (set users i (record user { state = s })) + f user.state ≡ count f users + f s
count-set f i [] user s at = absurd (ground (arith, at))
count-set f zero (first ∷ users) user s at =
    omega (arith, ap f (ap state_of (some_injective first user at)))
count-set f (suc i) (first ∷ users) user s at = omega (arith, count-set f i users user s at)

-- The counters against the users.
pub record IsCounted (users : List User) (m : LoadMetrics) : Type 0 where
  pub active : m.active ≡ count is_active users % 2 ^ 64
  pub failed : m.failed ≡ count has_failed users % 2 ^ 64

module _ (gen_range : ℕ → ℕ → ℕ → ℕ) (args : Args) where
  -- What an event changes of a user it changes of the counters.
  record Follows (s s' : UserState) (m m' : LoadMetrics) : Type 0 where
    active : (m'.active + is_active s) % 2 ^ 64 ≡ (m.active + is_active s') % 2 ^ 64
    failed : (m'.failed + has_failed s) % 2 ^ 64 ≡ (m.failed + has_failed s') % 2 ^ 64
    active_word : m'.active < 2 ^ 64
    failed_word : m'.failed < 2 ^ 64

  -- An event that neither counter sees.
  idle : (s : UserState) (m : LoadMetrics) → m.active < 2 ^ 64 → m.failed < 2 ^ 64 → Follows s s m m
  idle s m a f = record { active = refl; failed = refl; active_word = a; failed_word = f }

  changes_active :
      (s s' : UserState) (k : ℕ) (m : LoadMetrics)
      → m.failed < 2 ^ 64
      → has_failed s ≡ has_failed s'
      → (k + is_active s) % 2 ^ 64 ≡ is_active s'
      → Follows s s' m (record m { active = add k m.active })
  changes_active s s' k m f same e = record {
    active = omega (arith, e);
    failed = omega (arith, same);
    active_word = omega arith;
    failed_word = f;
  }

  simulate_user-Follows :
      (e : Event) (s : UserState) (m : LoadMetrics)
      → m.active < 2 ^ 64
      → m.failed < 2 ^ 64
      → Follows s (simulate_user gen_range args e s m).0 m (simulate_user gen_range args e s m).1
  unfolding simulate_user
  simulate_user-Follows slept (jittering jitter) m a f = record {
    active = refl;
    failed = refl;
    active_word = a;
    failed_word = f;
  }
  simulate_user-Follows (connected roll) connecting m a f =
      changes_active connecting (running (next_wait gen_range args roll)) 1 m f refl refl
  simulate_user-Follows refused connecting m a f = record {
    active = refl;
    failed = omega arith;
    active_word = a;
    failed_word = omega arith;
  }
  simulate_user-Follows (received dgram) (running wait) m a f = record {
    active = refl;
    failed = refl;
    active_word = a;
    failed_word = f;
  }
  simulate_user-Follows closed (running wait) m a f =
      changes_active (running wait) left (2 ^ 64 - 1) m f refl refl
  simulate_user-Follows (woke true roll) (running wait) m a f = record {
    active = refl;
    failed = refl;
    active_word = a;
    failed_word = f;
  }
  simulate_user-Follows (woke false roll) (running wait) m a f =
      changes_active (running wait) left (2 ^ 64 - 1) m f refl refl
  simulate_user-Follows e s m a f = idle s m a f

  happens-IsCounted :
      (i : ℕ) (e : Event) (users : List User) (m : LoadMetrics)
      → IsCounted users m
      → IsCounted (happens gen_range args i e users m).0 (happens gen_range args i e users m).1
  unfolding happens
  happens-IsCounted i e users m c = elim (Option-cases (get_elem? users i)) [
    | inl nobody ↦ rw (happens, nobody) c
    | inr (user, at) ↦
        let after = simulate_user gen_range args e user.state m in
        let step =
          simulate_user-Follows e user.state m (omega (arith, c.active))
            (omega (arith, c.failed)) in
        rw (happens, at)
          (record {
            active = omega (
              arith,
              c.active,
              step.active,
              step.active_word,
              count-set is_active i users user (after.0) at,
            );
            failed = omega (
              arith,
              c.failed,
              step.failed,
              step.failed_word,
              count-set has_failed i users user (after.0) at,
            );
          })
  ]

  -- In whatever order the events of the users happen, the counter `active` is the number of users that
  -- are connected, although a user that leaves adds 2 ^ 64 - 1 to it, and the counter `failed` is the
  -- number of those that could not connect, both on 64 bits, if they were so before.
  pub all_happen-IsCounted :
      (es : List (ℕ × Event)) (users : List User) (m : LoadMetrics)
      → IsCounted users m
      → IsCounted (all_happen gen_range args es users m).0 (all_happen gen_range args es users m).1
  unfolding all_happen
  all_happen-IsCounted [] users m c = c
  all_happen-IsCounted ((i, e) ∷ es) users m c =
      all_happen-IsCounted es (happens gen_range args i e users m).0
        (happens gen_range args i e users m).1 (happens-IsCounted i e users m c)

  spawn_users-IsCounted :
      (rolls : ℕ → ℕ) (i n : ℕ)
      → (count is_active (spawn_users gen_range args rolls i n) ≡ 0)
        × (count has_failed (spawn_users gen_range args rolls i n) ≡ 0)
  unfolding spawn_users
  spawn_users-IsCounted rolls i zero = (refl, refl)
  spawn_users-IsCounted rolls i (suc n) =
      let (some_active, some_failed) = spawn_users-IsCounted rolls (i + 1) n in
      (omega (arith, some_active), omega (arith, some_failed))

  -- In whatever order the events of the spawned users happen, the counter `active` is the number of
  -- users that are connected, although a user that leaves adds 2 ^ 64 - 1 to it, and the counter
  -- `failed` is the number of those that could not connect, both on 64 bits.
  pub load_counts :
      (rolls : ℕ → ℕ) (es : List (ℕ × Event))
      → let load =
          all_happen gen_range args es
            (spawn_users gen_range args rolls 0 args.clients)
            LoadMetrics.new in
        IsCounted (load.0) (load.1)
  load_counts rolls es =
      let (none_active, none_failed) = spawn_users-IsCounted rolls 0 args.clients in
      all_happen-IsCounted es (spawn_users gen_range args rolls 0 args.clients) LoadMetrics.new
        (record { active = omega (arith, none_active); failed = omega (arith, none_failed) })
