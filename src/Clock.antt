-- ===== src/Clock.antt =====
-- server/src/time.rs: the clock that a thread keeps up to date, by the system's milliseconds, a
-- `u128`, at each store.
use reddit_puzzle_system_des.Base.{ℕ, ◌+◌, ◌-◌, ◌*◌, ◌/◌, ◌%◌, ◌^◌, ◌≤◌, ◌<◌, ◌≡◌, arith}

pub record AtomicTime : Type 0 where
  pub time_ms : ℕ

-- `as_millis() as u64`
abbrev pub now_ms_system : ℕ → ℕ
now_ms_system as_millis = as_millis % 2 ^ 64

-- The store of `init` and of the thread.
abbrev pub stored : ℕ → AtomicTime
stored as_millis = record { time_ms = now_ms_system as_millis }

unfoldable pub now_ms : AtomicTime → ℕ
now_ms clock = clock.time_ms

unfoldable pub now_sec : AtomicTime → ℕ
unfolding now_ms
now_sec clock = now_ms clock / 1000

-- While the system's milliseconds fit 64 bits: of two stores that are at least `k` seconds apart the
-- later one reads at least `k` seconds more, and of two that are at most `k` seconds apart at most `k`
-- more; on the clock of milliseconds they are exactly as far apart as on the system's.
pub now_sec_lem :
    (earlier later k : ℕ)
    → earlier ≤ later
    → later < 2 ^ 64
    → (earlier + k * 1000 ≤ later → now_sec (stored earlier) + k ≤ now_sec (stored later))
      × (later ≤ earlier + k * 1000 → now_sec (stored later) ≤ now_sec (stored earlier) + k)
      × (now_ms (stored later) ≡ now_ms (stored earlier) + (later - earlier))
unfolding now_sec now_ms
now_sec_lem earlier later k order fits = (
  (λ apart. omega (arith, order, fits, apart)),
  (λ near. omega (arith, order, fits, near)),
  omega (arith, order, fits),
)
