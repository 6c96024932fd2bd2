-- ===== src/Tests/Clock.antt =====
-- The clock across a second.
use reddit_puzzle_system_des.Base.{◌+◌, ◌-◌, ◌*◌, ◌≤◌, ◌≡◌, arith}
use reddit_puzzle_system_des.Clock.{stored, now_ms, now_sec, now_sec_lem}

now_sec_lem_example :
    (1_999 + 2 * 1000 ≤ 4_000 → now_sec (stored 1_999) + 2 ≤ now_sec (stored 4_000))
    × (4_000 ≤ 1_999 + 2 * 1000 → now_sec (stored 4_000) ≤ now_sec (stored 1_999) + 2)
    × (now_ms (stored 4_000) ≡ now_ms (stored 1_999) + (4_000 - 1_999))
now_sec_lem_example = now_sec_lem 1_999 4_000 2 (omega arith) (omega arith)
