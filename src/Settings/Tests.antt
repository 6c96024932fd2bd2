-- ===== src/Settings/Tests.antt =====
-- The derived settings at the configured values, and the depth theorem at the configured target.
use reddit_puzzle_system_des.Base.{ℕ, ◌+◌, ◌*◌, ◌%◌, ◌^◌, ◌≤◌, ◌<◌, ◌⊎◌, none, some, ◌≡◌, refl}
use reddit_puzzle_system_des.Settings.{
  io_uring_num_buffers, io_uring_sq_depth, next_power_of_two, mem_per_worker, total_est,
}
use reddit_puzzle_system_des.Settings.Depth.{next_power_of_two_bounds}

configured : (io_uring_num_buffers ≡ 16_384) × (io_uring_sq_depth ≡ some 32_768)
unfolding io_uring_sq_depth io_uring_num_buffers
configured = (refl, refl)

budget : total_est 5 ≡ 5 * mem_per_worker + 48_000_000
unfolding total_est mem_per_worker
budget = refl

next_power_of_two_bounds_example :
    let w = 32_768 % 2 ^ 32 in
    ((k : ℕ) × (1 ≤ w)
      × (w ≤ 2 ^ 31)
      × (next_power_of_two 32_768 ≡ some (2 ^ k))
      × (w ≤ 2 ^ k)
      × (2 ^ k < 2 * w))
    ⊎ (((w ≡ 0) ⊎ (2 ^ 31 < w)) × (next_power_of_two 32_768 ≡ none))
next_power_of_two_bounds_example = next_power_of_two_bounds 32_768
