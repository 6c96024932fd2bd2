-- ===== src/Tests/Client.antt =====
-- Users of the load generator, and rows of its exporter.
use reddit_puzzle_system_des.Base.{ℕ, ◌+◌, ◌-◌, min, true, some, List, [], ◌∷◌, ◌≡◌, refl, arith}
use reddit_puzzle_system_des.Transport.{parse_pixel}
use reddit_puzzle_system_des.LoadMetrics.{LoadMetrics, Exporter, Row, export_all}
use reddit_puzzle_system_des.LoadMetrics
use reddit_puzzle_system_des.LoadMetrics.Rates.{AddUp, export_all_lem}
use reddit_puzzle_system_des.Client.{
  Args, Event, slept, connected, refused, received, closed, woke, payload, spawn_users, all_happen,
}
use reddit_puzzle_system_des.Client.Counts.{IsCounted, load_counts}
use reddit_puzzle_system_des.Client.Waits.{Draws, ArePaced, load_waits}

abbrev clamp : ℕ → ℕ → ℕ → ℕ
clamp roll low high = min (low + roll) (high - 1)

clamp-Draws : Draws clamp
clamp-Draws roll low high some_range = (omega (arith, some_range), omega (arith, some_range))

abbrev three : Args
three = record {
  clients = 3;
  max_conn_jitter = 10;
  min_pixel_wait = 1_000;
  max_pixel_wait = 10_000;
}

abbrev rolls : ℕ → ℕ
rolls i = i

-- User 0 connects, gets a datagram, sends a pixel and leaves; user 1 is refused; user 2 stays.
abbrev events : List (ℕ × Event)
events =
    (0, slept)
    ∷ (1, slept)
    ∷ (0, connected 5)
    ∷ (2, slept)
    ∷ (1, refused)
    ∷ (2, connected 7)
    ∷ (0, received (1 ∷ 2 ∷ []))
    ∷ (0, woke true 3)
    ∷ (0, closed)
    ∷ []

load_counts_example :
    let load = all_happen clamp three events (spawn_users clamp three rolls 0 3) LoadMetrics.new in
    IsCounted (load.0) (load.1)
load_counts_example = load_counts clamp three rolls events

load_waits_example :
    ArePaced clamp three clamp-Draws
      (all_happen clamp three events (spawn_users clamp three rolls 0 3) LoadMetrics.new).0
load_waits_example = load_waits clamp three clamp-Draws rolls events LoadMetrics.new

counters :
    (all_happen clamp three events (spawn_users clamp three rolls 0 3) LoadMetrics.new).1
    ≡ record { active = 1; failed = 1; tx_pixels = 1; rx_datagrams = 1; rx_bytes = 2 }
unfolding all_happen spawn_users
counters = refl

-- The pixel of a user is read by the server.
payload_read : parse_pixel payload ≡ some (record { x = 100; y = 200; color = 255 })
unfolding parse_pixel
payload_read = refl

abbrev busy : LoadMetrics
busy = record { active = 2; failed = 0; tx_pixels = 5; rx_datagrams = 3; rx_bytes = 4_000 }

abbrev busier : LoadMetrics
busier = record { active = 2; failed = 1; tx_pixels = 9; rx_datagrams = 3; rx_bytes = 4_000 }

abbrev readings : List (ℕ × LoadMetrics)
readings = (100, busy) ∷ (101, busier) ∷ []

export_all_lem_example :
    AddUp LoadMetrics.start
      (export_all readings LoadMetrics.start).1
      (export_all readings LoadMetrics.start).0
export_all_lem_example =
    export_all_lem readings LoadMetrics.start
      (
        record { tx = omega arith; dgrams = omega arith; bytes = omega arith },
        (record { tx = omega arith; dgrams = omega arith; bytes = omega arith }, tt),
      )
      (record { tx = omega arith; dgrams = omega arith; bytes = omega arith })
