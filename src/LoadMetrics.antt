-- ===== src/LoadMetrics.antt =====
-- client/src/metrics.rs: the counters of the load generator and the rows of its exporter, with their
-- text and their file. The runtime has one thread, so nothing happens between the reads of a row.
pub mod Rates
pub mod Csv
pub mod Digits
pub mod Read
pub mod RoundTrip
pub mod File
use reddit_puzzle_system_des.Base.{ℕ, ◌+◌, ◌-◌, ◌*◌, ◌%◌, ◌^◌, List, [], ◌∷◌}

-- `AlignedAtomic::add`, which wraps.
abbrev pub add : ℕ → ℕ → ℕ
add val counter = (counter + val) % 2 ^ 64

-- `LoadMetrics` without its name.
pub record LoadMetrics : Type 0 where
  pub active : ℕ
  pub failed : ℕ
  pub tx_pixels : ℕ
  pub rx_datagrams : ℕ
  pub rx_bytes : ℕ

abbrev pub new : LoadMetrics
new = record { active = 0; failed = 0; tx_pixels = 0; rx_datagrams = 0; rx_bytes = 0 }

-- The locals of the exporter's loop.
pub record Exporter : Type 0 where
  pub last_dgrams : ℕ
  pub last_bytes : ℕ
  pub last_tx : ℕ

abbrev pub start : Exporter
start = record { last_dgrams = 0; last_bytes = 0; last_tx = 0 }

-- A row of the file; for the megabits it has the bytes that they are computed from.
pub record Row : Type 0 where
  pub ts : ℕ
  pub active : ℕ
  pub failed : ℕ
  pub tx_pixels : ℕ
  pub tx_pps : ℕ
  pub dps : ℕ
  pub bytes : ℕ

-- A difference of two `usize`s.
abbrev pub since : ℕ → ℕ → ℕ
since last current = (current + 2 ^ 64 - last) % 2 ^ 64

-- One turn of the loop, at the time `ts`.
pub export_row : ℕ → LoadMetrics → Exporter → Row × Exporter
export_row ts metrics x = (
  record {
    ts = ts;
    active = metrics.active;
    failed = metrics.failed;
    tx_pixels = metrics.tx_pixels;
    tx_pps = since x.last_tx metrics.tx_pixels;
    dps = since x.last_dgrams metrics.rx_datagrams;
    bytes = since x.last_bytes metrics.rx_bytes;
  },
  record {
    last_dgrams = metrics.rx_datagrams;
    last_bytes = metrics.rx_bytes;
    last_tx = metrics.tx_pixels;
  },
)

-- The loop, over what it finds second by second.
pub export_all : List (ℕ × LoadMetrics) → Exporter → List Row × Exporter
unfolding export_row
export_all [] x = ([], x)
export_all (reading ∷ readings) x =
    let first = export_row (reading.0) (reading.1) x in
    let rest = export_all readings (first.1) in (first.0 ∷ rest.0, rest.1)
