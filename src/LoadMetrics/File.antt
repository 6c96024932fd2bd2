-- ===== src/LoadMetrics/File.antt =====
-- The file of the exporter of client/src/metrics.rs as a whole.
use reddit_puzzle_system_des.Base.{
  ℕ, ◌^◌, ◌<◌, Bool, true, false, Option, none, some, List, [], ◌∷◌, ◌++◌, map, All, ◌≡◌, ap, refl,
  arith,
}
use reddit_puzzle_system_des.LoadMetrics.{LoadMetrics, Row, Exporter, start, export_row, export_all}
use reddit_puzzle_system_des.LoadMetrics.Rates.{IsWord}
use reddit_puzzle_system_des.LoadMetrics.Csv.{
  header_line, title, metrics_path, fallback_path, open_file, row_texts, spawn_csv_exporter,
}
use reddit_puzzle_system_des.LoadMetrics.Read.{read_csv, read_csv-eq, IsFree}
use reddit_puzzle_system_des.LoadMetrics.RoundTrip.{Fits, IsField, reading_of, read_rows}

-- What the exporter finds in a second: a clock and counters of 64 bits.
pub record IsReading (reading : ℕ × LoadMetrics) : Type 0 where
  pub ts : reading.0 < 2 ^ 64
  pub active : reading.1.active < 2 ^ 64
  pub failed : reading.1.failed < 2 ^ 64
  pub counters : IsWord (reading.1)

rows-Fits :
    (readings : List (ℕ × LoadMetrics)) (x : Exporter)
    → All IsReading readings
    → All Fits (export_all readings x).0
unfolding export_all export_row
rows-Fits [] x all = tt
rows-Fits ((ts, metrics) ∷ readings) x (reading, all) = (
  record {
    ts = reading.ts;
    active = reading.active;
    failed = reading.failed;
    tx_pixels = reading.counters.tx;
    tx_pps = omega arith;
    dps = omega arith;
  },
  rows-Fits readings (export_row ts metrics x).1 all,
)

title-IsFree : IsFree 10 title
title-IsFree = ground arith

write_to : List ℕ → Option (List ℕ) → Option (List ℕ × List ℕ)
write_to text none = none
write_to text (some path) = some (path, text)

module _ (opens : List ℕ → Bool) (metrics_dir worker_id : List ℕ) where
  open_file-metrics :
      opens (metrics_path metrics_dir worker_id) ≡ true
      → open_file opens metrics_dir worker_id ≡ some (metrics_path metrics_dir worker_id)
  unfolding open_file
  open_file-metrics first = rw (first) refl

  open_file-fallback :
      opens (metrics_path metrics_dir worker_id) ≡ false
      → opens (fallback_path worker_id) ≡ true
      → open_file opens metrics_dir worker_id ≡ some (fallback_path worker_id)
  unfolding open_file
  open_file-fallback first second = rw (first, second) refl

  open_file-none :
      opens (metrics_path metrics_dir worker_id) ≡ false
      → opens (fallback_path worker_id) ≡ false
      → open_file opens metrics_dir worker_id ≡ none
  unfolding open_file
  open_file-none first second = rw (first, second) refl

module _ (megabits : ℕ → List ℕ) (clean : IsField megabits) where
  read_csv-header_line :
      (rows : List Row)
      → All Fits rows
      → read_csv (header_line ++ row_texts megabits rows)
        ≡ some (title, map (reading_of megabits) rows)
  read_csv-header_line rows fits =
      read_csv-eq title (row_texts megabits rows) (map (reading_of megabits) rows) title-IsFree
        (read_rows megabits clean rows fits)

  -- Whatever readings of 64 bits the exporter finds, as long as the text of the megabits has
  -- neither a comma nor a new line: it writes one text, to the file in the metrics' directory if that
  -- can be opened, else to the one in the working directory, else nowhere; and who splits the text
  -- at its new lines and commas reads the title and, row by row, the numbers that were reported.
  pub spawn_csv_exporter_lem :
      (opens : List ℕ → Bool) (metrics_dir worker_id : List ℕ) (readings : List (ℕ × LoadMetrics))
      → All IsReading readings
      → (text : List ℕ) × (opens (metrics_path metrics_dir worker_id) ≡ true
          → spawn_csv_exporter megabits opens metrics_dir worker_id readings
            ≡ some (metrics_path metrics_dir worker_id, text))
        × (opens (metrics_path metrics_dir worker_id) ≡ false
            → opens (fallback_path worker_id) ≡ true
            → spawn_csv_exporter megabits opens metrics_dir worker_id readings
              ≡ some (fallback_path worker_id, text))
        × (opens (metrics_path metrics_dir worker_id) ≡ false
            → opens (fallback_path worker_id) ≡ false
            → spawn_csv_exporter megabits opens metrics_dir worker_id readings ≡ none)
        × (read_csv text ≡ some (title, map (reading_of megabits) (export_all readings start).0))
  unfolding spawn_csv_exporter write_to
  spawn_csv_exporter_lem opens metrics_dir worker_id readings all = (
    header_line ++ row_texts megabits (export_all readings start).0,
    (λ first. ap (write_to _) (open_file-metrics opens metrics_dir worker_id first)),
    (λ first second. ap (write_to _) (open_file-fallback opens metrics_dir worker_id first second)),
    (λ first second. ap (write_to _) (open_file-none opens metrics_dir worker_id first second)),
    read_csv-header_line (export_all readings start).0 (rows-Fits readings start all),
  )
