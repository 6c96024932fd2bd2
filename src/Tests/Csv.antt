-- ===== src/Tests/Csv.antt =====
-- Two rows of the load generator, written and read back.
use reddit_puzzle_system_des.Base.{
  ℕ, ◌*◌, ◌≤◌, ◌==◌, Bool, true, false, some, none, List, [], ◌∷◌, length, map, ◌≡◌, refl, arith,
}
use reddit_puzzle_system_des.LoadMetrics.{LoadMetrics, start, export_all}
use reddit_puzzle_system_des.LoadMetrics.Csv.{
  decimal, decimal_loop, title, metrics_path, fallback_path, spawn_csv_exporter,
}
use reddit_puzzle_system_des.LoadMetrics.Read.{read_csv}
use reddit_puzzle_system_des.LoadMetrics.RoundTrip.{IsField, reading_of}
use reddit_puzzle_system_des.LoadMetrics.File.{IsReading, spawn_csv_exporter_lem}

four_digits : decimal 4_096 ≡ 52 ∷ 48 ∷ 57 ∷ 54 ∷ []
unfolding decimal_loop
four_digits = refl

-- "0.0"
abbrev megabits : ℕ → List ℕ
megabits bytes = 48 ∷ 46 ∷ 48 ∷ []

megabits-IsField : IsField megabits
megabits-IsField n = (ground arith, ground arith)

abbrev counted : ℕ → LoadMetrics
counted n = record { active = n; failed = 1; tx_pixels = 5 * n; rx_datagrams = 7 * n; rx_bytes = 0 }

abbrev readings : List (ℕ × LoadMetrics)
readings = (1_000, counted 2) ∷ (1_001, counted 3) ∷ []

reading : (ts n : ℕ) → ts ≤ 2_000 → n ≤ 100 → IsReading (ts, counted n)
reading ts n early few = record {
  ts = omega (arith, early);
  active = omega (arith, few);
  failed = omega arith;
  counters = record { tx = omega (arith, few); dgrams = omega (arith, few); bytes = omega arith };
}

-- Only the file in the working directory can be opened.
abbrev opens : List ℕ → Bool
opens path = length path == 10

spawn_csv_exporter_lem_example :
    (text : List ℕ) × (opens (metrics_path (47 ∷ []) (49 ∷ [])) ≡ true
      → spawn_csv_exporter megabits opens (47 ∷ []) (49 ∷ []) readings
        ≡ some (metrics_path (47 ∷ []) (49 ∷ []), text))
    × (opens (metrics_path (47 ∷ []) (49 ∷ [])) ≡ false
        → opens (fallback_path (49 ∷ [])) ≡ true
        → spawn_csv_exporter megabits opens (47 ∷ []) (49 ∷ []) readings
          ≡ some (fallback_path (49 ∷ []), text))
    × (opens (metrics_path (47 ∷ []) (49 ∷ [])) ≡ false
        → opens (fallback_path (49 ∷ [])) ≡ false
        → spawn_csv_exporter megabits opens (47 ∷ []) (49 ∷ []) readings ≡ none)
    × (read_csv text ≡ some (title, map (reading_of megabits) (export_all readings start).0))
spawn_csv_exporter_lem_example =
    spawn_csv_exporter_lem megabits megabits-IsField opens (47 ∷ []) (49 ∷ []) readings (
      reading 1_000 2 (omega arith) (omega arith),
      (reading 1_001 3 (omega arith) (omega arith), tt),
    )
