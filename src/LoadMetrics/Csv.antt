-- ===== src/LoadMetrics/Csv.antt =====
-- The file of the exporter of client/src/metrics.rs: where it is and what is written to it. Text is its
-- list of bytes.
use reddit_puzzle_system_des.Base.{
  ℕ, zero, suc, ◌+◌, ◌/◌, ◌%◌, ◌==◌, if◌then◌else◌, Bool, Option, none, some, List, [], ◌∷◌, ◌++◌,
}
use reddit_puzzle_system_des.LoadMetrics.{LoadMetrics, Row, start, export_all}

-- `{}` of a number of at most 20 digits, in front of `rest`.
unfoldable pub decimal_loop : ℕ → ℕ → List ℕ → List ℕ
decimal_loop zero n rest = rest
decimal_loop (suc fuel) n rest =
    let longer = decimal_loop fuel (n / 10) ((48 + n % 10) ∷ rest) in
    if n / 10 == 0 then (48 + n % 10) ∷ rest else longer

abbrev pub decimal : ℕ → List ℕ
decimal n = decimal_loop 20 n []

-- "_data.csv"
abbrev pub suffix : List ℕ
suffix = 95 ∷ 100 ∷ 97 ∷ 116 ∷ 97 ∷ 46 ∷ 99 ∷ 115 ∷ 118 ∷ []

-- `format!("{}/{}_data.csv", metrics_dir, worker_id)`
abbrev pub metrics_path : List ℕ → List ℕ → List ℕ
metrics_path metrics_dir worker_id = metrics_dir ++ 47 ∷ worker_id ++ suffix

abbrev pub fallback_path : List ℕ → List ℕ
fallback_path worker_id = worker_id ++ suffix

-- `opens` says which paths can be opened to write to.
unfoldable pub open_file : (List ℕ → Bool) → List ℕ → List ℕ → Option (List ℕ)
open_file opens metrics_dir worker_id =
    if opens (metrics_path metrics_dir worker_id)
    then some (metrics_path metrics_dir worker_id)
    else if opens (fallback_path worker_id)
    then some (fallback_path worker_id)
    else none

-- "timestamp,active,failed,tx_pixels,tx_pps,rx_dgram_s,rx_mbps" and a new line
abbrev pub title : List ℕ
title =
    116 ∷ 105 ∷ 109 ∷ 101 ∷ 115 ∷ 116 ∷ 97 ∷ 109 ∷ 112 ∷ 44 ∷ 97 ∷ 99 ∷ 116 ∷ 105 ∷ 118 ∷ 101 ∷ 44
    ∷ 102 ∷ 97 ∷ 105 ∷ 108 ∷ 101 ∷ 100 ∷ 44 ∷ 116 ∷ 120 ∷ 95 ∷ 112 ∷ 105 ∷ 120 ∷ 101 ∷ 108 ∷ 115
    ∷ 44 ∷ 116 ∷ 120 ∷ 95 ∷ 112 ∷ 112 ∷ 115 ∷ 44 ∷ 114 ∷ 120 ∷ 95 ∷ 100 ∷ 103 ∷ 114 ∷ 97 ∷ 109 ∷ 95
    ∷ 115 ∷ 44 ∷ 114 ∷ 120 ∷ 95 ∷ 109 ∷ 98 ∷ 112 ∷ 115 ∷ []

abbrev pub header_line : List ℕ
header_line = title ++ 10 ∷ []

-- `megabits` is the text of the megabits that these bytes have, a floating point number.
module _ (megabits : ℕ → List ℕ) where
  unfoldable pub row_text : Row → List ℕ
  row_text row =
      decimal row.ts
      ++ 44
        ∷ (decimal row.active
            ++ 44
              ∷ (decimal row.failed
                  ++ 44
                    ∷ (decimal row.tx_pixels
                        ++ 44
                          ∷ (decimal row.tx_pps
                              ++ 44 ∷ (decimal row.dps ++ 44 ∷ (megabits row.bytes ++ 10 ∷ []))))))

  unfoldable pub row_texts : List Row → List ℕ
  unfolding row_text
  row_texts [] = []
  row_texts (row ∷ rows) = row_text row ++ row_texts rows

  -- The exporter: the file and what is written to it while it finds these readings.
  unfoldable pub spawn_csv_exporter :
      (List ℕ → Bool) → List ℕ → List ℕ → List (ℕ × LoadMetrics) → Option (List ℕ × List ℕ)
  unfolding open_file row_texts
  spawn_csv_exporter opens metrics_dir worker_id readings =
      elim (open_file opens metrics_dir worker_id) [
        | none ↦ none
        | some path ↦ some (path, header_line ++ row_texts (export_all readings start).0)
      ]
