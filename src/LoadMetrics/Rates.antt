-- ===== src/LoadMetrics/Rates.antt =====
-- The rows of the exporter of client/src/metrics.rs add up.
use reddit_puzzle_system_des.Base.{ℕ, ◌+◌, ◌%◌, ◌^◌, ◌<◌, List, [], ◌∷◌, All, ◌≡◌, arith}
use reddit_puzzle_system_des.LoadMetrics.{LoadMetrics, Exporter, Row, export_row, export_all}

-- What the rows of a file come to.
abbrev pub total : (Row → ℕ) → List Row → ℕ
total rate [] = 0
total rate (row ∷ rows) = rate row + total rate rows

-- Counters of 64 bits.
pub record IsWord (metrics : LoadMetrics) : Type 0 where
  pub tx : metrics.tx_pixels < 2 ^ 64
  pub dgrams : metrics.rx_datagrams < 2 ^ 64
  pub bytes : metrics.rx_bytes < 2 ^ 64

pub record IsFrom (x : Exporter) : Type 0 where
  pub tx : x.last_tx < 2 ^ 64
  pub dgrams : x.last_dgrams < 2 ^ 64
  pub bytes : x.last_bytes < 2 ^ 64

-- What was last reported and the rows since then come to what is reported at the end.
pub record AddUp (x x' : Exporter) (rows : List Row) : Type 0 where
  pub tx : (x.last_tx + total (λ row. row.tx_pps) rows) % 2 ^ 64 ≡ x'.last_tx
  pub dgrams : (x.last_dgrams + total (λ row. row.dps) rows) % 2 ^ 64 ≡ x'.last_dgrams
  pub bytes : (x.last_bytes + total (λ row. row.bytes) rows) % 2 ^ 64 ≡ x'.last_bytes

-- Whatever the exporter finds in counters of 64 bits, also when they wrap between two rows, the
-- rates of its rows add up, on 64 bits, to the growth of the counters from the first report to the last:
-- no pixel, datagram or byte is reported twice or left out.
pub export_all_lem :
    (readings : List (ℕ × LoadMetrics)) (x : Exporter)
    → All (λ reading. IsWord (reading.1)) readings
    → IsFrom x
    → AddUp x (export_all readings x).1 (export_all readings x).0
unfolding export_all export_row
export_all_lem [] x words from = record {
  tx = omega (arith, from.tx);
  dgrams = omega (arith, from.dgrams);
  bytes = omega (arith, from.bytes);
}
export_all_lem ((ts, metrics) ∷ readings) x (word, words) from =
    let next = (export_row ts metrics x).1 in
    let rest =
      export_all_lem readings next words
        (record { tx = word.tx; dgrams = word.dgrams; bytes = word.bytes }) in
    record {
      tx = omega (arith, from.tx, word.tx, rest.tx);
      dgrams = omega (arith, from.dgrams, word.dgrams, rest.dgrams);
      bytes = omega (arith, from.bytes, word.bytes, rest.bytes);
    }
