-- ===== src/LoadMetrics/RoundTrip.antt =====
-- What the exporter of client/src/metrics.rs writes can be read back.
use reddit_puzzle_system_des.Base.{
  ℕ, ◌^◌, ◌<◌, some, List, [], ◌∷◌, ◌++◌, append_assoc, append-nil, map, All, ◌≡◌, ◌∙◌, ap, sym,
  subst, refl, arith,
}
use reddit_puzzle_system_des.LoadMetrics.{Row}
use reddit_puzzle_system_des.LoadMetrics.Csv.{decimal, row_text, row_texts}
use reddit_puzzle_system_des.LoadMetrics.Digits.{parse_usize-decimal}
use reddit_puzzle_system_des.LoadMetrics.Read.{
  split, Reading, read_fields, read_lines, IsFree, split-nonempty, split-append, split-free,
  decimal-IsFree, IsFree-append,
}

-- The fields with a comma between them, in front of the rest.
abbrev joined : List (List ℕ) → List ℕ → List ℕ
joined [] rest = rest
joined (field ∷ []) rest = field ++ rest
joined (field ∷ next ∷ fields) rest = field ++ 44 ∷ joined (next ∷ fields) rest

joined-append :
    (fields : List (List ℕ)) (rest text : List ℕ)
    → joined fields rest ++ text ≡ joined fields (rest ++ text)
joined-append [] rest text = refl
joined-append (field ∷ []) rest text = append_assoc field rest text
joined-append (field ∷ next ∷ fields) rest text =
    append_assoc field (44 ∷ joined (next ∷ fields) rest) text
    ∙ ap (λ xs. field ++ 44 ∷ xs) (joined-append (next ∷ fields) rest text)

split-joined :
    (field : List ℕ) (fields : List (List ℕ))
    → All (IsFree 44) (field ∷ fields)
    → split 44 (joined (field ∷ fields) []) ≡ field ∷ fields
split-joined field [] (free, _) = ap (split 44) (append-nil field) ∙ split-free 44 field free
split-joined field (next ∷ fields) (free, others) =
    split-append 44 field (joined (next ∷ fields) []) free
    ∙ ap (λ parts. field ∷ parts) (split-joined next fields others)

joined-IsFree : (fields : List (List ℕ)) → All (IsFree 10) fields → IsFree 10 (joined fields [])
joined-IsFree [] all = tt
joined-IsFree (field ∷ []) (free, _) = subst (IsFree 10) (sym (append-nil field)) free
joined-IsFree (field ∷ next ∷ fields) (free, others) =
    IsFree-append 10 field (44 ∷ joined (next ∷ fields) []) free
      ((λ e. omega (arith, e)), joined-IsFree (next ∷ fields) others)

-- The numbers of a row that the counters and the clock give.
pub record Fits (row : Row) : Type 0 where
  pub ts : row.ts < 2 ^ 64
  pub active : row.active < 2 ^ 64
  pub failed : row.failed < 2 ^ 64
  pub tx_pixels : row.tx_pixels < 2 ^ 64
  pub tx_pps : row.tx_pps < 2 ^ 64
  pub dps : row.dps < 2 ^ 64

module _ (megabits : ℕ → List ℕ) where
  -- The text of a number has neither a comma nor a new line.
  abbrev pub IsField : Type 0
  IsField = (n : ℕ) → IsFree 44 (megabits n) × IsFree 10 (megabits n)

  abbrev pub reading_of : Row → Reading
  reading_of row = record {
    ts = row.ts;
    active = row.active;
    failed = row.failed;
    tx_pixels = row.tx_pixels;
    tx_pps = row.tx_pps;
    dps = row.dps;
    megabits = megabits row.bytes;
  }

  abbrev fields : Row → List (List ℕ)
  fields row =
      decimal row.ts
      ∷ decimal row.active
      ∷ decimal row.failed
      ∷ decimal row.tx_pixels
      ∷ decimal row.tx_pps
      ∷ decimal row.dps
      ∷ megabits row.bytes
      ∷ []

  row_text-append :
      (row : Row) (text : List ℕ)
      → row_text megabits row ++ text ≡ joined (fields row) [] ++ 10 ∷ text
  unfolding row_text
  row_text-append row text =
      joined-append (fields row) (10 ∷ []) text ∙ sym (joined-append (fields row) [] (10 ∷ text))

  read_fields-fields : (row : Row) → Fits row → read_fields (fields row) ≡ some (reading_of row)
  unfolding read_fields
  read_fields-fields row fits =
      rw
        (
          parse_usize-decimal row.ts fits.ts,
          parse_usize-decimal row.active fits.active,
          parse_usize-decimal row.failed fits.failed,
          parse_usize-decimal row.tx_pixels fits.tx_pixels,
          parse_usize-decimal row.tx_pps fits.tx_pps,
          parse_usize-decimal row.dps fits.dps,
        )
        refl

  module _ (clean : IsField) where
    fields-IsFree :
        (sep : ℕ) (row : Row)
        → sep < 48
        → IsFree sep (megabits row.bytes)
        → All (IsFree sep) (fields row)
    fields-IsFree sep row low last =
        let number : (n : ℕ) → IsFree sep (decimal n) = λ n. decimal-IsFree sep n low in
        (
          number row.ts,
          (
            number row.active,
            (
              number row.failed,
              (number row.tx_pixels, (number row.tx_pps, (number row.dps, (last, tt)))),
            ),
          ),
        )

    read_line :
        (row : Row)
        → Fits row
        → read_fields (split 44 (joined (fields row) [])) ≡ some (reading_of row)
    read_line row fits =
        ap read_fields (split-joined _ _ (fields-IsFree 44 row (omega arith) (clean row.bytes).0))
        ∙ read_fields-fields row fits

    read_more :
        (row : Row) (rows : List Row) (next : List ℕ) (lines : List (List ℕ))
        → Fits row
        → read_lines (next ∷ lines) ≡ some (map reading_of rows)
        → read_lines (joined (fields row) [] ∷ next ∷ lines) ≡ some (map reading_of (row ∷ rows))
    unfolding read_lines
    read_more row rows next lines fits rest = rw (read_line row fits, rest) refl

    pub read_rows :
        (rows : List Row)
        → All Fits rows
        → read_lines (split 10 (row_texts megabits rows)) ≡ some (map reading_of rows)
    unfolding row_texts read_lines split
    read_rows [] all = refl
    read_rows (row ∷ rows) (fits, all) =
        let text = row_texts megabits rows in
        let line_free =
          joined-IsFree (fields row) (fields-IsFree 10 row (omega arith) (clean row.bytes).1) in
        let (first, lines, e) = split-nonempty 10 text in
        rw (row_text-append row text, split-append 10 (joined (fields row) []) text line_free, e)
          (read_more row rows first lines fits (ap read_lines (sym e) ∙ read_rows rows all))
