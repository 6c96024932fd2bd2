-- ===== src/LoadMetrics/Read.antt =====
-- Reading the file of the exporter of client/src/metrics.rs back.
use reddit_puzzle_system_des.Base.{
  ℕ, ◌<◌, ◌==◌, if◌then◌else◌, Bool-cases, inl, inr, Option, none, some, true, false, List, [], ◌∷◌,
  ◌++◌, All, ◌≡◌, ◌≢◌, ◌∙◌, ap, refl, arith, ◌>>=◌,
}
use reddit_puzzle_system_des.Startup.{parse_usize}
use reddit_puzzle_system_des.LoadMetrics.Csv.{decimal}
use reddit_puzzle_system_des.LoadMetrics.Digits.{IsDigit, decimal-IsDigit}

-- The parts of a text between the separators.
abbrev pub attach : ℕ → List (List ℕ) → List (List ℕ)
attach c [] = (c ∷ []) ∷ []
attach c (part ∷ parts) = (c ∷ part) ∷ parts

unfoldable pub split : ℕ → List ℕ → List (List ℕ)
split sep [] = [] ∷ []
split sep (c ∷ text) = let parts = split sep text in if c == sep then [] ∷ parts else attach c parts

-- What a row says; the megabits stay text.
pub record Reading : Type 0 where
  pub ts : ℕ
  pub active : ℕ
  pub failed : ℕ
  pub tx_pixels : ℕ
  pub tx_pps : ℕ
  pub dps : ℕ
  pub megabits : List ℕ

unfoldable pub read_fields : List (List ℕ) → Option Reading
read_fields (ts ∷ active ∷ failed ∷ tx_pixels ∷ tx_pps ∷ dps ∷ megabits ∷ []) = do
  ts ← parse_usize ts
  active ← parse_usize active
  failed ← parse_usize failed
  tx_pixels ← parse_usize tx_pixels
  tx_pps ← parse_usize tx_pps
  dps ← parse_usize dps
  some (record {
    ts = ts;
    active = active;
    failed = failed;
    tx_pixels = tx_pixels;
    tx_pps = tx_pps;
    dps = dps;
    megabits = megabits;
  })
read_fields fields = none

-- Each line ends with a new line, so what is behind the last one is empty.
unfoldable pub read_lines : List (List ℕ) → Option (List Reading)
unfolding read_fields split
read_lines [] = none
read_lines (line ∷ []) = some []
read_lines (line ∷ next ∷ lines) = do
  row ← read_fields (split 44 line)
  rows ← read_lines (next ∷ lines)
  some (row ∷ rows)

-- The title and the rows.
read_parts : List (List ℕ) → Option (List ℕ × List Reading)
read_parts [] = none
read_parts (first ∷ lines) = do rows ← read_lines lines; some (first, rows)

pub read_csv : List ℕ → Option (List ℕ × List Reading)
unfolding read_parts
read_csv text = read_parts (split 10 text)

abbrev pub IsFree : ℕ → List ℕ → Type 0
IsFree sep text = All (λ c. c ≢ sep) text

pub split-nonempty :
    (sep : ℕ) (text : List ℕ)
    → (first : List ℕ) × (parts : List (List ℕ)) × (split sep text ≡ first ∷ parts)
unfolding split
split-nonempty sep [] = ([], [], refl)
split-nonempty sep (c ∷ text) =
    let (first, parts, e) = split-nonempty sep text in
    elim (Bool-cases (c == sep)) [
      | inl here ↦ ([], split sep text, rw here refl)
      | inr other ↦ (c ∷ first, parts, rw (other, e) refl)
    ]

-- A part in front of a separator is split off.
pub split-append :
    (sep : ℕ) (part text : List ℕ)
    → IsFree sep part
    → split sep (part ++ sep ∷ text) ≡ part ∷ split sep text
unfolding split
split-append sep [] text free = let here : (sep == sep) ≡ true = ground arith in rw here refl
split-append sep (c ∷ part) text (first, free) =
    let other : (c == sep) ≡ false = ground (arith, first) in
    rw (other, split-append sep part text free) refl

pub split-free : (sep : ℕ) (text : List ℕ) → IsFree sep text → split sep text ≡ text ∷ []
unfolding split
split-free sep [] free = refl
split-free sep (c ∷ text) (first, free) =
    let other : (c == sep) ≡ false = ground (arith, first) in
    rw (other, split-free sep text free) refl

digits-IsFree : (sep : ℕ) (text : List ℕ) → sep < 48 → All IsDigit text → IsFree sep text
digits-IsFree sep [] low all = tt
digits-IsFree sep (c ∷ text) low (digit, all) =
    ((λ e. omega (arith, digit.0, low, e)), digits-IsFree sep text low all)

pub decimal-IsFree : (sep n : ℕ) → sep < 48 → IsFree sep (decimal n)
decimal-IsFree sep n low = digits-IsFree sep (decimal n) low (decimal-IsDigit n)

pub IsFree-append :
    (sep : ℕ) (xs ys : List ℕ) → IsFree sep xs → IsFree sep ys → IsFree sep (xs ++ ys)
IsFree-append sep [] ys one two = two
IsFree-append sep (x ∷ xs) ys (first, one) two = (first, IsFree-append sep xs ys one two)

-- The first line and the others.
pub read_csv-eq :
    (first text : List ℕ) (rows : List Reading)
    → IsFree 10 first
    → read_lines (split 10 text) ≡ some rows
    → read_csv (first ++ 10 ∷ text) ≡ some (first, rows)
unfolding read_csv read_parts
read_csv-eq first text rows free rest =
    ap read_parts (split-append 10 first text free)
    ∙ ap (λ (read : Option (List Reading)). read >>= λ rs. some (first, rs)) rest
