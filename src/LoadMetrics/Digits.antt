-- ===== src/LoadMetrics/Digits.antt =====
-- The decimal digits of client/src/metrics.rs, and the numbers that server/src/main.rs reads.
use reddit_puzzle_system_des.Base.{
  ℕ, zero, suc, ◌+◌, ◌-◌, ◌*◌, ◌/◌, ◌%◌, ◌^◌, ◌≤◌, ◌<◌, ◌==◌, Bool-cases, inl, inr, some, true,
  false, length, List, [], ◌∷◌, All, ◌≡◌, ◌∙◌, ap, refl, arith,
}
use reddit_puzzle_system_des.Startup.{digits, parse_usize}
use reddit_puzzle_system_des.LoadMetrics.Csv.{decimal_loop, decimal}

abbrev pub IsDigit : ℕ → Type 0
IsDigit c = (48 ≤ c) × (c ≤ 57)

-- The numbers of at most that many digits are below this.
abbrev tens : ℕ → ℕ
tens zero = 1
tens (suc count) = 10 * tens count

decimal_loop-IsDigit :
    (fuel n : ℕ) (rest : List ℕ) → All IsDigit rest → All IsDigit (decimal_loop fuel n rest)
unfolding decimal_loop
decimal_loop-IsDigit zero n rest all = all
decimal_loop-IsDigit (suc fuel) n rest all =
    let last : IsDigit (48 + n % 10) = (omega arith, omega arith) in
    elim (Bool-cases (n / 10 == 0)) [
      | inl short ↦ rw short (last, all)
      | inr long ↦ rw long (decimal_loop-IsDigit fuel (n / 10) ((48 + n % 10) ∷ rest) (last, all))
    ]

digits-step :
    (value n : ℕ) (rest : List ℕ)
    → n < 2 ^ 64
    → value ≡ n / 10
    → digits value ((48 + n % 10) ∷ rest) ≡ digits n rest
unfolding digits
digits-step value n rest fits e =
    let next : value * 10 + (48 + n % 10 - 48) ≡ n = omega (arith, e) in
    ground (arith, next, ap (λ k. digits k rest) next, fits)

digits-decimal_loop :
    (fuel n : ℕ) (rest : List ℕ)
    → n < tens (suc fuel)
    → n < 2 ^ 64
    → digits 0 (decimal_loop (suc fuel) n rest) ≡ digits n rest
unfolding decimal_loop
digits-decimal_loop zero n rest few fits =
    let short : (n / 10 == 0) ≡ true = ground (arith, few) in
    rw short (digits-step 0 n rest fits (omega (arith, few)))
digits-decimal_loop (suc fuel) n rest few fits = elim (Bool-cases (n / 10 == 0)) [
  | inl short ↦ rw short (digits-step 0 n rest fits (ground (arith, short)))
  | inr long ↦ rw long (
      digits-decimal_loop fuel (n / 10) ((48 + n % 10) ∷ rest) (omega (arith, few))
        (omega (arith, fits))
      ∙ digits-step (n / 10) n rest fits refl)
]

length-decimal_loop : (fuel n : ℕ) (rest : List ℕ) → length rest ≤ length (decimal_loop fuel n rest)
unfolding decimal_loop
length-decimal_loop zero n rest = omega arith
length-decimal_loop (suc fuel) n rest = elim (Bool-cases (n / 10 == 0)) [
  | inl short ↦ rw short (omega arith)
  | inr long ↦ rw long (omega (arith, length-decimal_loop fuel (n / 10) ((48 + n % 10) ∷ rest)))
]

length-decimal : (n : ℕ) → 1 ≤ length (decimal n)
unfolding decimal_loop
length-decimal n = elim (Bool-cases (n / 10 == 0)) [
  | inl short ↦ rw short (omega arith)
  | inr long ↦ rw long (length-decimal_loop 19 (n / 10) ((48 + n % 10) ∷ []))
]

parse_usize-eq :
    (text : List ℕ) → All IsDigit text → 1 ≤ length text → parse_usize text ≡ digits 0 text
unfolding parse_usize
parse_usize-eq [] all some_digit = absurd (omega (arith, some_digit))
parse_usize-eq (c ∷ []) all some_digit = refl
parse_usize-eq (c ∷ d ∷ rest) (first, all) some_digit =
    let no_plus : (c == 43) ≡ false = ground (arith, first.0) in rw no_plus refl

pub decimal-IsDigit : (n : ℕ) → All IsDigit (decimal n)
decimal-IsDigit n = decimal_loop-IsDigit 20 n [] tt

-- Reading the decimal digits of a number of 64 bits gives the number back.
pub parse_usize-decimal : (n : ℕ) → n < 2 ^ 64 → parse_usize (decimal n) ≡ some n
unfolding digits
parse_usize-decimal n fits =
    parse_usize-eq (decimal n) (decimal-IsDigit n) (length-decimal n)
    ∙ digits-decimal_loop 19 n [] (omega (arith, fits)) fits
