-- ===== src/Settings/Depth.antt =====
-- The submission queue depth of server/src/const_settings.rs is the power of two next to its target.
use native.Mathlib.Nat.{pow-suc, one-le-pow, pow-le-pow_right, div-eq_of_lt}
use native.Mathlib.Decide.{dec_lt}
use reddit_puzzle_system_des.Base.{
  ℕ, zero, suc, ◌-◌, ◌*◌, ◌/◌, ◌%◌, ◌^◌, ltb, true, false, none, some, ◌⊎◌, ◌≤◌, ◌<◌, ◌≡◌, ◌≢◌,
  refl, inl, inr, arith, ◌==◌, Bool-cases,
}
use reddit_puzzle_system_des.Settings.{io_uring_num_buffers, leading_zeros, next_power_of_two}

leading_zeros-le : (w x : ℕ) → leading_zeros w x ≤ w
unfolding leading_zeros
leading_zeros-le zero x = omega arith
leading_zeros-le (suc w) x = ground (arith, leading_zeros-le w x)

le_of_div-ne-zero : (x p : ℕ) → x / p ≢ 0 → p ≤ x
le_of_div-ne-zero x p ne = elim (dec_lt x p) [
  | yes small ↦ absurd (ne (div-eq_of_lt small))
  | no big ↦ omega arith
]

sub_suc : (w k : ℕ) → suc w - suc k ≡ w - k
sub_suc w k = omega arith

sub_zero : (w : ℕ) → suc w - 0 ≡ suc w
sub_zero w = omega arith

-- What is left of the word after its leading zeros just holds `x`.
leading_zeros_bracket :
    (w x : ℕ)
    → 0 < x
    → x < 2 ^ w
    → (x < 2 ^ (w - leading_zeros w x)) × (2 ^ (w - leading_zeros w x) ≤ 2 * x)
unfolding leading_zeros
leading_zeros_bracket zero x pos fits = absurd (omega arith)
leading_zeros_bracket (suc w) x pos fits = elim (Bool-cases (x / 2 ^ w == 0)) [
  | inl top ↦
      rw (top, sub_suc w (leading_zeros w x))
        (leading_zeros_bracket w x pos (ground (arith, one-le-pow w 2)))
  | inr top ↦ rw (top, sub_zero w) (ground (arith, le_of_div-ne-zero x (2 ^ w), pow-suc 2 w))
]

-- What is left of a word after the leading zeros of the number below it, when that is zero too.
just_above :
    (word : ℕ)
    → 0 < word
    → word < 2 ^ 32
    → (word ≤ 2 ^ (32 - leading_zeros 32 (word - 1)))
      × (2 ^ (32 - leading_zeros 32 (word - 1)) < 2 * word)
unfolding leading_zeros
just_above zero pos fits = absurd (omega arith)
just_above (suc zero) pos fits = (omega arith, omega arith)
just_above (suc (suc x)) pos fits =
    let (above, below) = leading_zeros_bracket 32 (suc x) (omega arith) (omega (arith, fits)) in
    let same : suc (suc x) - 1 ≡ suc x = omega arith in
    rw same (omega (arith, above), omega (arith, below))

shift_fits : (shift word : ℕ) → 2 ^ shift < 2 * word → word ≤ 2 ^ 31 → shift < 32
shift_fits shift word below small = elim (dec_lt shift 32) [
  | yes fits ↦ fits
  | no far ↦
      let wide : 2 ^ 32 ≤ 2 ^ shift =
        pow-le-pow_right {n = 2} (omega arith) {i = 32} {j = shift} (omega (arith, far)) in
      absurd (omega (arith, wide, below, small))
]

shift_overflows : (shift word : ℕ) → word ≤ 2 ^ shift → 2 ^ 31 < word → 32 ≤ shift
shift_overflows shift word above large = elim (dec_lt shift 32) [
  | yes fits ↦
      let narrow : 2 ^ shift ≤ 2 ^ 31 =
        pow-le-pow_right {n = 2} (omega arith) {i = shift} {j = 31} (omega (arith, fits)) in
      absurd (omega (arith, narrow, above, large))
  | no far ↦ omega (arith, far)
]

-- For every target, whose low 32 bits are the number `w`: from 1 to 2 ^ 31, the depth is the power of
-- two that is at least `w` and less than twice `w`; for 0 and from there on there is none, because
-- the subtraction or the shift overflows.
pub next_power_of_two_bounds :
    (target : ℕ)
    → let w = target % 2 ^ 32 in
      ((k : ℕ) × (1 ≤ w)
        × (w ≤ 2 ^ 31)
        × (next_power_of_two target ≡ some (2 ^ k))
        × (w ≤ 2 ^ k)
        × (2 ^ k < 2 * w))
      ⊎ (((w ≡ 0) ⊎ (2 ^ 31 < w)) × (next_power_of_two target ≡ none))
unfolding next_power_of_two
next_power_of_two_bounds target =
    let w = target % 2 ^ 32 in
    let shift = 32 - leading_zeros 32 (w - 1) in
    elim (Bool-cases (w == 0)) [
      | inl empty ↦ inr (inl (ground (arith, empty)), rw empty refl)
      | inr full ↦
          let pos : 0 < w = ground (arith, full) in
          let (above, below) = just_above w pos (omega arith) in
          elim (dec_lt (2 ^ 31) w) [
            | yes large ↦
                let over : ltb shift 32 ≡ false =
                  ground (arith, shift_overflows shift w above large) in
                inr (inr large, rw (full, over) refl)
            | no small ↦
                let w-le : w ≤ 2 ^ 31 = omega (arith, small) in
                let fits : ltb shift 32 ≡ true = ground (arith, shift_fits shift w below w-le) in
                inl (shift, pos, w-le, rw (full, fits) refl, above, below)
          ]
    ]

-- The number of receive buffers at the configured sizes.
pub io_uring_num_buffers_lem : io_uring_num_buffers ≡ 16_384
unfolding io_uring_num_buffers
io_uring_num_buffers_lem = refl
