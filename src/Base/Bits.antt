-- ===== src/Base/Bits.antt =====
-- `&`, `|`, `!` and single bits of machine words, as arithmetic.
use Prim.Native.Nat.{
  ℕ, zero, suc, ◌+◌, ◌-◌, ◌*◌, ◌/◌, ◌%◌, ◌^◌, ◌≤◌, ◌<◌, min, max, bit_and, bit_or, digits, bitwise,
  bit_and-bitwise, bit_or-bitwise,
}
use mathlib.Core.Path.{◌≡◌, refl, ap, sym, ◌∙◌}
use mathlib.Core.WellFounded
use native.Mathlib.Nat.{mul-add, pow-suc, one-le-pow}
use native.Mathlib.Omega.{arith}
use reddit_puzzle_system_des.Base.Order.{lt_wf}
use reddit_puzzle_system_des.Base.Tests.{◌==◌, if◌then◌else◌}

-- Recursion on the binary digits of a number.
half_induction {ℓ} : (P : ℕ → Type ℓ) → P 0 → ((n : ℕ) → P (suc n / 2) → P (suc n)) → (n : ℕ) → P n
half_induction P base halve n = WellFounded.induction lt_wf {C = P} n from_below
  where
    from_below : (k : ℕ) → ((m : ℕ) → m < k → P m) → P k
    from_below zero below = base
    from_below (suc k) below = halve k (below (suc k / 2) (omega arith))

-- The count of digits of the native operations may be any that is large enough.
module _ (at_end : ℕ → ℕ) (op : ℕ → ℕ → ℕ) where
  digits-zero : (count y : ℕ) → digits at_end op count 0 y ≡ at_end y
  digits-zero zero y = refl
  digits-zero (suc count) y = refl

  digits-suc :
      (count x y : ℕ) → x ≤ count → digits at_end op (suc count) x y ≡ digits at_end op count x y
  digits-suc count zero y enough = digits-zero (suc count) y ∙ sym (digits-zero count y)
  digits-suc zero (suc x) y enough = absurd (omega arith)
  digits-suc (suc count) (suc x) y enough =
      ap (λ high. high * 2 + op (suc x % 2) (y % 2))
        (digits-suc count (suc x / 2) (y / 2) (omega arith))

  digits_spare : (spare x y : ℕ) → digits at_end op (spare + x) x y ≡ digits at_end op x x y
  digits_spare zero x y = ap (λ count. digits at_end op count x y) (omega arith)
  digits_spare (suc spare) x y =
      ap (λ count. digits at_end op count x y) {y = suc (spare + x)} (omega arith)
      ∙ digits-suc (spare + x) x y (omega arith)
      ∙ digits_spare spare x y

  bitwise-halves :
      (x y : ℕ)
      → bitwise at_end op (suc x) y
        ≡ op (suc x % 2) (y % 2) + 2 * bitwise at_end op (suc x / 2) (y / 2)
  bitwise-halves x y =
      let half = suc x / 2 in
      let gap : x - half + half ≡ x = omega arith in
      let fitted = ap (λ count. digits at_end op count half (y / 2)) gap in
      omega (arith, fitted, digits_spare (x - half) half (y / 2))

-- `&` and `|` by their lowest digit and the halves.
bit_and-halves : (x y : ℕ) → bit_and x y ≡ min (x % 2) (y % 2) + 2 * bit_and (x / 2) (y / 2)
bit_and-halves zero y = rw (bit_and-bitwise 0 y, bit_and-bitwise 0 (y / 2)) (omega arith)
bit_and-halves (suc x) y =
    rw (bit_and-bitwise (suc x) y, bit_and-bitwise (suc x / 2) (y / 2))
      (bitwise-halves (λ rest. 0) min x y)

bit_or-halves : (x y : ℕ) → bit_or x y ≡ max (x % 2) (y % 2) + 2 * bit_or (x / 2) (y / 2)
bit_or-halves zero y = rw (bit_or-bitwise 0 y, bit_or-bitwise 0 (y / 2)) (omega arith)
bit_or-halves (suc x) y =
    rw (bit_or-bitwise (suc x) y, bit_or-bitwise (suc x / 2) (y / 2))
      (bitwise-halves (λ rest. rest) max x y)

bit_and-none : (x : ℕ) → bit_and x 0 ≡ 0
bit_and-none =
    half_induction (λ x. bit_and x 0 ≡ 0) refl (λ n ih. omega (arith, ih, bit_and-halves (suc n) 0))

pub bit_or-none : (x : ℕ) → bit_or x 0 ≡ x
bit_or-none =
    half_induction (λ x. bit_or x 0 ≡ x) refl (λ n ih. omega (arith, ih, bit_or-halves (suc n) 0))

-- Bit `k` of `x`.
pub bit : ℕ → ℕ → ℕ
bit zero x = x % 2
bit (suc k) x = bit k (x / 2)

pub bit-le-one : (k x : ℕ) → bit k x ≤ 1
unfolding bit
bit-le-one zero x = omega arith
bit-le-one (suc k) x = bit-le-one k (x / 2)

pub bit-zero : (k : ℕ) → bit k 0 ≡ 0
unfolding bit
bit-zero zero = refl
bit-zero (suc k) = bit-zero k

pub bit-bit_or : (k a b : ℕ) → bit k (bit_or a b) ≡ max (bit k a) (bit k b)
unfolding bit
bit-bit_or zero a b = omega (arith, bit_or-halves a b)
bit-bit_or (suc k) a b = rw half (bit-bit_or k (a / 2) (b / 2))
  where
    half : bit_or a b / 2 ≡ bit_or (a / 2) (b / 2)
    half = omega (arith, bit_or-halves a b)

pub bit-bit_and : (k a b : ℕ) → bit k (bit_and a b) ≡ min (bit k a) (bit k b)
unfolding bit
bit-bit_and zero a b = omega (arith, bit_and-halves a b)
bit-bit_and (suc k) a b = rw half (bit-bit_and k (a / 2) (b / 2))
  where
    half : bit_and a b / 2 ≡ bit_and (a / 2) (b / 2)
    half = omega (arith, bit_and-halves a b)

half-pow : (k : ℕ) → 2 ^ suc k / 2 ≡ 2 ^ k
half-pow k = omega (arith, pow-suc 2 k)

-- A field moved up by one more digit.
shift-suc : (k high : ℕ) → high * 2 ^ suc k ≡ high * 2 ^ k + high * 2 ^ k
shift-suc k high =
    let doubled : 2 ^ suc k ≡ 2 ^ k + 2 ^ k = omega (arith, pow-suc 2 k) in
    rw doubled (mul-add high (2 ^ k) (2 ^ k))

-- `x & (1 << k)` is bit `k` in its place.
pub bit_and-pow : (k a : ℕ) → bit_and a (2 ^ k) ≡ bit k a * 2 ^ k
unfolding bit
bit_and-pow zero a = omega (arith, bit_and-halves a 1, bit_and-none (a / 2))
bit_and-pow (suc k) a =
    rw (bit_and-halves a (2 ^ suc k), half-pow k, bit_and-pow k (a / 2))
      (omega (arith, shift-suc k (bit k (a / 2)), pow-suc 2 k))

-- Two bit positions differ exactly where their powers do.
pub bit-pow : (j k : ℕ) → bit j (2 ^ k) ≡ (if k == j then 1 else 0)
unfolding bit
bit-pow zero zero = refl
bit-pow zero (suc k) = ground (arith, pow-suc 2 k)
bit-pow (suc j) zero = bit-zero j ∙ ground arith
bit-pow (suc j) (suc k) = rw half-pow (ground (arith, bit-pow j k))

-- `low | (high << k)` is a sum when `low` has at most `k` digits, and the mask of `k` digits takes
-- `low` out of it.
pub bit_or-shifted : (k low high : ℕ) → low < 2 ^ k → bit_or low (high * 2 ^ k) ≡ low + high * 2 ^ k
bit_or-shifted zero zero high few = bit_or-bitwise 0 (high * 2 ^ 0) ∙ omega arith
bit_or-shifted zero (suc low) high few = absurd (omega arith)
bit_or-shifted (suc k) low high few =
    let ih = bit_or-shifted k (low / 2) high (omega (arith, pow-suc 2 k)) in
    ground (arith, ih, shift-suc k high, bit_or-halves low (high * 2 ^ suc k))

mask-shifted : (k low high : ℕ) → low < 2 ^ k → bit_and (low + high * 2 ^ k) (2 ^ k - 1) ≡ low
mask-shifted zero low high few = bit_and-none (low + high * 1) ∙ omega arith
mask-shifted (suc k) low high few =
    let ih = mask-shifted k (low / 2) high (omega (arith, pow-suc 2 k)) in
    let split = bit_and-halves (low + high * 2 ^ suc k) (2 ^ suc k - 1) in
    ground (arith, ih, split, shift-suc k high, pow-suc 2 k, one-le-pow k 2)

pub bit_and_mask : (k x : ℕ) → bit_and x (2 ^ k - 1) ≡ x % 2 ^ k
bit_and_mask k x =
    let ih = mask-shifted k (x % 2 ^ k) (x / 2 ^ k) (ground (arith, one-le-pow k 2)) in
    ground (arith, ih, one-le-pow k 2)

-- `!x` of a `w`-bit word.
abbrev pub bit_not : ℕ → ℕ → ℕ
bit_not w x = 2 ^ w - 1 - x

-- Without its three lowest bits a 64-bit word is the multiple of 8 below it.
pub bit_and_clear : (x : ℕ) → x < 2 ^ 64 → bit_and x (bit_not 64 7) ≡ x / 8 * 8
bit_and_clear x small = omega (
  arith,
  bit_and-halves x (bit_not 64 7),
  bit_and-halves (x / 2) (bit_not 63 3),
  bit_and-halves (x / 2 / 2) (bit_not 62 1),
  bit_and_mask 61 (x / 2 / 2 / 2),
)

pub bit-bit_not : (k w x : ℕ) → k < w → x < 2 ^ w → bit k (bit_not w x) ≡ 1 - bit k x
unfolding bit
bit-bit_not k zero x h fits = absurd (omega arith)
bit-bit_not zero (suc w) x h fits = omega (arith, pow-suc 2 w)
bit-bit_not (suc k) (suc w) x h fits = rw half (bit-bit_not k w (x / 2) (omega arith) smaller)
  where
    half : bit_not (suc w) x / 2 ≡ bit_not w (x / 2)
    half = omega (arith, pow-suc 2 w)

    smaller : x / 2 < 2 ^ w
    smaller = omega (arith, pow-suc 2 w)

-- `|` stays within the word, and `&` below both operands' bound.
pub bit_or-lt : (w a b : ℕ) → a < 2 ^ w → b < 2 ^ w → bit_or a b < 2 ^ w
bit_or-lt zero a b p q = ground (arith, bit_or-none a)
bit_or-lt (suc w) a b p q = omega (
  arith,
  pow-suc 2 w,
  bit_or-halves a b,
  bit_or-lt w (a / 2) (b / 2) (omega (arith, pow-suc 2 w)) (omega (arith, pow-suc 2 w)),
)

pub bit_and-lt : (w a b : ℕ) → a < 2 ^ w → bit_and a b < 2 ^ w
bit_and-lt zero zero b p = omega (arith, bit_and-bitwise 0 b)
bit_and-lt zero (suc a) b p = absurd (omega arith)
bit_and-lt (suc w) a b p = omega (
  arith,
  pow-suc 2 w,
  bit_and-halves a b,
  bit_and-lt w (a / 2) (b / 2) (omega (arith, pow-suc 2 w)),
)
