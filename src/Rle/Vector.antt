-- ===== src/Rle/Vector.antt =====
-- The vector loops of `rle_compress` (server/src/master.rs) leave the run to the plain loop where
-- that loop would be itself.
use native.Mathlib.Nat.{pow-suc, one-le-pow, pow-le-pow_right}
use reddit_puzzle_system_des.Base.{
  ℕ, zero, suc, ◌+◌, ◌-◌, ◌*◌, ◌/◌, ◌%◌, ◌^◌, ◌≤◌, ◌<◌, ltb, leb, ◌==◌, ◌&&◌, Bool, true, false,
  Bool-cases, some, List, [], ◌∷◌, length, take, drop, bit_not, ◌≡◌, ◌≢◌, ◌∙◌, ap, refl, inl, inr,
  arith,
}
use reddit_puzzle_system_des.Rle.{
  Cpu, avx2, sse2, scalar, movemask, trailing_zeros, simd_scan, scan, one_run,
}

-- The list begins with `k` bytes of the colour.
abbrev Begins : ℕ → ℕ → List ℕ → Type 0
Begins color zero xs = Unit
Begins color (suc k) [] = ⊥
Begins color (suc k) (x ∷ xs) = (x ≡ color) × Begins color k xs

scan_skip :
    (color k count : ℕ) (rest : List ℕ)
    → count + k ≤ 255
    → Begins color k rest
    → scan color (count + k) (drop k rest) ≡ scan color count rest
unfolding scan
scan_skip color zero count rest fits b = ap (λ n. scan color n rest) (omega arith)
scan_skip color (suc k) count [] fits b = absurd b
scan_skip color (suc k) count (x ∷ xs) fits b =
    rw (go, scan)
      (ap (λ n. scan color n (drop k xs)) (omega arith)
        ∙ scan_skip color k (count + 1) xs (omega arith) b.1)
  where
    go : (x == color && ltb count 255) ≡ true
    go = ground arith

-- A full mask: every lane holds the colour.
movemask_full :
    (color n : ℕ) (rest : List ℕ)
    → n ≤ length rest
    → movemask color (take n rest) ≡ 2 ^ n - 1
    → Begins color n rest
unfolding movemask
movemask_full color zero rest fits e = tt
movemask_full color (suc n) [] fits e = absurd (omega arith)
movemask_full color (suc n) (x ∷ xs) fits e = elim (Bool-cases (x == color)) [
  | inl same ↦ (
    ground arith,
    movemask_full color n xs (omega arith) (ground (arith, pow-suc 2 n, one-le-pow n 2)),
  )
  | inr other ↦ absurd (ground (arith, pow-suc 2 n, one-le-pow n 2))
]

movemask-lt : (color : ℕ) (xs : List ℕ) (n : ℕ) → movemask color (take n xs) < 2 ^ n
unfolding movemask
movemask-lt color xs zero = omega arith
movemask-lt color [] (suc n) = ground (arith, one-le-pow (suc n) 2)
movemask-lt color (x ∷ xs) (suc n) = ground (arith, pow-suc 2 n, movemask-lt color xs n)

zeros_hit :
    (w m : ℕ)
    → m < 2 ^ w
    → trailing_zeros (suc w) (bit_not (suc w) (1 + 2 * m)) ≡ suc (trailing_zeros w (bit_not w m))
unfolding trailing_zeros
zeros_hit w m h = rw (even, half)
  where
    even : (bit_not (suc w) (1 + 2 * m) % 2 == 0) ≡ true
    even = ground (arith, pow-suc 2 w)

    half : bit_not (suc w) (1 + 2 * m) / 2 ≡ bit_not w m
    half = omega (arith, pow-suc 2 w)

zeros_miss : (w m : ℕ) → m < 2 ^ w → trailing_zeros (suc w) (bit_not (suc w) (0 + 2 * m)) ≡ 0
unfolding trailing_zeros
zeros_miss w m h = rw odd
  where
    odd : (bit_not (suc w) (0 + 2 * m) % 2 == 0) ≡ false
    odd = ground (arith, pow-suc 2 w)

-- Otherwise the zeros at the end of the negated mask count the lanes before the first other byte.
movemask_partial :
    (color n w : ℕ) (rest : List ℕ)
    → n ≤ w
    → n ≤ length rest
    → movemask color (take n rest) ≢ 2 ^ n - 1
    → Begins color (trailing_zeros w (bit_not w (movemask color (take n rest)))) rest
      × (trailing_zeros w (bit_not w (movemask color (take n rest))) < n)
unfolding movemask
movemask_partial color zero w rest wide fits ne = absurd (ne refl)
movemask_partial color (suc n) zero rest wide fits ne = absurd (omega arith)
movemask_partial color (suc n) (suc w) [] wide fits ne = absurd (omega arith)
movemask_partial color (suc n) (suc w) (x ∷ xs) wide fits ne = elim (Bool-cases (x == color)) [
  | inl same ↦
      let (begins, below) =
        movemask_partial color n w xs (omega arith) (omega arith)
          (λ full. ne (rw same (omega (arith, full, pow-suc 2 n, one-le-pow n 2)))) in
      rw (same, zeros_hit w (movemask color (take n xs)) narrow)
        ((ground arith, begins), omega arith)
  | inr other ↦ rw (other, zeros_miss w (movemask color (take n xs)) narrow) (tt, omega arith)
]
  where
    narrow : movemask color (take n xs) < 2 ^ w
    narrow = omega (
      arith,
      movemask-lt color xs n,
      pow-le-pow_right {n = 2} (omega arith) {i = n} {j = w} (omega arith),
    )

abbrev room_left : ℕ → ℕ → List ℕ → Bool
room_left lanes count rest = leb lanes (length rest) && leb (count + lanes) 255

abbrev all_match : ℕ → ℕ → List ℕ → Bool
all_match lanes color rest = movemask color (take lanes rest) == 2 ^ lanes - 1

module _ (lanes fuel color count : ℕ) (rest : List ℕ) (go : room_left lanes count rest ≡ true) where
  simd_scan-full :
      all_match lanes color rest ≡ true
      → simd_scan lanes (suc fuel) color count rest
        ≡ simd_scan lanes fuel color (count + lanes) (drop lanes rest)
  unfolding simd_scan
  simd_scan-full full = rw (go, full, simd_scan)

  simd_scan-partial :
      all_match lanes color rest ≡ false
      → let matching = trailing_zeros 32 (bit_not 32 (movemask color (take lanes rest))) in
        simd_scan lanes (suc fuel) color count rest ≡ some (count + matching, drop matching rest)
  unfolding simd_scan
  simd_scan-partial other = rw (go, other, simd_scan)

-- What the vector loop returns, the plain loop completes to the run that it would have found alone.
simd_scan_lem :
    (lanes fuel color count : ℕ) (rest : List ℕ)
    → 0 < lanes
    → lanes ≤ 32
    → count ≤ 255
    → 255 < count + fuel
    → (s : ℕ × List ℕ) × (simd_scan lanes fuel color count rest ≡ some s)
      × (scan color s.0 s.1 ≡ scan color count rest)
unfolding simd_scan
simd_scan_lem lanes zero color count rest pos small low enough = absurd (omega arith)
simd_scan_lem lanes (suc fuel) color count rest pos small low enough =
    elim (Bool-cases (room_left lanes count rest)) [
      | inr stop ↦ ((count, rest), rw (stop, simd_scan) refl, refl)
      | inl go ↦ elim (Bool-cases (all_match lanes color rest)) [
        | inl full ↦
            let (s, e, same) =
              simd_scan_lem lanes fuel color (count + lanes) (drop lanes rest) pos small
                (ground arith) (omega arith) in
            (
              s,
              simd_scan-full lanes fuel color count rest go full ∙ e,
              same
                  ∙ scan_skip color lanes count rest (ground arith)
                      (movemask_full color lanes rest (ground arith) (ground arith)),
            )
        | inr other ↦
            let (begins, below) =
              movemask_partial color lanes 32 rest small (ground arith) (ground arith) in
            (
              _,
              simd_scan-partial lanes fuel color count rest go other,
              scan_skip color _ count rest (ground arith) begins,
            )
      ]
    ]

-- On every target the run that one round takes is the plain loop's: the vector paths never run
-- out of fuel and change no result.
pub one_run-eq :
    (cpu : Cpu) (color : ℕ) (rest : List ℕ) → one_run cpu color rest ≡ some (scan color 1 rest)
unfolding one_run
one_run-eq avx2 color rest =
    let (s, e, same) =
      simd_scan_lem 32 256 color 1 rest (omega arith) (omega arith) (omega arith) (omega arith) in
    rw e (ap some same)
one_run-eq sse2 color rest =
    let (s, e, same) =
      simd_scan_lem 16 256 color 1 rest (omega arith) (omega arith) (omega arith) (omega arith) in
    rw e (ap some same)
one_run-eq scalar color rest = refl
