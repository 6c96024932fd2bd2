-- ===== src/Rle/Compress.antt =====
-- What `rle_compress` of server/src/master.rs writes.
use reddit_puzzle_system_des.Base.{
  ℕ, zero, suc, ◌+◌, ◌*◌, ◌%◌, ◌≤◌, ltb, ◌==◌, ◌&&◌, Bool-cases, Option, some, List, [], ◌∷◌, ◌++◌,
  append_assoc, length, length-append, length-replicate, replicate, drop, store, store-append, ◌≡◌,
  ◌∙◌, ap, ap₂, sym, refl, fun_ext, inl, inr, arith, ◌>>=◌,
}
use reddit_puzzle_system_des.Rle.{Cpu, scalar, scan, compress_loop, rle_compress}
use reddit_puzzle_system_des.Rle.Vector.{one_run-eq}

-- The bytes that a list of (count, colour) pairs stands for.
unfoldable pub expand : List ℕ → List ℕ
expand [] = []
expand (count ∷ []) = []
expand (count ∷ color ∷ rest) = replicate count color ++ expand rest

-- Whole pairs, each with a count that a byte holds and that is not 0.
abbrev pub IsRuns : List ℕ → Type 0
IsRuns [] = Unit
IsRuns (count ∷ []) = ⊥
IsRuns (count ∷ color ∷ rest) = (1 ≤ count) × (count ≤ 255) × IsRuns rest

-- The plain loop splits off copies of the colour, at most 255 with those counted before.
scan_run :
    (color count : ℕ) (rest : List ℕ)
    → count ≤ 255
    → let (n, rest') = scan color count rest in
      (k : ℕ) × (n ≡ count + k) × (n ≤ 255) × (rest ≡ replicate k color ++ rest')
unfolding scan replicate
scan_run color count [] low = (0, omega arith, omega arith, refl)
scan_run color count (x ∷ xs) low = elim (Bool-cases (x == color && ltb count 255)) [
  | inl go ↦
      let (k, n, below, e) = scan_run color (count + 1) xs (ground arith) in
      rw (go, scan) (suc k, omega arith, below, ground (arith, e))
  | inr stop ↦ rw (stop, scan) (0, omega arith, low, refl)
]

-- What a run writes and goes on with.
module _ (cpu : Cpu) (fuel color : ℕ) (rest dst : List ℕ) (dst_idx : ℕ) where
  abbrev run_of : ℕ × List ℕ
  run_of = scan color 1 rest

  compress_loop-suc : compress_loop cpu (suc fuel) (color ∷ rest) dst dst_idx ≡ (do
    dst₁ ← store dst dst_idx (run_of.0 % 256)
    dst₂ ← store dst₁ (dst_idx + 1) color
    compress_loop cpu fuel run_of.1 dst₂ (dst_idx + 2))
  unfolding compress_loop
  compress_loop-suc = rw (one_run-eq cpu color rest)

compress_loop-scalar :
    (cpu : Cpu) (fuel : ℕ) (src dst : List ℕ) (dst_idx : ℕ)
    → compress_loop cpu fuel src dst dst_idx ≡ compress_loop scalar fuel src dst dst_idx
unfolding compress_loop
compress_loop-scalar cpu zero [] dst dst_idx = refl
compress_loop-scalar cpu (suc fuel) [] dst dst_idx = refl
compress_loop-scalar cpu zero (color ∷ rest) dst dst_idx = refl
compress_loop-scalar cpu (suc fuel) (color ∷ rest) dst dst_idx =
    compress_loop-suc cpu fuel color rest dst dst_idx
    ∙ ap
        (λ (k : List ℕ → Option (List ℕ × ℕ)).
          store dst dst_idx ((scan color 1 rest).0 % 256) >>= λ d.
          store d (dst_idx + 1) color >>= k)
        (fun_ext λ d. compress_loop-scalar cpu fuel (scan color 1 rest).1 d (dst_idx + 2))
    ∙ sym (compress_loop-suc scalar fuel color rest dst dst_idx)

-- The AVX2 path, the SSE2 path and the plain loop agree on every input and every buffer, panics
-- included.
pub rle_compress-scalar :
    (cpu : Cpu) (src dst : List ℕ) → rle_compress cpu src dst ≡ rle_compress scalar src dst
unfolding rle_compress
rle_compress-scalar cpu [] dst = refl
rle_compress-scalar cpu (x ∷ xs) dst = compress_loop-scalar cpu (length (x ∷ xs)) (x ∷ xs) dst 0

-- Pairs for the source, in the buffer behind a prefix; what lies beyond them stays.
abbrev Written : Option (List ℕ × ℕ) → List ℕ → List ℕ → List ℕ → Type 0
Written result src pre old =
    (out : List ℕ) × (result
      ≡ some (pre ++ (out ++ drop (length out) old), length pre + length out))
    × (expand out ≡ src)
    × IsRuns out
    × (length out ≤ 2 * length src)

-- One round in front of a rest that is written already.
written_step :
    (cpu : Cpu) (fuel color : ℕ) (rest pre old : List ℕ) (a b dst_idx n : ℕ) (rest' : List ℕ)
    → dst_idx ≡ length pre
    → n ≤ 255
    → scan color 1 rest ≡ (n, rest')
    → compress_loop cpu (suc fuel) (color ∷ rest) (pre ++ a ∷ b ∷ old) dst_idx
      ≡ compress_loop cpu fuel rest' ((pre ++ n ∷ color ∷ []) ++ old) (dst_idx + 2)
written_step cpu fuel color rest pre old a b dst_idx n rest' at low e =
    let byte : n % 256 ≡ n = omega arith in
    let shift : (pre ++ n ∷ []) ++ color ∷ old ≡ (pre ++ n ∷ color ∷ []) ++ old =
      append_assoc pre (n ∷ []) (color ∷ old) ∙ sym (append_assoc pre (n ∷ color ∷ []) old) in
    compress_loop-suc cpu fuel color rest (pre ++ a ∷ b ∷ old) dst_idx
    ∙ rw
        (
          e,
          byte,
          store-append pre (b ∷ old) a n dst_idx at,
          ← append_assoc pre (n ∷ []) (b ∷ old),
          store-append (pre ++ n ∷ []) old b color (dst_idx + 1)
              (omega (arith, at, length-append pre (n ∷ []))),
        )
        (ap (λ l. compress_loop cpu fuel rest' l (dst_idx + 2)) shift)

run_length :
    (k color : ℕ) {rest : List ℕ} (rest' : List ℕ)
    → rest ≡ replicate k color ++ rest'
    → length rest ≡ k + length rest'
run_length k color rest' e =
    ap length e
    ∙ length-append (replicate k color) rest'
    ∙ ap (λ t. t + length rest') (length-replicate k color)

Written-cong :
    {result result' : Option (List ℕ × ℕ)} (src pre old : List ℕ)
    → result ≡ result'
    → Written result' src pre old
    → Written result src pre old
Written-cong src pre old e w = (w.0, e ∙ w.1, w.2, w.3, w.4)

-- A run's pair in front of the pairs of the rest.
Written-run :
    {result : Option (List ℕ × ℕ)} (n k color : ℕ) (rest rest' pre old : List ℕ) (a b : ℕ)
    → n ≡ suc k
    → n ≤ 255
    → rest ≡ replicate k color ++ rest'
    → Written result rest' (pre ++ n ∷ color ∷ []) old
    → Written result (color ∷ rest) pre (a ∷ b ∷ old)
unfolding expand replicate
Written-run n k color rest rest' pre old a b count low e (out, eq, same, runs, short) = (
  n ∷ color ∷ out,
  eq
      ∙ ap₂ (λ l m. some (l, m)) (append_assoc pre (n ∷ color ∷ []) (out ++ drop (length out) old))
          (omega (arith, length-append pre (n ∷ color ∷ []))),
  rw (count, same, e),
  (omega arith, low, runs),
  omega (arith, run_length k color rest' e),
)

compress_loop-Written :
    (cpu : Cpu) (fuel : ℕ) (src pre old : List ℕ) (dst_idx : ℕ)
    → length src ≤ fuel
    → 2 * length src ≤ length old
    → dst_idx ≡ length pre
    → Written (compress_loop cpu fuel src (pre ++ old) dst_idx) src pre old
unfolding compress_loop expand
compress_loop-Written cpu zero [] pre old dst_idx enough room at =
    ([], ap (λ k. some (pre ++ old, k)) (omega arith), refl, tt, omega arith)
compress_loop-Written cpu (suc fuel) [] pre old dst_idx enough room at =
    ([], ap (λ k. some (pre ++ old, k)) (omega arith), refl, tt, omega arith)
compress_loop-Written cpu zero (color ∷ rest) pre old dst_idx enough room at = absurd (omega arith)
compress_loop-Written cpu (suc fuel) (color ∷ rest) pre [] dst_idx enough room at =
    absurd (omega arith)
compress_loop-Written cpu (suc fuel) (color ∷ rest) pre (a ∷ []) dst_idx enough room at =
    absurd (omega arith)
compress_loop-Written cpu (suc fuel) (color ∷ rest) pre (a ∷ b ∷ old) dst_idx enough room at =
    let (k, count, low, e) = scan_run color 1 rest (omega arith) in
    let shorter = run_length k color (scan color 1 rest).1 e in
    Written-cong (color ∷ rest) pre (a ∷ b ∷ old)
      (written_step cpu fuel color rest pre old a b dst_idx (scan color 1 rest).0
        (scan color 1 rest).1 at low refl)
      (Written-run (scan color 1 rest).0 k color rest (scan color 1 rest).1 pre old a b
        (omega arith) low e
        (compress_loop-Written cpu fuel (scan color 1 rest).1
          (pre ++ (scan color 1 rest).0 ∷ color ∷ []) old (dst_idx + 2) (omega arith) (omega arith)
          (omega (arith, at, length-append pre ((scan color 1 rest).0 ∷ color ∷ [])))))

-- On every target, a buffer of at least twice the source's length gets pairs that stand for the
-- source: whole pairs with counts from 1 to 255, at most two bytes for each of the source; the
-- returned length is theirs, and the buffer beyond them is as before.
pub rle_compress_lem :
    (cpu : Cpu) (src dst : List ℕ)
    → 2 * length src ≤ length dst
    → (out : List ℕ) × (rle_compress cpu src dst ≡ some (out ++ drop (length out) dst, length out))
      × (expand out ≡ src)
      × IsRuns out
      × (length out ≤ 2 * length src)
unfolding rle_compress expand
rle_compress_lem cpu [] dst room = ([], refl, refl, tt, omega arith)
rle_compress_lem cpu (x ∷ xs) dst room =
    let (out, e, same, runs, short) =
      compress_loop-Written cpu (length (x ∷ xs)) (x ∷ xs) [] dst 0 (omega arith) room refl in
    (out, e ∙ ap (λ k. some (out ++ drop (length out) dst, k)) (omega arith), same, runs, short)
