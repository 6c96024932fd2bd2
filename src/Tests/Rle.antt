-- ===== src/Tests/Rle.antt =====
-- The run-length code at small inputs.
use reddit_puzzle_system_des.Base.{
  ℕ, ◌*◌, ◌≤◌, some, none, List, [], ◌∷◌, ◌++◌, length, take, drop, replicate, ◌≡◌, refl, arith,
}
use reddit_puzzle_system_des.Rle.{avx2, sse2, scalar, rle_compress, rle_decompress}
use reddit_puzzle_system_des.Rle.Compress.{expand, IsRuns, rle_compress-scalar, rle_compress_lem}
use reddit_puzzle_system_des.Rle.RoundTrip.{rle_decompress-rle_compress}

abbrev strip : List ℕ
strip = 7 ∷ 7 ∷ 7 ∷ 0 ∷ 9 ∷ 9 ∷ []

abbrev buffer : List ℕ
buffer = 1 ∷ 1 ∷ 1 ∷ 1 ∷ 1 ∷ 1 ∷ 1 ∷ 1 ∷ 1 ∷ 1 ∷ 1 ∷ 1 ∷ []

abbrev blank : List ℕ
blank = 0 ∷ 0 ∷ 0 ∷ 0 ∷ 0 ∷ 0 ∷ []

compress_strip :
    rle_compress avx2 strip buffer ≡ some (3 ∷ 7 ∷ 1 ∷ 0 ∷ 2 ∷ 9 ∷ 1 ∷ 1 ∷ 1 ∷ 1 ∷ 1 ∷ 1 ∷ [], 6)
unfolding rle_compress
compress_strip = refl

-- 40 equal bytes take the vector path, in one chunk of 32 or two of 16, and the plain loop.
compress_long :
    (rle_compress avx2 (replicate 40 5) (5 ∷ 5 ∷ []) ≡ some (40 ∷ 5 ∷ [], 2))
    × (rle_compress sse2 (replicate 40 5) (5 ∷ 5 ∷ []) ≡ some (40 ∷ 5 ∷ [], 2))
unfolding rle_compress replicate
compress_long = (refl, refl)

-- A run is cut at 255; without room for the second pair the write panics.
compress_split :
    (rle_compress avx2 (replicate 300 5) (0 ∷ 0 ∷ 0 ∷ 0 ∷ []) ≡ some (255 ∷ 5 ∷ 45 ∷ 5 ∷ [], 4))
    × (rle_compress avx2 (replicate 300 5) (0 ∷ 0 ∷ 0 ∷ []) ≡ none)
unfolding rle_compress replicate
compress_split = (refl, refl)

rle_decompress-rle_compress_example :
    (dst' : List ℕ) × (n : ℕ) × (rle_compress avx2 strip buffer ≡ some (dst', n))
    × (n ≤ 2 * 6)
    × (rle_decompress (take n dst') blank ≡ (strip, 6))
rle_decompress-rle_compress_example =
    rle_decompress-rle_compress avx2 strip buffer blank (omega arith) refl

rle_compress_lem_example :
    (out : List ℕ) × (rle_compress sse2 strip buffer
      ≡ some (out ++ drop (length out) buffer, length out))
    × (expand out ≡ strip)
    × IsRuns out
    × (length out ≤ 2 * 6)
rle_compress_lem_example = rle_compress_lem sse2 strip buffer (omega arith)

rle_compress-scalar_example : rle_compress avx2 strip buffer ≡ rle_compress scalar strip buffer
rle_compress-scalar_example = rle_compress-scalar avx2 strip buffer
