-- ===== src/Rle.antt =====
-- The run-length code: `rle_compress` of server/src/master.rs and `rle_decompress` of
-- client/src/main.rs. The cursor `src_idx` of both is the list of the bytes that are left.
pub mod Vector
pub mod Compress
pub mod RoundTrip
use reddit_puzzle_system_des.Base.{
  ℕ, zero, suc, ◌+◌, ◌-◌, ◌*◌, ◌/◌, ◌%◌, ◌^◌, ltb, leb, ◌==◌, if◌then◌else◌, ◌&&◌, Bool, true,
  false, Option, none, some, List, [], ◌∷◌, length, take, drop, set, store, bit_not, ◌>>=◌,
}

-- What `is_x86_feature_detected!` and the target answer.
pub data Cpu : Type 0 where
  avx2 sse2 scalar : Cpu

-- `movemask_epi8 (cmpeq_epi8 chunk color)`: bit `i` is 1 where byte `i` is the colour.
pub movemask : ℕ → List ℕ → ℕ
movemask color [] = 0
movemask color (x ∷ xs) = (if x == color then 1 else 0) + 2 * movemask color xs

-- `trailing_zeros` of a word of `w` bits.
pub trailing_zeros : ℕ → ℕ → ℕ
trailing_zeros zero x = 0
trailing_zeros (suc w) x = if x % 2 == 0 then suc (trailing_zeros w (x / 2)) else 0

-- The vector loop over chunks of `lanes` bytes: the count so far and the bytes that are left.
-- `none` is the end of the fuel.
pub simd_scan : ℕ → ℕ → ℕ → ℕ → List ℕ → Option (ℕ × List ℕ)
unfolding movemask trailing_zeros
simd_scan lanes zero color count rest = none
simd_scan lanes (suc fuel) color count rest =
    elim (leb lanes (length rest) && leb (count + lanes) 255) [
      | false ↦ some (count, rest)
      | true ↦
          let mask = movemask color (take lanes rest) in
          elim (mask == 2 ^ lanes - 1) [
            | true ↦ simd_scan lanes fuel color (count + lanes) (drop lanes rest)
            | false ↦
                let matching = trailing_zeros 32 (bit_not 32 mask) in
                some (count + matching, drop matching rest)
          ]
    ]

abbrev pub vector_scan : Cpu → ℕ → ℕ → List ℕ → Option (ℕ × List ℕ)
vector_scan avx2 color count rest = simd_scan 32 256 color count rest
vector_scan sse2 color count rest = simd_scan 16 256 color count rest
vector_scan scalar color count rest = some (count, rest)

-- The loop that every target runs behind it.
pub scan : ℕ → ℕ → List ℕ → ℕ × List ℕ
scan color count [] = (count, [])
scan color count (x ∷ xs) = elim (x == color && ltb count 255) [
  | true ↦ scan color (count + 1) xs
  | false ↦ (count, x ∷ xs)
]

-- The body of the outer loop up to its writes.
pub one_run : Cpu → ℕ → List ℕ → Option (ℕ × List ℕ)
unfolding simd_scan scan
one_run cpu color rest = do s ← vector_scan cpu color 1 rest; some (scan color s.0 s.1)

-- The outer loop; every round takes at least one byte.
pub compress_loop : Cpu → ℕ → List ℕ → List ℕ → ℕ → Option (List ℕ × ℕ)
unfolding one_run
compress_loop cpu fuel [] dst dst_idx = some (dst, dst_idx)
compress_loop cpu zero (color ∷ rest) dst dst_idx = none
compress_loop cpu (suc fuel) (color ∷ rest) dst dst_idx = do
  r ← one_run cpu color rest
  dst₁ ← store dst dst_idx (r.0 % 256)
  dst₂ ← store dst₁ (dst_idx + 1) color
  compress_loop cpu fuel r.1 dst₂ (dst_idx + 2)

-- The written buffer and the length; `none` is a write out of range.
unfoldable pub rle_compress : Cpu → List ℕ → List ℕ → Option (List ℕ × ℕ)
unfolding compress_loop
rle_compress cpu [] dst = some (dst, 0)
rle_compress cpu (x ∷ xs) dst = compress_loop cpu (length (x ∷ xs)) (x ∷ xs) dst 0

-- `for _ in 0..count`: what does not fit is dropped.
pub fill : ℕ → ℕ → List ℕ → ℕ → List ℕ × ℕ
fill zero color dst dst_idx = (dst, dst_idx)
fill (suc n) color dst dst_idx =
    let s : List ℕ × ℕ =
      if ltb dst_idx (length dst) then (set dst dst_idx color, dst_idx + 1) else (dst, dst_idx) in
    fill n color s.0 s.1

pub decompress_loop : List ℕ → List ℕ → ℕ → List ℕ × ℕ
unfolding fill
decompress_loop [] dst dst_idx = (dst, dst_idx)
decompress_loop (count ∷ []) dst dst_idx = (dst, dst_idx)
decompress_loop (count ∷ color ∷ src) dst dst_idx =
    let s = fill count color dst dst_idx in decompress_loop src s.0 s.1

unfoldable pub rle_decompress : List ℕ → List ℕ → List ℕ × ℕ
unfolding decompress_loop
rle_decompress src dst = decompress_loop src dst 0
