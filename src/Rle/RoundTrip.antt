-- ===== src/Rle/RoundTrip.antt =====
-- `rle_decompress` of client/src/main.rs undoes `rle_compress` of server/src/master.rs.
use reddit_puzzle_system_des.Base.{
  ℕ, zero, suc, ◌+◌, ◌*◌, ◌≤◌, ltb, true, some, List, [], ◌∷◌, ◌++◌, append-nil, append_assoc,
  length, length-append, length-replicate, replicate, take, drop, set-append, take-length-append,
  length-drop, drop-drop, drop-length, ◌≡◌, ◌∙◌, ap, ap₂, sym, refl, arith,
}
use reddit_puzzle_system_des.Rle.{Cpu, rle_compress, fill, decompress_loop, rle_decompress}
use reddit_puzzle_system_des.Rle.Compress.{expand, rle_compress_lem}

nothing_new :
    (pre old : List ℕ) (dst_idx : ℕ)
    → dst_idx ≡ length pre
    → ◌≡◌ {A = List ℕ × ℕ} (pre ++ old, dst_idx) ((pre ++ []) ++ old, length (pre ++ []))
nothing_new pre old dst_idx at = rw (append-nil, at)

fill-append :
    (n color : ℕ) (pre old : List ℕ) (dst_idx : ℕ)
    → n ≤ length old
    → dst_idx ≡ length pre
    → fill n color (pre ++ old) dst_idx
      ≡ ((pre ++ replicate n color) ++ drop n old, length (pre ++ replicate n color))
unfolding fill replicate
fill-append zero color pre old dst_idx fits at = nothing_new pre old dst_idx at
fill-append (suc n) color pre [] dst_idx fits at = absurd (omega arith)
fill-append (suc n) color pre (y ∷ old) dst_idx fits at =
    rw (inside, at, set-append pre old y color, ← append_assoc pre (color ∷ []) old)
      (fill-append n color (pre ++ color ∷ []) old (length pre + 1) (omega arith)
          (sym (length-append pre (color ∷ [])))
        ∙ ap (λ l. (l ++ drop n old, length l)) (append_assoc pre (color ∷ []) (replicate n color)))
  where
    inside : ltb dst_idx (length (pre ++ y ∷ old)) ≡ true
    inside = ground (arith, length-append pre (y ∷ old))

decompress_loop-append :
    (src pre old : List ℕ) (dst_idx : ℕ)
    → length (expand src) ≤ length old
    → dst_idx ≡ length pre
    → decompress_loop src (pre ++ old) dst_idx
      ≡ ((pre ++ expand src) ++ drop (length (expand src)) old, length (pre ++ expand src))
unfolding decompress_loop expand
decompress_loop-append [] pre old dst_idx fits at = nothing_new pre old dst_idx at
decompress_loop-append (c ∷ []) pre old dst_idx fits at = nothing_new pre old dst_idx at
decompress_loop-append (c ∷ color ∷ src) pre old dst_idx fits at =
    rw (fill-append c color pre old dst_idx (omega (arith, total)) at) (
      decompress_loop-append src (pre ++ replicate c color) (drop c old) _
        (omega (arith, total, length-drop c old)) refl
      ∙ ap₂ (λ l d. (l ++ d, length l)) (append_assoc pre (replicate c color) (expand src))
          (drop-drop c (length (expand src)) old ∙ ap (λ k. drop k old) (sym total)))
  where
    total : length (replicate c color ++ expand src) ≡ c + length (expand src)
    total =
        length-append (replicate c color) (expand src)
        ∙ ap (λ k. k + length (expand src)) (length-replicate c color)

-- Pairs that stand for as many bytes as the canvas has restore those bytes.
pub rle_decompress-expand :
    (out src canvas : List ℕ)
    → expand out ≡ src
    → length canvas ≡ length src
    → rle_decompress out canvas ≡ (src, length src)
unfolding rle_decompress
rle_decompress-expand out src canvas runs_of same =
    decompress_loop-append out [] canvas 0 (omega (arith, ap length runs_of)) refl
    ∙ rw (runs_of, ← same, drop-length canvas) (ap (λ l. (l, length canvas)) (append-nil src))

-- A canvas that a server compressed, on any target and into any buffer of twice its length, is
-- restored exactly by a client that decompresses the announced bytes into a canvas of that length,
-- whatever the client's canvas held before.
pub rle_decompress-rle_compress :
    (cpu : Cpu) (src dst canvas : List ℕ)
    → 2 * length src ≤ length dst
    → length canvas ≡ length src
    → (dst' : List ℕ) × (n : ℕ) × (rle_compress cpu src dst ≡ some (dst', n))
      × (n ≤ 2 * length src)
      × (rle_decompress (take n dst') canvas ≡ (src, length src))
rle_decompress-rle_compress cpu src dst canvas room same =
    let (out, e, runs_of, runs, short) = rle_compress_lem cpu src dst room in
    (
      out ++ drop (length out) dst,
      length out,
      e,
      short,
      rw (take-length-append out (drop (length out) dst))
          (rle_decompress-expand out src canvas runs_of same),
    )
