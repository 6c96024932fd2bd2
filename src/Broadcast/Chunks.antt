-- ===== src/Broadcast/Chunks.antt =====
-- The chunks that server/src/worker.rs cuts a broadcast into.
use reddit_puzzle_system_des.Base.{
  ℕ, zero, suc, ◌-◌, ◌%◌, ◌≤◌, ◌<◌, min, List, [], ◌∷◌, ◌++◌, length, length-take, length-drop,
  take, drop, take-append-drop, All, ◌≡◌, ◌∙◌, ap, refl, arith,
}
use reddit_puzzle_system_des.Settings.{broadcast_chunk_size}
use reddit_puzzle_system_des.Broadcast.{chunks, chunks_from}

abbrev pub flat : List (List ℕ) → List ℕ
flat [] = []
flat (c ∷ cs) = c ++ flat cs

flat-chunks_from :
    (fuel size : ℕ) (xs : List ℕ)
    → 0 < size
    → length xs ≤ fuel
    → flat (chunks_from fuel size xs) ≡ xs
unfolding chunks_from
flat-chunks_from fuel size [] pos enough = refl
flat-chunks_from zero size (x ∷ xs) pos enough = absurd (omega arith)
flat-chunks_from (suc fuel) size (x ∷ xs) pos enough =
    ap (λ l. take size (x ∷ xs) ++ l)
      (flat-chunks_from fuel size (drop size (x ∷ xs)) pos
        (omega (arith, length-drop size (x ∷ xs))))
    ∙ take-append-drop size (x ∷ xs)

-- Cutting at the chunk size keeps whole groups of `d` bytes whole.
abbrev pub Cuts : ℕ → Type 0
Cuts d =
    (n : ℕ)
    → n % d ≡ 0
    → (min broadcast_chunk_size n % d ≡ 0) × ((n - broadcast_chunk_size) % d ≡ 0)

abbrev pub IsPiece : ℕ → List ℕ → Type 0
IsPiece d c = (length c ≤ broadcast_chunk_size) × (length c % d ≡ 0)

chunks_from-IsPiece :
    (d : ℕ) (cuts : Cuts d) (fuel : ℕ) (xs : List ℕ)
    → length xs % d ≡ 0
    → All (IsPiece d) (chunks_from fuel broadcast_chunk_size xs)
unfolding chunks_from
chunks_from-IsPiece d cuts fuel [] whole = tt
chunks_from-IsPiece d cuts zero (x ∷ xs) whole = tt
chunks_from-IsPiece d cuts (suc fuel) (x ∷ xs) whole = (
  (
    omega (arith, length-take broadcast_chunk_size (x ∷ xs)),
    ap (λ n. n % d) (length-take broadcast_chunk_size (x ∷ xs)) ∙ (cuts (length (x ∷ xs)) whole).0,
  ),
  chunks_from-IsPiece d cuts fuel (drop broadcast_chunk_size (x ∷ xs)) (
      ap (λ n. n % d) (length-drop broadcast_chunk_size (x ∷ xs))
      ∙ (cuts (length (x ∷ xs)) whole).1),
)

-- The chunks in order are the bytes; none is longer than the chunk size, and none splits a group.
pub chunks_lem :
    (d : ℕ) (cuts : Cuts d) (xs : List ℕ)
    → length xs % d ≡ 0
    → (flat (chunks broadcast_chunk_size xs) ≡ xs)
      × All (IsPiece d) (chunks broadcast_chunk_size xs)
unfolding chunks
chunks_lem d cuts xs whole = (
  flat-chunks_from (length xs) broadcast_chunk_size xs (omega arith) (omega arith),
  chunks_from-IsPiece d cuts (length xs) xs whole,
)

-- 1200 is a multiple of the diff entry's 5 bytes, and of the run's 2.
pub entries-Cuts : Cuts 5
entries-Cuts n whole = omega arith

pub runs-Cuts : Cuts 2
runs-Cuts n whole = omega arith
