-- ===== src/Framing/Bytes.antt =====
-- Numbers in a buffer of bytes.
use reddit_puzzle_system_des.Base.{
  ℕ, zero, suc, ◌+◌, ◌*◌, ◌^◌, ◌≤◌, Option, some, List, length, get_elem?, get_or,
  get_elem?-eq-get_or, ◌>>=◌, ◌≡◌, refl, arith,
}

-- `count` bytes from `pos` on, the lowest first.
unfoldable pub read_le : ℕ → List ℕ → ℕ → Option ℕ
read_le zero buf pos = some 0
read_le (suc count) buf pos = do
  byte ← get_elem? buf pos
  rest ← read_le count buf (pos + 1)
  some (byte + 256 * rest)

-- The highest first.
unfoldable pub read_be : ℕ → List ℕ → ℕ → Option ℕ
read_be zero buf pos = some 0
read_be (suc count) buf pos = do
  byte ← get_elem? buf pos
  rest ← read_be count buf (pos + 1)
  some (byte * 256 ^ count + rest)

-- Inside the buffer a read succeeds.
pub read_le_inside :
    (count : ℕ) (buf : List ℕ) (pos : ℕ)
    → pos + count ≤ length buf
    → (n : ℕ) × (read_le count buf pos ≡ some n)
unfolding read_le
read_le_inside zero buf pos fits = (0, refl)
read_le_inside (suc count) buf pos fits =
    let (rest, e) = read_le_inside count buf (pos + 1) (omega arith) in
    (get_or buf pos 0 + 256 * rest, rw (get_elem?-eq-get_or buf pos 0 (omega arith), e) refl)

pub read_be_inside :
    (count : ℕ) (buf : List ℕ) (pos : ℕ)
    → pos + count ≤ length buf
    → (n : ℕ) × (read_be count buf pos ≡ some n)
unfolding read_be
read_be_inside zero buf pos fits = (0, refl)
read_be_inside (suc count) buf pos fits =
    let (rest, e) = read_be_inside count buf (pos + 1) (omega arith) in
    (
      get_or buf pos 0 * 256 ^ count + rest,
      rw (get_elem?-eq-get_or buf pos 0 (omega arith), e) refl,
    )
