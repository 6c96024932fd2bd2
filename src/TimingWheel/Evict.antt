-- ===== src/TimingWheel/Evict.antt =====
-- The word loop of `tick` (server/src/timing_wheel.rs) seen user by user.
use reddit_puzzle_system_des.Base.{
  ℕ, zero, suc, ◌-◌, ◌/◌, ◌%◌, ◌^◌, ◌<◌, min, List, [], ◌∷◌, length, get_or, bit_and, bit_not,
  bit-bit_and, bit-bit_not, bit-zero, bit_and-lt, ◌≡◌, ◌∙◌, refl, arith,
}
use reddit_puzzle_system_des.Cooldown.{CooldownArray}
use reddit_puzzle_system_des.Cooldown.Laws.{IsValid, has}
use reddit_puzzle_system_des.TimingWheel.{evict}

length-evict :
    (ms es : List ℕ) → (length (evict ms es).0 ≡ length ms) × (length (evict ms es).1 ≡ length es)
unfolding evict
length-evict [] es = (refl, refl)
length-evict (m ∷ ms) [] = (refl, refl)
length-evict (m ∷ ms) (e ∷ es) = omega (arith, length-evict ms es)

get_or-evict :
    (ms es : List ℕ) (i : ℕ)
    → length ms ≡ length es
    → i < length ms
    → (get_or (evict ms es).0 i 0 ≡ bit_and (get_or ms i 0) (bit_not 64 (get_or es i 0)))
      × (get_or (evict ms es).1 i 0 ≡ 0)
unfolding evict
get_or-evict [] es i same h = absurd (omega arith)
get_or-evict (m ∷ ms) [] i same h = absurd (omega arith)
get_or-evict (m ∷ ms) (e ∷ es) zero same h = (refl, refl)
get_or-evict (m ∷ ms) (e ∷ es) (suc i) same h = get_or-evict ms es i (omega arith) (omega arith)

words-evict :
    (ms es : List ℕ)
    → ((i : ℕ) → get_or ms i 0 < 2 ^ 64)
    → ((i : ℕ) → get_or es i 0 < 2 ^ 64)
    → (i : ℕ) → (get_or (evict ms es).0 i 0 < 2 ^ 64) × (get_or (evict ms es).1 i 0 < 2 ^ 64)
unfolding evict
words-evict [] es p q i = (omega arith, q i)
words-evict (m ∷ ms) [] p q i = (p i, omega arith)
words-evict (m ∷ ms) (e ∷ es) p q zero = (bit_and-lt 64 m (bit_not 64 e) (p 0), omega arith)
words-evict (m ∷ ms) (e ∷ es) p q (suc i) = words-evict ms es (λ j. p (suc j)) (λ j. q (suc j)) i

-- What the loop leaves in the master array and in the bucket.
abbrev pub kept : CooldownArray → CooldownArray → CooldownArray
kept master bucket = record { bits = (evict master.bits bucket.bits).0 }

abbrev pub wiped : CooldownArray → CooldownArray → CooldownArray
wiped master bucket = record { bits = (evict master.bits bucket.bits).1 }

module _ {master bucket : CooldownArray} (v : IsValid master) (u : IsValid bucket) where
  pub kept-IsValid : IsValid (kept master bucket)
  kept-IsValid = record {
    size = (length-evict master.bits bucket.bits).0 ∙ v.size;
    words = λ i. (words-evict master.bits bucket.bits v.words u.words i).0;
  }

  pub wiped-IsValid : IsValid (wiped master bucket)
  wiped-IsValid = record {
    size = (length-evict master.bits bucket.bits).1 ∙ u.size;
    words = λ i. (words-evict master.bits bucket.bits v.words u.words i).1;
  }

  -- Exactly the users of the bucket leave the master array, and the bucket is empty after.
  pub has-evict :
      (id : ℕ)
      → id < 65_536
      → (has (kept master bucket) id ≡ min (has master id) (1 - has bucket id))
        × (has (wiped master bucket) id ≡ 0)
  unfolding has
  has-evict id h =
      let (a, b) =
        get_or-evict master.bits bucket.bits (id / 64) (omega (arith, v.size, u.size))
          (omega (arith, v.size)) in
      (
        rw (a, bit-bit_and (id % 64), bit-bit_not (id % 64) 64 _ (omega arith) (u.words (id / 64))),
        rw b (bit-zero (id % 64)),
      )
