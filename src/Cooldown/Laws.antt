-- ===== src/Cooldown/Laws.antt =====
-- The bitset of server/src/cooldown.rs as the set of the users whose bit is 1.
use native.Mathlib.Nat.{one-le-pow, pow-le-pow_right}
use reddit_puzzle_system_des.Base.{
  ℕ, ◌*◌, ◌/◌, ◌%◌, ◌^◌, ◌≤◌, ◌<◌, ◌==◌, if◌then◌else◌, none, some, length, get_or, set, get_or-set,
  length-set, length-replicate, get_or-replicate, get_elem?-eq-get_or, get_elem?-beyond, bit_and,
  bit_or, bit, bit-bit_or, bit-pow, bit-zero, bit_and-pow, bit_and_mask, bit-le-one, bit_or-lt, ◌≡◌,
  ◌∙◌, ap, refl, arith, true, none, not, zero, suc,
}
use reddit_puzzle_system_des.Settings.{cooldown_array_len, max_connections_per_worker}
use reddit_puzzle_system_des.Cooldown.{CooldownArray, new, is_on_cooldown, set_cooldown}

-- The bit of user `id`, 0 or 1.
unfoldable pub has : CooldownArray → ℕ → ℕ
has arr id = bit (id % 64) (get_or arr.bits (id / 64) 0)

pub record IsValid (arr : CooldownArray) : Type 0 where
  pub size : length arr.bits ≡ cooldown_array_len
  pub words : (i : ℕ) → get_or arr.bits i 0 < 2 ^ 64

-- The array with the bit of `id` set.
pub mark : CooldownArray → ℕ → CooldownArray
mark arr id = record arr {
  bits = set arr.bits (id / 64) (bit_or (get_or arr.bits (id / 64) 0) (2 ^ (id % 64)));
}

low_six : (id : ℕ) → bit_and id 63 ≡ id % 64
low_six id = bit_and_mask 6 id

pub has-le-one : (arr : CooldownArray) (id : ℕ) → has arr id ≤ 1
unfolding has
has-le-one arr id = bit-le-one (id % 64) (get_or arr.bits (id / 64) 0)

pub has-new : (id : ℕ) → has new id ≡ 0
unfolding has new
has-new id = rw (get_or-replicate {A = ℕ} cooldown_array_len (id / 64) 0) (bit-zero (id % 64))

pub new-IsValid : IsValid new
unfolding new
new-IsValid = record {
  size = length-replicate {A = ℕ} cooldown_array_len 0;
  words = λ i. rw (get_or-replicate {A = ℕ} cooldown_array_len i 0) (omega arith);
}

bit-test : (b p : ℕ) → b ≤ 1 → 1 ≤ p → not (b * p == 0) ≡ (b == 1)
bit-test zero p h pos = ground arith
bit-test (suc b) p h pos = let one : b ≡ 0 = omega arith in rw one (ground arith)

-- The test reads the user's bit.
pub is_on_cooldown_lem :
    {arr : CooldownArray} (id : ℕ)
    → IsValid arr
    → id < max_connections_per_worker
    → is_on_cooldown arr id ≡ some (has arr id == 1)
unfolding is_on_cooldown has
is_on_cooldown_lem {arr} id v h =
    rw
      (
        get_elem?-eq-get_or arr.bits (id / 64) 0 (omega (arith, v.size)),
        low_six id,
        bit_and-pow (id % 64) (get_or arr.bits (id / 64) 0),
      )
      (ap some
        (bit-test _ (2 ^ (id % 64)) (has-le-one arr id) (one-le-pow (id % 64) 2 (omega arith))))

pub set_cooldown-eq-mark :
    {arr : CooldownArray} (id : ℕ)
    → IsValid arr
    → id < max_connections_per_worker
    → set_cooldown arr id ≡ some (mark arr id)
unfolding set_cooldown mark
set_cooldown-eq-mark {arr} id v h =
    rw (get_elem?-eq-get_or arr.bits (id / 64) 0 (omega (arith, v.size)), low_six id)

pub has-mark :
    {arr : CooldownArray} (id j : ℕ)
    → IsValid arr
    → id < max_connections_per_worker
    → has (mark arr id) j ≡ (if id == j then 1 else has arr j)
unfolding has mark
has-mark {arr} id j v h = rw (get_or-set arr.bits (id / 64) (j / 64) _ 0 (omega (arith, v.size))) (
    ground (
      arith,
      bit-bit_or (j % 64) (get_or arr.bits (id / 64) 0) (2 ^ (id % 64)),
      bit-pow (j % 64) (id % 64),
      bit-le-one (j % 64) (get_or arr.bits (id / 64) 0),
    ))

pow-small : (id : ℕ) → 2 ^ (id % 64) < 2 ^ 64
pow-small id =
    omega (arith, pow-le-pow_right {n = 2} (omega arith) {i = id % 64} {j = 63} (omega arith))

pub mark-IsValid :
    {arr : CooldownArray} (id : ℕ)
    → IsValid arr
    → id < max_connections_per_worker
    → IsValid (mark arr id)
unfolding mark
mark-IsValid {arr} id v h = record {
  size = length-set arr.bits (id / 64) _ ∙ v.size;
  words = λ i. rw (get_or-set arr.bits (id / 64) i _ 0 (omega (arith, v.size))) (
      ground (
        arith,
        bit_or-lt 64 (get_or arr.bits (id / 64) 0) (2 ^ (id % 64)) (v.words (id / 64))
            (pow-small id),
        v.words i,
      ));
}

-- After `set_cooldown` of a user in range, the test answers true for that user and what it answered
-- before for every other user in range; the array stays well formed.
pub set_cooldown_lem :
    {arr : CooldownArray} (id j : ℕ)
    → IsValid arr
    → id < max_connections_per_worker
    → j < max_connections_per_worker
    → (arr' : CooldownArray) × (set_cooldown arr id ≡ some arr')
      × IsValid arr'
      × (is_on_cooldown arr' j ≡ (if id == j then some true else is_on_cooldown arr j))
set_cooldown_lem {arr} id j v h k = (
  mark arr id,
  set_cooldown-eq-mark id v h,
  mark-IsValid id v h,
  ground (
    arith,
    is_on_cooldown_lem {arr = mark arr id} j (mark-IsValid id v h) k,
    is_on_cooldown_lem {arr = arr} j v k,
    has-mark {arr = arr} id j v h,
  ),
)

-- A user id past the array makes both operations panic.
pub cooldown_out_of_range :
    {arr : CooldownArray} (id : ℕ)
    → IsValid arr
    → max_connections_per_worker ≤ id
    → (is_on_cooldown arr id ≡ none) × (set_cooldown arr id ≡ none)
unfolding is_on_cooldown set_cooldown
cooldown_out_of_range {arr} id v h =
    let beyond = get_elem?-beyond arr.bits (id / 64) (omega (arith, v.size)) in
    (rw beyond refl, rw beyond refl)
