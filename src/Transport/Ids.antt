-- ===== src/Transport/Ids.antt =====
-- How often a user id stands in the stack of free ids and in the map of connections of
-- server/src/transport.rs.
use reddit_puzzle_system_des.Base.{
  ℕ, zero, suc, ◌+◌, ◌≤◌, ltb, ◌==◌, if◌then◌else◌, Bool-cases, inl, inr, Option-cases, none, some,
  List, [], ◌∷◌, ◌++◌, ◌≡◌, refl, arith,
}
use reddit_puzzle_system_des.HashMap.{same_bytes, get, insert}
use reddit_puzzle_system_des.Quiche.{Quiche}
use reddit_puzzle_system_des.Transport.{Entry, range, pop_last, retain}

abbrev pub one_if : ℕ → ℕ → ℕ
one_if x id = if x == id then 1 else 0

abbrev pub occurrences : ℕ → List ℕ → ℕ
occurrences id [] = 0
occurrences id (x ∷ xs) = one_if x id + occurrences id xs

abbrev pub live : {C : Type 0} → ℕ → List (List ℕ × Entry C) → ℕ
live id [] = 0
live id ((scid, entry) ∷ m) = one_if entry.user_id id + live id m

pub occurrences-append :
    (id : ℕ) (xs ys : List ℕ) → occurrences id (xs ++ ys) ≡ occurrences id xs + occurrences id ys
occurrences-append id [] ys = omega arith
occurrences-append id (x ∷ xs) ys = omega (arith, occurrences-append id xs ys)

pub occurrences-range : (id n : ℕ) → occurrences id (range n) ≡ (if ltb id n then 1 else 0)
unfolding range
occurrences-range id zero = ground arith
occurrences-range id (suc n) =
    ground (arith, occurrences-append id (range n) (n ∷ []), occurrences-range id n)

pop_last-snoc : (xs : List ℕ) (x : ℕ) → pop_last (xs ++ x ∷ []) ≡ some (x, xs)
unfolding pop_last
pop_last-snoc [] x = refl
pop_last-snoc (y ∷ xs) x = rw (pop_last-snoc xs x) refl

-- The free ids of a new state, with the top apart.
pub pop_last-range : (n : ℕ) → pop_last (range (suc n)) ≡ some (n, range n)
unfolding range
pop_last-range n = pop_last-snoc (range n) n

occurrences-none : (id : ℕ) (xs : List ℕ) → pop_last xs ≡ none → occurrences id xs ≡ 0
unfolding pop_last
occurrences-none id [] e = refl
occurrences-none id (x ∷ xs) e = absurd (ground (arith, Option-cases (pop_last xs)))

-- Taking the top off leaves every other id.
pub occurrences-pop_last :
    (id : ℕ) (xs : List ℕ) (top : ℕ × List ℕ)
    → pop_last xs ≡ some top
    → occurrences id xs ≡ occurrences id (top.1) + one_if (top.0) id
unfolding pop_last
occurrences-pop_last id [] top e = absurd (ground arith)
occurrences-pop_last id (x ∷ xs) top e = elim (Option-cases (pop_last xs)) [
  | inl last ↦ ground (arith, e, last, occurrences-none id xs last)
  | inr (rest, more) ↦ ground (arith, e, more, occurrences-pop_last id xs rest more)
]

module _ {C : Type 0} where
  pub live-insert_fresh :
      (id : ℕ) (key : List ℕ) (v : Entry C) (m : List (List ℕ × Entry C))
      → get key m ≡ none
      → live id (insert key v m) ≡ live id m + one_if v.user_id id
  unfolding get insert
  live-insert_fresh id key v [] fresh = omega arith
  live-insert_fresh id key v ((k, old) ∷ m) fresh = elim (Bool-cases (same_bytes k key)) [
    | inl hit ↦ ground (arith, hit, fresh)
    | inr miss ↦ ground (arith, miss, fresh, live-insert_fresh id key v m)
  ]

  pub live-insert_same :
      (id : ℕ) (key : List ℕ) (v old : Entry C) (m : List (List ℕ × Entry C))
      → get key m ≡ some old
      → v.user_id ≡ old.user_id
      → live id (insert key v m) ≡ live id m
  unfolding get insert
  live-insert_same id key v old [] found same = absurd (ground arith)
  live-insert_same id key v old ((k, w) ∷ m) found same = elim (Bool-cases (same_bytes k key)) [
    | inl hit ↦ ground (arith, hit, found, same)
    | inr miss ↦ ground (arith, miss, found, live-insert_same id key v old m)
  ]

  -- An id in the map is counted.
  pub live-get :
      (key : List ℕ) (old : Entry C) (m : List (List ℕ × Entry C))
      → get key m ≡ some old
      → 1 ≤ live old.user_id m
  unfolding get
  live-get key old [] found = absurd (ground arith)
  live-get key old ((k, w) ∷ m) found = elim (Bool-cases (same_bytes k key)) [
    | inl hit ↦ ground (arith, hit, found)
    | inr miss ↦ ground (arith, miss, found, live-get key old m)
  ]

pub live-retain :
    (q : Quiche) (id : ℕ) (m : List (List ℕ × Entry q.Connection))
    → live id (retain q m).0 + occurrences id (retain q m).1.0 ≡ live id m
unfolding retain
live-retain q id [] = refl
live-retain q id ((scid, entry) ∷ m) = ground (arith, live-retain q id m)
