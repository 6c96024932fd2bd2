-- ===== src/HashMap.antt =====
-- `FxHashMap` with keys of bytes, as server/src/transport.rs uses it: an association list without
-- repeated keys. The order is that of the insertions; the source does not rely on any.
use reddit_puzzle_system_des.Base.{
  ℕ, ◌==◌, ◌&&◌, if◌then◌else◌, Bool, Bool-cases, true, false, inl, inr, Option, none, some, List,
  [], ◌∷◌, ◌≡◌, refl, arith,
}

unfoldable pub same_bytes : List ℕ → List ℕ → Bool
same_bytes [] [] = true
same_bytes [] (y ∷ ys) = false
same_bytes (x ∷ xs) [] = false
same_bytes (x ∷ xs) (y ∷ ys) = let rest = same_bytes xs ys in x == y && rest

pub same_bytes_self : (xs : List ℕ) → same_bytes xs xs ≡ true
unfolding same_bytes
same_bytes_self [] = refl
same_bytes_self (x ∷ xs) = rw (same_bytes_self xs) (ground arith)

pub same_bytes_eq : (xs ys : List ℕ) → same_bytes xs ys ≡ true → xs ≡ ys
unfolding same_bytes
same_bytes_eq [] [] e = refl
same_bytes_eq [] (y ∷ ys) e = cc
same_bytes_eq (x ∷ xs) [] e = cc
same_bytes_eq (x ∷ xs) (y ∷ ys) e = ground (arith, same_bytes_eq xs ys)

module _ {ℓ} {V : Type ℓ} where
  unfoldable pub get : List ℕ → List (List ℕ × V) → Option V
  unfolding same_bytes
  get key [] = none
  get key ((k, v) ∷ m) = let rest = get key m in if same_bytes k key then some v else rest

  unfoldable pub contains_key : List ℕ → List (List ℕ × V) → Bool
  unfolding get
  contains_key key m = elim (get key m) [ none ↦ false | some v ↦ true ]

  unfoldable pub insert : List ℕ → V → List (List ℕ × V) → List (List ℕ × V)
  unfolding same_bytes
  insert key v [] = (key, v) ∷ []
  insert key v ((k, old) ∷ m) =
      let rest = insert key v m in if same_bytes k key then (k, v) ∷ m else (k, old) ∷ rest

  unfoldable pub remove : List ℕ → List (List ℕ × V) → List (List ℕ × V)
  unfolding same_bytes
  remove key [] = []
  remove key ((k, v) ∷ m) = let rest = remove key m in if same_bytes k key then m else (k, v) ∷ rest

  -- What was inserted is found.
  pub get-insert :
      (key : List ℕ) (v : V) (m : List (List ℕ × V)) → get key (insert key v m) ≡ some v
  unfolding get insert
  get-insert key v [] = rw (same_bytes_self key) refl
  get-insert key v ((k, old) ∷ m) = elim (Bool-cases (same_bytes k key)) [
    | inl hit ↦ rw (hit, hit) refl
    | inr miss ↦ rw (miss, miss) (get-insert key v m)
  ]

  -- Inserting under another key leaves a free key free.
  pub get-insert_other :
      (key j : List ℕ) (v : V) (m : List (List ℕ × V))
      → same_bytes key j ≡ false
      → get j m ≡ none
      → get j (insert key v m) ≡ none
  unfolding get insert
  get-insert_other key j v [] other free = rw other refl
  get-insert_other key j v ((k, old) ∷ m) other free = elim (Bool-cases (same_bytes k j)) [
    | inl hit ↦ absurd (ground (arith, hit, free))
    | inr miss ↦ elim (Bool-cases (same_bytes k key)) [
      | inl same ↦ rw (same, miss) (ground (arith, miss, free))
      | inr apart ↦ rw (apart, miss) (get-insert_other key j v m other (ground (arith, miss, free)))
    ]
  ]

  -- Inserting leaves the values of other keys alone.
  pub get-insert_ne :
      (key j : List ℕ) (v : V) (m : List (List ℕ × V))
      → same_bytes key j ≡ false
      → get j (insert key v m) ≡ get j m
  unfolding get insert
  get-insert_ne key j v [] other = rw other refl
  get-insert_ne key j v ((k, old) ∷ m) other = elim (Bool-cases (same_bytes k key)) [
    | inl hit ↦
        let here : same_bytes k j ≡ false = rw (same_bytes_eq k key hit) other in
        rw (hit, here) refl
    | inr miss ↦ elim (Bool-cases (same_bytes k j)) [
      | inl found ↦ rw (miss, found) refl
      | inr apart ↦ rw (miss, apart) (get-insert_ne key j v m other)
    ]
  ]
