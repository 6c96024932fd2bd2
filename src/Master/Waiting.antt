-- ===== src/Master/Waiting.antt =====
-- A write that waits in one of the queues of server/src/master.rs, across the rounds.
use reddit_puzzle_system_des.Base.{
  ℕ, zero, suc, ◌+◌, ◌<◌, leb, Bool-cases, inl, inr, some, List, [], ◌∷◌, ◌++◌, append_assoc,
  length, get_elem?, take, drop, ◌≡◌, ◌∙◌, sym, ap, subst, arith,
}
use reddit_puzzle_system_des.Settings.{master_batch_drain, spsc_capacity}
use reddit_puzzle_system_des.Spsc.Refine.{offer}
use reddit_puzzle_system_des.Master.{PixelWrite}
use reddit_puzzle_system_des.Master.Drain.{batch, leftover}

-- The bounded queues.
abbrev pub offer_at : ℕ → PixelWrite → List (List PixelWrite) → List (List PixelWrite)
offer_at i p [] = []
offer_at zero p (ps ∷ pss) = (offer ps p).1 ∷ pss
offer_at (suc i) p (ps ∷ pss) = ps ∷ offer_at i p pss

-- The write waits behind `n` others in the queue of worker `i`.
abbrev pub Waits : ℕ → ℕ → PixelWrite → List (List PixelWrite) → Type 0
Waits i n p [] = ⊥
Waits zero n p (ps ∷ pss) = get_elem? ps n ≡ some p
Waits (suc i) n p (ps ∷ pss) = Waits i n p pss

abbrev pub Occurs : PixelWrite → List PixelWrite → Type 0
Occurs p ps = (before after : List PixelWrite) × (ps ≡ before ++ p ∷ after)

pub get_elem?-append :
    (ps qs : List PixelWrite) (n : ℕ) (p : PixelWrite)
    → get_elem? ps n ≡ some p
    → get_elem? (ps ++ qs) n ≡ some p
get_elem?-append [] qs n p at = absurd (ground (arith, at))
get_elem?-append (x ∷ ps) qs zero p at = at
get_elem?-append (x ∷ ps) qs (suc n) p at = get_elem?-append ps qs n p at

offer-waits :
    (ps : List PixelWrite) (x : PixelWrite) (n : ℕ) (p : PixelWrite)
    → get_elem? ps n ≡ some p
    → get_elem? (offer ps x).1 n ≡ some p
offer-waits ps x n p at = elim (Bool-cases (leb spsc_capacity (length ps))) [
  | inl full ↦ rw full at
  | inr free ↦ rw free (get_elem?-append ps (x ∷ []) n p at)
]

pub offer_at-Waits :
    (i n : ℕ) (p : PixelWrite) (j : ℕ) (x : PixelWrite) (pss : List (List PixelWrite))
    → Waits i n p pss
    → Waits i n p (offer_at j x pss)
offer_at-Waits i n p j x [] waits = absurd waits
offer_at-Waits zero n p zero x (ps ∷ pss) waits = offer-waits ps x n p waits
offer_at-Waits zero n p (suc j) x (ps ∷ pss) waits = waits
offer_at-Waits (suc i) n p zero x (ps ∷ pss) waits = waits
offer_at-Waits (suc i) n p (suc j) x (ps ∷ pss) waits = offer_at-Waits i n p j x pss waits

pub Occurs-before : (p : PixelWrite) (ps qs : List PixelWrite) → Occurs p ps → Occurs p (ps ++ qs)
Occurs-before p ps qs (before, after, e) =
    (before, after ++ qs, ap (λ xs. xs ++ qs) e ∙ append_assoc before (p ∷ after) qs)

pub Occurs-after : (p : PixelWrite) (ps qs : List PixelWrite) → Occurs p qs → Occurs p (ps ++ qs)
Occurs-after p ps qs (before, after, e) =
    (ps ++ before, after, ap (λ xs. ps ++ xs) e ∙ sym (append_assoc ps before (p ∷ after)))

some_injective : (x y : PixelWrite) → some x ≡ some y → x ≡ y
some_injective x y e = cc

take-Occurs :
    (k n : ℕ) (ps : List PixelWrite) (p : PixelWrite)
    → get_elem? ps n ≡ some p
    → n < k
    → Occurs p (take k ps)
take-Occurs k n [] p at low = absurd (ground (arith, at))
take-Occurs zero n (x ∷ ps) p at low = absurd (omega (arith, low))
take-Occurs (suc k) zero (x ∷ ps) p at low =
    ([], take k ps, ap (λ y. y ∷ take k ps) (some_injective x p at))
take-Occurs (suc k) (suc n) (x ∷ ps) p at low =
    Occurs-after p (x ∷ []) (take k ps) (take-Occurs k n ps p at (omega (arith, low)))

drop-waits :
    (k n : ℕ) (ps : List PixelWrite) (p : PixelWrite)
    → get_elem? ps (k + n) ≡ some p
    → get_elem? (drop k ps) n ≡ some p
drop-waits zero n ps p at =
    let same : 0 + n ≡ n = omega arith in subst (λ j. get_elem? ps j ≡ some p) same at
drop-waits (suc k) n [] p at = absurd (ground (arith, at))
drop-waits (suc k) n (x ∷ ps) p at =
    let same : suc k + n ≡ suc (k + n) = omega arith in
    drop-waits k n ps p (subst (λ j. get_elem? (x ∷ ps) j ≡ some p) same at)

pub batch-Occurs :
    (i n : ℕ) (p : PixelWrite) (pss : List (List PixelWrite))
    → Waits i n p pss
    → n < master_batch_drain
    → Occurs p (batch pss)
batch-Occurs i n p [] waits low = absurd waits
batch-Occurs zero n p (ps ∷ pss) waits low =
    Occurs-before p (take master_batch_drain ps) (batch pss)
      (take-Occurs master_batch_drain n ps p waits low)
batch-Occurs (suc i) n p (ps ∷ pss) waits low =
    Occurs-after p (take master_batch_drain ps) (batch pss) (batch-Occurs i n p pss waits low)

pub leftover-Waits :
    (i n : ℕ) (p : PixelWrite) (pss : List (List PixelWrite))
    → Waits i (master_batch_drain + n) p pss
    → Waits i n p (leftover pss)
leftover-Waits i n p [] waits = absurd waits
leftover-Waits zero n p (ps ∷ pss) waits = drop-waits master_batch_drain n ps p waits
leftover-Waits (suc i) n p (ps ∷ pss) waits = leftover-Waits i n p pss waits
