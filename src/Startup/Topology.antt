-- ===== src/Startup/Topology.antt =====
-- Which cores server/src/main.rs gives to the master and to the workers.
use reddit_puzzle_system_des.Base.{
  ℕ, zero, suc, ◌+◌, ◌%◌, ◌≤◌, ◌<◌, ltb, ◌==◌, ◌&&◌, true, false, Option, none, some, List, [], ◌∷◌,
  length, get_elem?, get_or, get_elem?-eq-get_or, get_or_ext, ◌≡◌, ◌∙◌, sym, ap, refl, arith,
}
use native.Mathlib.Nat.{mod-lt, mod-eq_of_lt}
use reddit_puzzle_system_des.Outcome.{done, panic}
use reddit_puzzle_system_des.Startup.{num_workers, is_none, worker_cores, topology}

-- The `k`th of these workers is on core `i + k + 1`, round the cores.
abbrev pub AreRound : List ℕ → ℕ → List ℕ → Type 0
AreRound core_ids i cores =
    (k : ℕ)
    → k < length cores
    → get_elem? cores k ≡ get_elem? core_ids ((i + k + 1) % length core_ids)

round_more :
    (core_ids : List ℕ) (i core : ℕ) (cores : List ℕ)
    → get_elem? core_ids ((i + 1) % length core_ids) ≡ some core
    → AreRound core_ids (i + 1) cores
    → AreRound core_ids i (core ∷ cores)
round_more core_ids i core cores at round zero low =
    let same : i + 0 + 1 ≡ i + 1 = omega arith in rw (same, at) refl
round_more core_ids i core cores at round (suc k) low =
    let same : i + suc k + 1 ≡ i + 1 + k + 1 = omega arith in rw same (round k (omega arith))

worker_cores_lem :
    (core_ids : List ℕ) (i n : ℕ)
    → 1 ≤ length core_ids
    → (cores : List ℕ) × (worker_cores core_ids i n ≡ done cores)
      × (length cores ≡ n)
      × AreRound core_ids i cores
unfolding worker_cores
worker_cores_lem core_ids i zero some_core =
    ([], refl, refl, (λ k low. absurd (omega (arith, low))))
worker_cores_lem core_ids i (suc n) some_core =
    let core = get_or core_ids ((i + 1) % length core_ids) 0 in
    let at : get_elem? core_ids ((i + 1) % length core_ids) ≡ some core =
      get_elem?-eq-get_or core_ids ((i + 1) % length core_ids) 0 (mod-lt (i + 1) some_core) in
    let (cores, e, size, round) = worker_cores_lem core_ids (i + 1) n some_core in
    (core ∷ cores, rw (at, e) refl, omega (arith, size), round_more core_ids i core cores at round)

-- What the topology comes to.
abbrev pub Placed : Option ℕ → List ℕ → Type 0
Placed arg core_ids =
    (1 ≤ num_workers arg (length core_ids)
      → 1 ≤ length core_ids
      → (cores : List ℕ) × (topology arg core_ids ≡ done (get_or core_ids 0 0, cores))
        × (length cores ≡ num_workers arg (length core_ids))
        × AreRound core_ids 0 cores)
    × (num_workers arg (length core_ids) ≡ 0 → topology arg core_ids ≡ panic)

-- With a worker and a core at least, the master is on the first core and worker `i` on core `i + 1`,
-- round the cores, as many workers as were asked for or else one less than there are cores; without
-- a worker `main` panics. A single core without the flag is such a case.
pub topology_lem : (arg : Option ℕ) (core_ids : List ℕ) → Placed arg core_ids
unfolding topology
topology_lem arg core_ids = (
  (λ some_worker some_core.
      let busy : (num_workers arg (length core_ids) == 0) ≡ false = ground arith in
      let enough : (ltb (length core_ids) 2 && is_none arg) ≡ false =
        elim arg
            as (λ a.
              1 ≤ num_workers a (length core_ids)
              → (ltb (length core_ids) 2 && is_none a) ≡ false) [
                | none ↦ λ more. ground arith
                | some n ↦ λ more. ground arith
              ]
          some_worker in
      let master = get_elem?-eq-get_or core_ids 0 0 some_core in
      let (cores, e, size, round) =
        worker_cores_lem core_ids 0 (num_workers arg (length core_ids)) some_core in
      (cores, rw (busy, enough, master, e) refl, size, round)),
  (λ no_worker.
      let idle : (num_workers arg (length core_ids) == 0) ≡ true = ground (arith, no_worker) in
      rw idle refl),
)

some_injective : (x y : ℕ) → some x ≡ some y → x ≡ y
some_injective x y e = cc

-- Without the flag, on two cores or more, the master has the first core for itself and each other
-- core has one worker.
pub default_topology :
    (core : ℕ) (others : List ℕ)
    → 1 ≤ length others
    → topology none (core ∷ others) ≡ done (core, others)
default_topology core others more =
    let (cores, e, size, round) =
      (topology_lem none (core ∷ others)).0 (omega (arith, more)) (omega arith) in
    let long : length cores ≡ length others = omega (arith, size) in
    let same : cores ≡ others = get_or_ext 0 cores others long (λ k low.
      let wrap : (0 + k + 1) % length (core ∷ others) ≡ suc k =
        mod-eq_of_lt (omega (arith, low, long)) ∙ omega arith in
      some_injective (get_or cores k 0) (get_or others k 0) (
        sym (get_elem?-eq-get_or cores k 0 low)
        ∙ round k low
        ∙ ap (get_elem? (core ∷ others)) wrap
        ∙ get_elem?-eq-get_or others k 0 (omega (arith, low, long)))) in
    e ∙ ap (λ cs. done (core, cs)) same
