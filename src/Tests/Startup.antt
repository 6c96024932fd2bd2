-- ===== src/Tests/Startup.antt =====
-- Machines with one and with four cores.
use reddit_puzzle_system_des.Base.{ℕ, none, some, List, [], ◌∷◌, ◌≡◌, refl, arith}
use reddit_puzzle_system_des.HashMap.{same_bytes}
use reddit_puzzle_system_des.Outcome.{done, panic}
use reddit_puzzle_system_des.Startup.{workers_arg, topology, System, main}
use reddit_puzzle_system_des.Startup.Topology.{Placed, topology_lem}
use reddit_puzzle_system_des.Startup.Launch.{Launched, main_lem}

-- `server -w 12`
abbrev twelve : List (List ℕ)
twelve = (115 ∷ []) ∷ (45 ∷ 119 ∷ []) ∷ (49 ∷ 50 ∷ []) ∷ []

twelve_workers : workers_arg twelve ≡ some 12
unfolding workers_arg same_bytes
twelve_workers = refl

-- Five workers on four cores: the fourth shares the master's core.
five : topology (some 5) (10 ∷ 11 ∷ 12 ∷ 13 ∷ []) ≡ done (10, 11 ∷ 12 ∷ 13 ∷ 10 ∷ 11 ∷ [])
unfolding topology
five = refl

single_core : topology none (10 ∷ []) ≡ panic
unfolding topology
single_core = refl

topology_lem_example : Placed (some 5) (10 ∷ 11 ∷ 12 ∷ 13 ∷ [])
topology_lem_example = topology_lem (some 5) (10 ∷ 11 ∷ 12 ∷ 13 ∷ [])

main_lem_example :
    (system : System Unit) × (main 77 ((115 ∷ []) ∷ []) (10 ∷ 11 ∷ 12 ∷ []) ≡ done system)
    × Launched Unit (λ i. i ∷ []) 2 10 (11 ∷ 12 ∷ []) system
unfolding workers_arg
main_lem_example =
    main_lem Unit (λ i. i ∷ []) 77 ((115 ∷ []) ∷ []) 10 (11 ∷ 12 ∷ []) refl (omega arith)
