-- ===== src/Startup/Launch.antt =====
-- What `main` of server/src/main.rs starts.
use reddit_puzzle_system_des.Base.{
  ℕ, ◌≤◌, List, [], ◌∷◌, length, replicate, All, ◌≡◌, ap, none, refl, arith,
}
use reddit_puzzle_system_des.Outcome.{done, panic, running, ◌>>=◌}
use reddit_puzzle_system_des.Spsc.Refine.{new-Holds}
use reddit_puzzle_system_des.Settings.{server_port}
use reddit_puzzle_system_des.Canvas
use reddit_puzzle_system_des.Canvas.{initial_statics}
use reddit_puzzle_system_des.Canvas.Pixels.{new-IsWhole}
use reddit_puzzle_system_des.Master.Drain.{AllHold}
use reddit_puzzle_system_des.Master.Round.{Ready}
use reddit_puzzle_system_des.Master.Publish.{initial_statics-IsValid}
use reddit_puzzle_system_des.EventLoop.{WorkerCore}
use reddit_puzzle_system_des.EventLoop.Sound.{IsSound}
use reddit_puzzle_system_des.EventLoop.Start
use reddit_puzzle_system_des.EventLoop.Start.{start-IsSound}
use reddit_puzzle_system_des.Startup.{workers_arg, topology, make_workers, queues_of, System, main}
use reddit_puzzle_system_des.Startup.Topology.{default_topology}

module _ (C : Type 0) where
  pub cores_of : List (WorkerCore C × ℕ) → List ℕ
  cores_of [] = []
  cores_of ((worker, core_id) ∷ workers) = core_id ∷ cores_of workers

  -- Each worker is sound once it starts, whatever the clock says and whichever slot is active.
  abbrev pub StartsSound : (ℕ → List ℕ) → WorkerCore C × ℕ → Type 0
  StartsSound scids worker =
      (active_index now_sec now_ms : ℕ)
      → IsSound scids (Start.start active_index now_sec now_ms (worker.0))

  make_workers_lem :
      (scids : ℕ → List ℕ) (cores : List ℕ)
      → (length (make_workers {C = C} cores) ≡ length cores)
        × All (StartsSound scids) (make_workers {C = C} cores)
        × AllHold (queues_of (make_workers {C = C} cores)) (replicate (length cores) [])
        × (cores_of (make_workers {C = C} cores) ≡ cores)
  unfolding make_workers replicate cores_of Start.new
  make_workers_lem scids [] = (refl, tt, tt, refl)
  make_workers_lem scids (core ∷ cores) =
      let (size, sound, hold, same) = make_workers_lem scids cores in
      (
        omega (arith, size),
        (
          (λ active_index now_sec now_ms.
              start-IsSound scids server_port active_index now_sec now_ms new-Holds),
          sound,
        ),
        (new-Holds, hold),
        ap (◌∷◌ core) same,
      )

  -- What is started: `n` workers on these cores, and a master that drains their ring buffers.
  pub record Launched (scids : ℕ → List ℕ) (n core : ℕ) (cores : List ℕ) (system : System C)
      : Type 0 where
    pub count : length system.workers ≡ n
    pub sound : All (StartsSound scids) system.workers
    pub placed : cores_of system.workers ≡ cores
    pub shared : system.master.workers ≡ queues_of system.workers
    pub ready : Ready system.master (replicate n [])
    pub master_core : system.master_core_id ≡ core

  -- What `main` makes for these cores.
  abbrev pub launched : ℕ → ℕ → List ℕ → System C
  launched now_ms core cores = record {
    workers = make_workers cores;
    master = record {
      workers = queues_of (make_workers {C = C} cores);
      canvas = Canvas.new;
      statics = initial_statics;
      last_broadcast_time = now_ms;
    };
    master_core_id = core;
  }

  pub main-eq :
      (now_ms : ℕ) (args : List (List ℕ)) (core_ids : List ℕ) (core : ℕ) (cores : List ℕ)
      → topology (workers_arg args) core_ids ≡ done (core, cores)
      → main {C = C} now_ms args core_ids ≡ done (launched now_ms core cores)
  unfolding main
  main-eq now_ms args core_ids core cores e = rw e refl

  done_injective : (a b : System C) → done a ≡ done b → a ≡ b
  done_injective a b e = cc

  -- Whatever `main` makes, it makes for some cores.
  pub main-launched :
      (now_ms : ℕ) (args : List (List ℕ)) (core_ids : List ℕ) (system : System C)
      → main now_ms args core_ids ≡ done system
      → (core : ℕ) × (cores : List ℕ) × (launched now_ms core cores ≡ system)
  unfolding main
  main-launched now_ms args core_ids system e =
      elim (topology (workers_arg args) core_ids)
          as (λ o.
            (o >>= λ cores. done (launched now_ms (cores.0) (cores.1))) ≡ done system
            → (core : ℕ) × (cores : List ℕ) × (launched now_ms core cores ≡ system)) [
              | done cores ↦ λ h. (cores.0, cores.1, done_injective _ _ h)
              | panic ↦ λ h. cc
              | running ↦ λ h. cc
            ]
        e

  -- Without the flag `--workers`, on two cores or more, `main` starts one worker on each core but the
  -- first, and the master on that one. The master drains the workers' own ring buffers, which are empty, onto
  -- a whole canvas with well-formed statics, and every worker is sound when it starts.
  pub main_lem :
      (scids : ℕ → List ℕ) (now_ms : ℕ) (args : List (List ℕ)) (core : ℕ) (others : List ℕ)
      → workers_arg args ≡ none
      → 1 ≤ length others
      → (system : System C) × (main now_ms args (core ∷ others) ≡ done system)
        × Launched scids (length others) core others system
  main_lem scids now_ms args core others no_flag more =
      let (size, sound, hold, same) = make_workers_lem scids others in
      (
        _,
        main-eq now_ms args (core ∷ others) core others
            (rw no_flag (default_topology core others more)),
        record {
          count = size;
          sound = sound;
          placed = same;
          shared = refl;
          ready = record {
            queues = hold;
            whole = new-IsWhole;
            statics_valid = initial_statics-IsValid;
          };
          master_core = refl;
        },
      )
