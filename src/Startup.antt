-- ===== src/Startup.antt =====
-- server/src/main.rs: the number of workers, their cores, and the parts that are made. A program's
-- argument is its list of bytes. `main` is what is behind the certificates; Startup/Certificates has
-- them, and `boot` the whole.
pub mod Topology
pub mod Launch
pub mod Certificates
pub mod Files
pub mod Boot
use reddit_puzzle_system_des.Base.{
  ℕ, zero, suc, ◌+◌, ◌-◌, ◌*◌, ◌%◌, ◌^◌, ltb, leb, ◌==◌, ◌&&◌, ◌||◌, if◌then◌else◌, Bool, true,
  false, Option, none, some, List, [], ◌∷◌, length, get_elem?, map,
}
use reddit_puzzle_system_des.Settings.{server_port}
use reddit_puzzle_system_des.HashMap.{same_bytes}
use reddit_puzzle_system_des.Outcome.{Outcome, done, panic, running, ◌>>=◌, need}
use reddit_puzzle_system_des.Spsc.{SpscRingBuffer}
use reddit_puzzle_system_des.Spsc
use reddit_puzzle_system_des.Canvas
use reddit_puzzle_system_des.Canvas.{initial_statics}
use reddit_puzzle_system_des.Master.{PixelWrite, MasterCore}
use reddit_puzzle_system_des.EventLoop.{WorkerCore}
use reddit_puzzle_system_des.EventLoop.Start

-- `-w` and `--workers`
abbrev pub is_workers_flag : List ℕ → Bool
is_workers_flag arg =
    same_bytes arg (45 ∷ 119 ∷ [])
    || same_bytes arg (45 ∷ 45 ∷ 119 ∷ 111 ∷ 114 ∷ 107 ∷ 101 ∷ 114 ∷ 115 ∷ [])

-- `parse::<usize>`: digits, perhaps behind a plus sign, of a number that fits.
unfoldable pub digits : ℕ → List ℕ → Option ℕ
digits value [] = some value
digits value (c ∷ rest) =
    let value' = value * 10 + (c - 48) in
    let parsed = digits value' rest in
    if leb 48 c && leb c 57 && ltb value' (2 ^ 64) then parsed else none

unfoldable pub parse_usize : List ℕ → Option ℕ
unfolding digits
parse_usize [] = none
parse_usize (c ∷ []) = digits 0 (c ∷ [])
parse_usize (c ∷ d ∷ rest) = if c == 43 then digits 0 (d ∷ rest) else digits 0 (c ∷ d ∷ rest)

-- The value of the first such flag.
unfoldable pub workers_arg : List (List ℕ) → Option ℕ
unfolding parse_usize
workers_arg [] = none
workers_arg (arg ∷ []) = none
workers_arg (arg ∷ val ∷ rest) =
    let later = workers_arg (val ∷ rest) in if is_workers_flag arg then parse_usize val else later

-- `num_workers_arg.unwrap_or(num_cores.saturating_sub(1))`
abbrev pub num_workers : Option ℕ → ℕ → ℕ
num_workers none num_cores = num_cores - 1
num_workers (some n) num_cores = n

abbrev pub is_none : Option ℕ → Bool
is_none none = true
is_none (some n) = false

-- The cores of `rest` workers from the `i`th on.
pub worker_cores : List ℕ → ℕ → ℕ → Outcome (List ℕ)
worker_cores core_ids i zero = done []
worker_cores core_ids i (suc rest) = do
  core ← need (get_elem? core_ids ((i + 1) % length core_ids))
  cores ← worker_cores core_ids (i + 1) rest
  done (core ∷ cores)

-- The master's core and those of the workers.
unfoldable pub topology : Option ℕ → List ℕ → Outcome (ℕ × List ℕ)
unfolding worker_cores
topology num_workers_arg core_ids =
    let n = num_workers num_workers_arg (length core_ids) in
    if n == 0
    then panic
    else if ltb (length core_ids) 2 && is_none num_workers_arg
    then panic
    else (do
      master_core_id ← need (get_elem? core_ids 0)
      cores ← worker_cores core_ids 0 n
      done (master_core_id, cores))

-- What the threads are started with: the workers, each with its core, and the master with its core.
pub record System (C : Type 0) : Type 0 where
  pub workers : List (WorkerCore C × ℕ)
  pub master : MasterCore
  pub master_core_id : ℕ

-- The loop that makes a worker for each core; every worker has a ring buffer of its own.
unfoldable pub make_workers : {C : Type 0} → List ℕ → List (WorkerCore C × ℕ)
make_workers [] = []
make_workers (core_id ∷ cores) =
    (Start.new (Spsc.new PixelWrite) server_port, core_id) ∷ make_workers cores

abbrev pub queues_of : {C : Type 0} → List (WorkerCore C × ℕ) → List (SpscRingBuffer PixelWrite)
queues_of [] = []
queues_of ((worker, core_id) ∷ workers) = worker.admitter.master_queue ∷ queues_of workers

-- `main`, by its arguments, the cores of the machine and the clock as the master's loop begins.
pub main : {C : Type 0} → ℕ → List (List ℕ) → List ℕ → Outcome (System C)
unfolding topology workers_arg make_workers
main now_ms args core_ids = do
  cores ← topology (workers_arg args) core_ids
  let workers = make_workers cores.1
  done (record {
    workers = workers;
    master = record {
      workers = queues_of workers;
      canvas = Canvas.new;
      statics = initial_statics;
      last_broadcast_time = now_ms;
    };
    master_core_id = cores.0;
  })
