-- ===== src/Server.antt =====
-- The threads that `main` of server/src/main.rs starts, together: the workers' event loops of
-- server/src/worker.rs and the master's loop of server/src/master.rs, over the ring buffers and the
-- statics that they share. The threads take turns: a step is one turn of a worker, one round of the
-- master, or the kernel at work on a worker's buffers.
pub mod Workers
pub mod Safe
pub mod Steps
pub mod Run
pub mod Main
pub mod Waiting
pub mod Service
pub mod Served
use reddit_puzzle_system_des.Base.{ℕ, ◌≤◌, some, List, [], ◌∷◌, length, get_elem?, set, All, ◌≡◌}
use reddit_puzzle_system_des.Canvas.{Canvas}
use reddit_puzzle_system_des.Spsc.{SpscRingBuffer}
use reddit_puzzle_system_des.Rle.{Cpu}
use reddit_puzzle_system_des.Quiche.{Quiche}
use reddit_puzzle_system_des.Master.{PixelWrite, MasterCore, iteration}
use reddit_puzzle_system_des.EventLoop.{Cqueue, Cqe, WorkerCore}
use reddit_puzzle_system_des.EventLoop.Sound.{IsReceive, IsOfSends}
use reddit_puzzle_system_des.EventLoop.Turn.{Ends}
use reddit_puzzle_system_des.EventLoop.Start
use reddit_puzzle_system_des.Startup.{System, queues_of}

-- A worker with what the master left in its ring buffer.
abbrev pub put_queue : {C : Type 0} → SpscRingBuffer PixelWrite → WorkerCore C → WorkerCore C
put_queue queue w = record w { admitter = record (w.admitter) { master_queue = queue } }

pub put_queues :
    {C : Type 0}
    → List (SpscRingBuffer PixelWrite)
    → List (WorkerCore C × ℕ)
    → List (WorkerCore C × ℕ)
put_queues [] workers = workers
put_queues (queue ∷ queues) [] = []
put_queues (queue ∷ queues) ((w, core_id) ∷ workers) =
    (put_queue queue w, core_id) ∷ put_queues queues workers

-- Worker `i` goes on; the master shares its ring buffer.
unfoldable pub with_worker : {C : Type 0} → ℕ → WorkerCore C → ℕ → System C → System C
with_worker i w core_id s =
    let workers = set s.workers i (w, core_id) in
    record s { workers = workers; master = record (s.master) { workers = queues_of workers } }

-- The master has made a round; the workers share their ring buffers.
pub with_master : {C : Type 0} → MasterCore → System C → System C
unfolding put_queues
with_master m s = record s { workers = put_queues m.workers s.workers; master = m }

-- Each worker draws random ids of its own.
module _ (ring : Cqueue) (q : Quiche) (scids : ℕ → ℕ → List ℕ) where
  open q use {Connection}

  -- A turn that worker `i` may make: its loop has begun, and the kernel reports what it has done.
  pub record IsTurn (s : System Connection) (i : ℕ) (w : WorkerCore Connection) (core_id : ℕ)
      (cqes : List Cqe) : Type 0 where
    pub here : get_elem? s.workers i ≡ some (w, core_id)
    pub begun : 1 ≤ w.armed
    pub few : length cqes ≤ 65_535
    pub received : All (IsReceive ring w.buffer_slab) cqes
    pub completed : IsOfSends cqes w

  pub data Step (s t : System Connection) : Type 0 where
    begin :
        (i : ℕ) (w : WorkerCore Connection) (core_id now_sec now_ms : ℕ)
        → get_elem? s.workers i ≡ some (w, core_id)
        → w.armed ≡ 0
        → t ≡ with_worker i (Start.start s.master.statics.active_index now_sec now_ms w) core_id s
        → Step s t
    turn :
        (i : ℕ) (w w' : WorkerCore Connection) (core_id now_sec now_ms : ℕ) (cqes : List Cqe)
        → IsTurn s i w core_id cqes
        → Ends ring q (scids i) s.master.statics now_sec now_ms cqes w w'
        → t ≡ with_worker i w' core_id s
        → Step s t
    deliver :
        (i : ℕ) (w : WorkerCore Connection) (core_id : ℕ) (slab : List ℕ)
        → get_elem? s.workers i ≡ some (w, core_id)
        → length slab ≡ length w.buffer_slab
        → t ≡ with_worker i (record w { buffer_slab = slab }) core_id s
        → Step s t
    round :
        (cpu : Cpu) (now : ℕ) (m : MasterCore)
        → iteration cpu now s.master ≡ some m
        → t ≡ with_master m s
        → Step s t

  pub data Reach (s : System Connection) : System Connection → Type 0 where
    here : Reach s s
    next : {t u : System Connection} → Reach s t → Step t u → Reach s u

  -- The canvas is one that the master had on the way, in a state between the two.
  abbrev pub Was : System Connection → System Connection → Canvas → Type 0
  Was s t c = (u : System Connection) × Reach s u × Reach u t × (u.master.canvas ≡ c)
