-- ===== src/Server/Waiting.antt =====
-- A write that waits in a worker's ring buffer, while the threads of server/src/main.rs go on.
use reddit_puzzle_system_des.Base.{ℕ, zero, suc, List, [], ◌∷◌, ◌++◌, set, ◌≡◌, subst, arith}
use reddit_puzzle_system_des.Spsc.Refine.{Holds}
use reddit_puzzle_system_des.Master.{PixelWrite}
use reddit_puzzle_system_des.Master.Drain.{AllHold}
use reddit_puzzle_system_des.Master.Waiting.{Waits, get_elem?-append}
use reddit_puzzle_system_des.EventLoop.{WorkerCore}
use reddit_puzzle_system_des.EventLoop.Grows.{Pushes}
use reddit_puzzle_system_des.Startup.{queues_of}
use reddit_puzzle_system_des.Server.Workers.{Runs}

-- What waits in some lists waits in the others.
abbrev pub StillWaits : List (List PixelWrite) → List (List PixelWrite) → Type 0
StillWaits pss pss' = (i n : ℕ) (p : PixelWrite) → Waits i n p pss → Waits i n p pss'

module _ {C : Type 0} where
  -- The lists of the ring buffers once worker `j` has pushed into its own.
  abbrev pub AfterPush : List (WorkerCore C × ℕ) → List (List PixelWrite) → Type 0
  AfterPush workers pss =
      (pss' : List (List PixelWrite)) × AllHold (queues_of workers) pss' × StillWaits pss pss'

  pub set-AfterPush :
      (workers : List (WorkerCore C × ℕ)) (pss : List (List PixelWrite)) (j : ℕ)
      (w w' : WorkerCore C) (core_id : ℕ)
      → Runs workers j w core_id
      → Pushes w.admitter w'.admitter
      → AllHold (queues_of workers) pss
      → AfterPush (set workers j (w', core_id)) pss
  set-AfterPush [] pss j w w' core_id runs pushes hold = absurd (ground (arith, runs))
  set-AfterPush ((u, here) ∷ workers) [] j w w' core_id runs pushes hold = absurd hold
  set-AfterPush ((u, here) ∷ workers) (ps ∷ pss) zero w w' core_id runs pushes (h, hold) =
      let same : u.admitter.master_queue ≡ w.admitter.master_queue = ground (arith, runs) in
      let (more, h') = pushes ps (subst (λ queue. Holds queue ps) same h) in
      ((ps ++ more) ∷ pss, (h', hold), first_still ps more pss)
    where
      first_still :
          (ps more : List PixelWrite) (pss : List (List PixelWrite))
          → StillWaits (ps ∷ pss) ((ps ++ more) ∷ pss)
      first_still ps more pss zero n p waits = get_elem?-append ps more n p waits
      first_still ps more pss (suc i) n p waits = waits
  set-AfterPush ((u, here) ∷ workers) (ps ∷ pss) (suc j) w w' core_id runs pushes (h, hold) =
      let (pss', hold', still) = set-AfterPush workers pss j w w' core_id runs pushes hold in
      (ps ∷ pss', (h, hold'), others_still ps pss pss' still)
    where
      others_still :
          (ps : List PixelWrite) (pss pss' : List (List PixelWrite))
          → StillWaits pss pss'
          → StillWaits (ps ∷ pss) (ps ∷ pss')
      others_still ps pss pss' still zero n p waits = waits
      others_still ps pss pss' still (suc i) n p waits = still i n p waits
