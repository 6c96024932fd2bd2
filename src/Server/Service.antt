-- ===== src/Server/Service.antt =====
-- A pixel in a worker's ring buffer reaches the canvas, while the threads of server/src/main.rs go on.
use reddit_puzzle_system_des.Base.{
  ℕ, ◌+◌, ◌-◌, ◌≤◌, ◌<◌, ltb, Bool-cases, inl, inr, ◌⊎◌, some, List, ◌≡◌, ◌∙◌, sym, subst, arith,
}
use reddit_puzzle_system_des.Settings.{master_batch_drain}
use reddit_puzzle_system_des.Rle.{Cpu}
use reddit_puzzle_system_des.Quiche.{Quiche}
use reddit_puzzle_system_des.Canvas.{Canvas}
use reddit_puzzle_system_des.Master.{PixelWrite, MasterCore, iteration}
use reddit_puzzle_system_des.Master.Drain.{AllHold, apply_writes, batch, leftover}
use reddit_puzzle_system_des.Master.Waiting.{Waits, Occurs, batch-Occurs, leftover-Waits}
use reddit_puzzle_system_des.Master.Round.{Ready, iteration_lem}
use reddit_puzzle_system_des.EventLoop.{Cqueue, WorkerCore}
use reddit_puzzle_system_des.EventLoop.Grows.{Pushes}
use reddit_puzzle_system_des.Startup.{System, queues_of}
use reddit_puzzle_system_des.Server.{
  with_worker, with_master, begin, turn, deliver, round, Reach, here, next,
}
use reddit_puzzle_system_des.Server.Workers.{Runs, put_queues-shared}
use reddit_puzzle_system_des.Server.Safe.{IsSafe, IsSafe-weaken}
use reddit_puzzle_system_des.Server.Waiting.{set-AfterPush}

-- No canvas is ruled out.
abbrev pub Any : Canvas → Type 0
Any c = Unit

pub IsSafe-Any :
    {C : Type 0} (scids : ℕ → ℕ → List ℕ) (Seen : Canvas → Type 0) {s : System C}
    → IsSafe scids Seen s
    → IsSafe scids Any s
IsSafe-Any scids Seen safe = IsSafe-weaken scids Seen Any (λ c old. tt) safe

-- The write waits behind `n` others in the ring buffer of worker `i`.
abbrev pub IsWaiting : {C : Type 0} → System C → ℕ → ℕ → PixelWrite → Type 0
IsWaiting s i n p =
    (pss : List (List PixelWrite)) × AllHold (queues_of s.workers) pss × Waits i n p pss

some_injective : (a b : MasterCore) → some a ≡ some b → a ≡ b
some_injective a b e = cc

module _ (ring : Cqueue) (q : Quiche) (scids : ℕ → ℕ → List ℕ) where
  open q use {Connection}

  -- The rounds of the master on the way.
  unfoldable pub rounds : {s t : System Connection} → Reach ring q scids s t → ℕ
  rounds here = 0
  rounds (next reach (begin i w core_id now_sec now_ms runs fresh e)) = rounds reach
  rounds (next reach (turn i w w' core_id now_sec now_ms cqes allowed ends e)) = rounds reach
  rounds (next reach (deliver i w core_id slab runs size e)) = rounds reach
  rounds (next reach (round cpu now m returned e)) = 1 + rounds reach

  -- One of the rounds on the way has applied the write: it was among the first 4096 in the ring buffer
  -- of worker `i`, and the canvas became what the first 4096 writes of every ring buffer make of it.
  pub record Applied (s t : System Connection) (i : ℕ) (p : PixelWrite) : Type 0 where
    pub before : System Connection
    pub reached : Reach ring q scids s before
    pub master : MasterCore
    pub cpu : Cpu
    pub now : ℕ
    pub returned : iteration cpu now before.master ≡ some master
    pub pss : List (List PixelWrite)
    pub held : AllHold (queues_of before.workers) pss
    pub place : ℕ
    pub soon : place < master_batch_drain
    pub waits : Waits i place p pss
    pub canvas : master.canvas ≡ apply_writes (batch pss) before.master.canvas
    pub occurs : Occurs p (batch pss)
    pub behind : Reach ring q scids (with_master master before) t

  pub with_worker-IsWaiting :
      (s : System Connection) (i n : ℕ) (p : PixelWrite) (j : ℕ) (w w' : WorkerCore Connection)
      (core_id : ℕ)
      → Runs s.workers j w core_id
      → Pushes w.admitter w'.admitter
      → IsWaiting s i n p
      → IsWaiting (with_worker j w' core_id s) i n p
  unfolding with_worker
  with_worker-IsWaiting s i n p j w w' core_id runs pushes (pss, hold, waits) =
      let (pss', hold', still) = set-AfterPush s.workers pss j w w' core_id runs pushes hold in
      (pss', hold', still i n p waits)

  -- A round applies the write, or brings it nearer.
  unfoldable pub Nearer : System Connection → ℕ → ℕ → PixelWrite → MasterCore → Type 0
  Nearer s i n p m =
      ((pss : List (List PixelWrite)) × AllHold (queues_of s.workers) pss
        × Waits i n p pss
        × (n < master_batch_drain)
        × (m.canvas ≡ apply_writes (batch pss) s.master.canvas)
        × Occurs p (batch pss))
      ⊎ ((k : ℕ) × (n ≡ master_batch_drain + k) × IsWaiting (with_master m s) i k p)

  pub round-Nearer :
      (s : System Connection) (i n : ℕ) (p : PixelWrite) (cpu : Cpu) (now : ℕ) (m : MasterCore)
      → IsSafe scids Any s
      → iteration cpu now s.master ≡ some m
      → IsWaiting s i n p
      → Nearer s i n p m
  unfolding Nearer with_master
  round-Nearer s i n p cpu now m safe e (pss, hold, waits) =
      let ready : Ready s.master pss = record {
        queues = subst (λ queues. AllHold queues pss) (sym safe.shared) hold;
        whole = safe.whole;
        statics_valid = safe.valid;
      } in
      let (m', e', after, canvas, _) = iteration_lem cpu now pss ready in
      let same : m' ≡ m = some_injective m' m (sym e' ∙ e) in
      elim (Bool-cases (ltb n master_batch_drain)) [
        | inl soon ↦ inl (
          pss,
          hold,
          waits,
          ground (arith, soon),
          subst (λ (u : MasterCore). u.canvas ≡ apply_writes (batch pss) s.master.canvas) same
              canvas,
          batch-Occurs i n p pss waits (ground (arith, soon)),
        )
        | inr late ↦
            let far : master_batch_drain ≤ n = ground (arith, late) in
            let split : n ≡ master_batch_drain + (n - master_batch_drain) = omega (arith, far) in
            let queues =
              subst (λ (u : MasterCore). AllHold u.workers (leftover pss)) same after.queues in
            inr (
              n - master_batch_drain,
              split,
              (
                leftover pss,
                subst (λ qs. AllHold qs (leftover pss))
                    (put_queues-shared m.workers s.workers pss hold queues) queues,
                leftover-Waits i (n - master_batch_drain) p pss
                    (subst (λ k. Waits i k p pss) split waits),
              ),
            )
      ]
