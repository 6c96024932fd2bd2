-- ===== src/Server/Steps.antt =====
-- Every step of the server's threads of server/src/main.rs keeps their invariant.
use reddit_puzzle_system_des.Base.{ℕ, Bool-cases, some, List, ◌≡◌, inl, inr, sym, ap, ◌∙◌, subst}
use reddit_puzzle_system_des.Spsc.{SpscRingBuffer}
use reddit_puzzle_system_des.Spsc.Refine.{Holds}
use reddit_puzzle_system_des.Rle.{Cpu}
use reddit_puzzle_system_des.Canvas.{Canvas}
use reddit_puzzle_system_des.Canvas.Pixels.{IsWhole}
use reddit_puzzle_system_des.Master.{PixelWrite, MasterCore, iteration}
use reddit_puzzle_system_des.Master.Drain.{AllHold, leftover}
use reddit_puzzle_system_des.Master.Snapshot.{Shows}
use reddit_puzzle_system_des.Master.Round.{Ready, is_due, AfterTest, iteration_lem}
use reddit_puzzle_system_des.EventLoop.{WorkerCore}
use reddit_puzzle_system_des.EventLoop.Sound.{IsSound}
use reddit_puzzle_system_des.Startup.{System, queues_of}
use reddit_puzzle_system_des.Server.{put_queue, with_master}
use reddit_puzzle_system_des.Server.Workers.{
  queues_of-AllHold, put_queues-shared, put_queues-Shares,
}
use reddit_puzzle_system_des.Server.Safe.{HasSent, IsShown, IsSafe}

some_injective : (a b : MasterCore) → some a ≡ some b → a ≡ b
some_injective a b e = cc

module _ {C : Type 0} (scids : ℕ → ℕ → List ℕ) (Seen : Canvas → Type 0) where
  put_queue-IsSound :
      (ids : ℕ → List ℕ) {w : WorkerCore C} (queue : SpscRingBuffer PixelWrite)
      {ps : List PixelWrite}
      → Holds queue ps
      → IsSound ids w
      → IsSound ids (put_queue queue w)
  put_queue-IsSound ids queue {ps} holds s = record {
    steady = record {
      shared = s.steady.shared;
      unused = s.steady.unused;
      quota = record (s.steady.quota) { waiting = ps };
      models = record {
        cooldowns = s.steady.models.cooldowns;
        queue = holds;
        clock = s.steady.models.clock;
      };
      ready = s.steady.ready;
    };
    pool = s.pool;
    slab = s.slab;
  }

  -- What the workers' queues hold.
  waiting :
      {s : System C} → IsSafe scids Seen s → (pss : List (List PixelWrite)) × Ready s.master pss
  waiting {s} safe =
      let (pss, hold) = queues_of-AllHold s.workers (λ i w core_id runs.
        let sound = safe.sound i w core_id runs in
        (sound.steady.quota.waiting, sound.steady.models.queue)) in
      (
        pss,
        record {
          queues = subst (λ queues. AllHold queues pss) (sym safe.shared) hold;
          whole = safe.whole;
          statics_valid = safe.valid;
        },
      )

  -- A round of the master returns.
  pub round-returns :
      {s : System C} (cpu : Cpu) (now : ℕ)
      → IsSafe scids Seen s
      → (m : MasterCore) × (iteration cpu now s.master ≡ some m)
  round-returns cpu now safe =
      let (pss, ready) = waiting safe in
      let (m, e, _, _, _) = iteration_lem cpu now pss ready in (m, e)

  with_master-IsShown :
      (s : System C) (now : ℕ) (m : MasterCore) (pss : List (List PixelWrite))
      → AllHold (queues_of s.workers) pss
      → AllHold m.workers (leftover pss)
      → AfterTest now s.master m
      → Seen m.canvas
      → IsWhole m.canvas
      → IsShown scids Seen s
      → IsShown scids Seen (with_master m s)
  unfolding with_master
  with_master-IsShown s now m pss before after (due, early) seen whole shown =
      elim (Bool-cases (is_due now s.master)) [
        | inl passed ↦ inl (m.canvas, seen, whole, (due passed).0)
        | inr short ↦ elim shown [
          | inl (c, old, c_whole, shows) ↦
              inl (c, old, c_whole, subst (Shows c) (sym (early short).0) shows)
          | inr (fresh, unmoved) ↦ inr (
            (early short).0 ∙ fresh,
            λ i w' core_id runs.
                let (w, queue, ps, was, e, _) =
                  put_queues-Shares m.workers s.workers pss i w' core_id before after runs in
                ap (λ (u : WorkerCore C). u.broadcaster.last_broadcast_index) e
                ∙ unmoved i w core_id was,
          )
        ]
      ]

  with_master-IsSafe :
      (s : System C) (now : ℕ) (m : MasterCore) (pss : List (List PixelWrite))
      → IsSafe scids Seen s
      → Ready s.master pss
      → Ready m (leftover pss)
      → AfterTest now s.master m
      → Seen m.canvas
      → IsSafe scids Seen (with_master m s)
  unfolding with_master
  with_master-IsSafe s now m pss safe before after test seen =
      let hold = subst (λ queues. AllHold queues pss) safe.shared before.queues in
      record {
        shared = put_queues-shared m.workers s.workers pss hold after.queues;
        sound = λ i w' core_id runs.
            let (w, queue, ps, was, e, holds) =
              put_queues-Shares m.workers s.workers pss i w' core_id hold after.queues runs in
            subst (IsSound (scids i)) (sym e)
              (put_queue-IsSound (scids i) queue holds (safe.sound i w core_id was));
        sent = λ i w' core_id runs.
            let (w, queue, ps, was, e, holds) =
              put_queues-Shares m.workers s.workers pss i w' core_id hold after.queues runs in
            subst (HasSent scids Seen) (sym e) (safe.sent i w core_id was);
        whole = after.whole;
        valid = after.statics_valid;
        shown = with_master-IsShown s now m pss hold after.queues test seen after.whole safe.shown;
      }

  pub round-IsSafe :
      (s : System C) (cpu : Cpu) (now : ℕ) (m : MasterCore)
      → IsSafe scids Seen s
      → iteration cpu now s.master ≡ some m
      → Seen m.canvas
      → IsSafe scids Seen (with_master m s)
  round-IsSafe s cpu now m safe e seen =
      let (pss, ready) = waiting safe in
      let (m', e', ready', _, after) = iteration_lem cpu now pss ready in
      let same : m' ≡ m = some_injective m' m (sym e' ∙ e) in
      with_master-IsSafe s now m pss safe ready (subst (λ u. Ready u (leftover pss)) same ready')
        (subst (AfterTest now s.master) same after) seen
