-- ===== src/Server/Main.antt =====
-- The server from `main` of server/src/main.rs on.
use reddit_puzzle_system_des.Base.{
  ℕ, zero, suc, some, List, [], ◌∷◌, ◌≡◌, ap, sym, subst, refl, arith, inr,
}
use reddit_puzzle_system_des.Settings.{server_port}
use reddit_puzzle_system_des.Outcome.{done}
use reddit_puzzle_system_des.Spsc
use reddit_puzzle_system_des.Spsc.Refine.{new-Holds}
use reddit_puzzle_system_des.Rle.{Cpu}
use reddit_puzzle_system_des.Quiche.{Quiche}
use reddit_puzzle_system_des.Canvas
use reddit_puzzle_system_des.Canvas.{initial_statics}
use reddit_puzzle_system_des.Canvas.Pixels.{new-IsWhole}
use reddit_puzzle_system_des.Transport.Incoming.{Drains}
use reddit_puzzle_system_des.Transmit.Slots.{Sends}
use reddit_puzzle_system_des.Master.{PixelWrite, MasterCore, iteration}
use reddit_puzzle_system_des.Master.Publish.{initial_statics-IsValid}
use reddit_puzzle_system_des.EventLoop.{Cqueue, Cqe, WorkerCore}
use reddit_puzzle_system_des.EventLoop.Sound.{NeverRepeat, IsSound}
use reddit_puzzle_system_des.EventLoop.Turn.{Ends}
use reddit_puzzle_system_des.EventLoop.Start
use reddit_puzzle_system_des.EventLoop.Start.{new-IsSound}
use reddit_puzzle_system_des.Startup.{make_workers, System, main}
use reddit_puzzle_system_des.Startup.Launch.{launched, main-launched}
use reddit_puzzle_system_des.Server.{IsTurn, Reach, here, Was}
use reddit_puzzle_system_des.Server.Workers.{Runs}
use reddit_puzzle_system_des.Server.Safe.{IsSafe}
use reddit_puzzle_system_des.Server.Steps.{round-returns}
use reddit_puzzle_system_des.Server.Run.{turn-IsSafe, Reach-IsSafe}

module _ {C : Type 0} where
  some_injective : (a b : WorkerCore C × ℕ) → some a ≡ some b → a ≡ b
  some_injective a b e = cc

  make_workers-new :
      (cores : List ℕ) (i : ℕ) (w : WorkerCore C) (core_id : ℕ)
      → Runs (make_workers cores) i w core_id
      → Start.new (Spsc.new PixelWrite) server_port ≡ w
  unfolding make_workers
  make_workers-new [] i w core_id runs = absurd (ground (arith, runs))
  make_workers-new (core ∷ cores) zero w core_id runs = ap (λ p. p.0) (some_injective _ _ runs)
  make_workers-new (core ∷ cores) (suc i) w core_id runs = make_workers-new cores i w core_id runs

module _ (ring : Cqueue) (q : Quiche) (scids : ℕ → ℕ → List ℕ) where
  open q use {Connection}

  launched-IsSafe :
      (now_ms core : ℕ) (cores : List ℕ)
      → let s = launched Connection now_ms core cores in IsSafe scids (Was ring q scids s s) s
  unfolding Start.new Canvas.new initial_statics
  launched-IsSafe now_ms core cores = record {
    shared = refl;
    sound = λ i w core_id runs.
        subst (IsSound (scids i)) (make_workers-new cores i w core_id runs)
          (new-IsSound (scids i) server_port new-Holds);
    sent = λ i w core_id runs. (
      Canvas.new,
      (launched Connection now_ms core cores, here, here, refl),
      ap (λ (u : WorkerCore Connection). u.broadcaster.last_sent_canvas)
          (sym (make_workers-new cores i w core_id runs)),
    );
    whole = new-IsWhole;
    valid = initial_statics-IsValid;
    shown = inr (
      refl,
      λ i w core_id runs.
          ap (λ (u : WorkerCore Connection). u.broadcaster.last_broadcast_index)
            (sym (make_workers-new cores i w core_id runs)),
    );
  }

module _ (ring : Cqueue) (q : Quiche) (scids : ℕ → ℕ → List ℕ) (d : Drains q) (sends : Sends q)
    (apart : (i : ℕ) → NeverRepeat (scids i)) where
  open q use {Connection}

  -- With random ids that do not repeat within a worker, and a QUIC library that keeps the bound on a
  -- connection's received datagrams and has one packet less to send after each: in every state that
  -- the threads reach from what `main` makes, in whatever order they take their turns, whatever the
  -- clocks say and the packets hold, the master and the workers share their ring buffers, every
  -- worker is sound, the canvas is whole, the statics are well formed, and the active slot shows a
  -- canvas that the master had in a state on the way to this one, or else the statics are still the
  -- initial ones and no worker looks for another slot; and the canvas that a worker has sent last,
  -- all zeros if none, is one that the master had in a state on the way to this one.
  pub reached-IsSafe :
      (now_ms : ℕ) (args : List (List ℕ)) (core_ids : List ℕ) (system t : System Connection)
      → main now_ms args core_ids ≡ done system
      → Reach ring q scids system t
      → IsSafe scids (Was ring q scids system t) t
  reached-IsSafe now_ms args core_ids system t started reach =
      let (core, cores, e) = main-launched Connection now_ms args core_ids system started in
      Reach-IsSafe ring q scids d sends apart
        (subst (λ s. IsSafe scids (Was ring q scids s s) s) e
          (launched-IsSafe ring q scids now_ms core cores))
        reach

  -- The master's round returns, and so does every turn that a worker may make, for all fuel that is
  -- enough.
  pub record GoesOn (t : System Connection) : Type 0 where
    pub rounds : (cpu : Cpu) (now : ℕ) → (m : MasterCore) × (iteration cpu now t.master ≡ some m)
    pub turns :
        (i : ℕ) (w : WorkerCore Connection) (core_id now_sec now_ms : ℕ) (cqes : List Cqe)
        → IsTurn ring q scids t i w core_id cqes
        → (w' : WorkerCore Connection) × Ends ring q
            (scids i)
            t.master.statics
            now_sec
            now_ms
            cqes
            w
            w'

  -- With random ids that do not repeat within a worker, and a QUIC library that keeps the bound on a
  -- connection's received datagrams and has one packet less to send after each: in every state that
  -- the threads reach from what `main` makes, no thread panics: whatever the clock says, a round of
  -- the master returns, and a turn of a worker returns with one result for all fuel that is enough,
  -- when its loop has begun and the kernel names buffers that it has filled and completes sends that
  -- are in flight, each once, with at most 65535 completions.
  pub reached-GoesOn :
      (now_ms : ℕ) (args : List (List ℕ)) (core_ids : List ℕ) (system t : System Connection)
      → main now_ms args core_ids ≡ done system
      → Reach ring q scids system t
      → GoesOn t
  reached-GoesOn now_ms args core_ids system t started reach =
      let safe = reached-IsSafe now_ms args core_ids system t started reach in
      record {
        rounds = λ cpu now. round-returns scids (Was ring q scids system t) cpu now safe;
        turns = λ i w core_id now_sec now_ms' cqes allowed.
            let (w', ends, _) =
              turn-IsSafe ring q scids d sends apart (Was ring q scids system t) safe
                (t, reach, here, refl) i w core_id now_sec now_ms' cqes allowed in
            (w', ends);
      }
