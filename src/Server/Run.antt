-- ===== src/Server/Run.antt =====
-- What holds in every state that the threads of server/src/main.rs reach.
use reddit_puzzle_system_des.Base.{
  ℕ, List, [], length, ◌≡◌, ◌≢◌, inl, inr, sym, ap, ◌∙◌, subst, refl,
}
use native.Mathlib.Decide.{ℕ_discrete}
use reddit_puzzle_system_des.Quiche.{Quiche}
use reddit_puzzle_system_des.Canvas.{Canvas, Statics}
use reddit_puzzle_system_des.Canvas.Pixels.{IsWhole}
use reddit_puzzle_system_des.Transport.Incoming.{Drains}
use reddit_puzzle_system_des.Transmit.Slots.{Sends}
use reddit_puzzle_system_des.Broadcast.{Broadcaster}
use reddit_puzzle_system_des.Master.Snapshot.{Shows}
use reddit_puzzle_system_des.EventLoop.{Cqueue, Cqe, WorkerCore}
use reddit_puzzle_system_des.EventLoop.Sound.{NeverRepeat, IsSound}
use reddit_puzzle_system_des.EventLoop.Output.{Tells}
use reddit_puzzle_system_des.EventLoop.Turn.{Ends, Ends-unique, run_turn_lem}
use reddit_puzzle_system_des.EventLoop.Start
use reddit_puzzle_system_des.EventLoop.Start.{started-IsSound}
use reddit_puzzle_system_des.Startup.{System}
use reddit_puzzle_system_des.Server.{
  with_worker, with_master, IsTurn, Step, begin, turn, deliver, round,
}
use reddit_puzzle_system_des.Server.Workers.{Runs}
use reddit_puzzle_system_des.Server.{Reach, here, next, Was}
use reddit_puzzle_system_des.Server.Safe.{HasSent, IsSafe, IsSafe-weaken, with_worker-IsSafe}
use reddit_puzzle_system_des.Server.Steps.{round-IsSafe}

module _ (ring : Cqueue) (q : Quiche) (scids : ℕ → ℕ → List ℕ) (d : Drains q) (sends : Sends q)
    (apart : (i : ℕ) → NeverRepeat (scids i)) where
  open q use {Connection}

  module _ (Seen : Canvas → Type 0) {s : System Connection} (safe : IsSafe scids Seen s) where
    -- The canvas that a worker finds in the active slot, when it has not sent that slot.
    Finds : WorkerCore Connection → Type 0
    Finds w =
        (c : Canvas) × Seen c
        × IsWhole c
        × (s.master.statics.active_index ≢ w.broadcaster.last_broadcast_index
            → Shows c s.master.statics)

    finds :
        Seen s.master.canvas
        → (i : ℕ) (w : WorkerCore Connection) (core_id : ℕ) → Runs s.workers i w core_id
        → Finds w
    unfolding Finds
    finds seen i w core_id runs = elim (safe.shown) [
      | inl (c, old, whole, shows) ↦ (c, old, whole, λ new. shows)
      | inr (fresh, unmoved) ↦ (
        s.master.canvas,
        seen,
        safe.whole,
        λ new.
            absurd
              (new (ap (λ (u : Statics). u.active_index) fresh ∙ sym (unmoved i w core_id runs))),
      )
    ]

    Tells-HasSent :
        (c : Canvas)
        → Seen c
        → (w w' : WorkerCore Connection)
        → Tells ring q (λ n. []) c s.master.statics w.broadcaster w'.broadcaster
        → HasSent scids Seen w
        → HasSent scids Seen w'
    Tells-HasSent c old w w' (index, new, same) (was, seen, e) =
        elim (ℕ_discrete s.master.statics.active_index w.broadcaster.last_broadcast_index) [
          | yes agrees ↦ (was, seen, ap (λ (b : Broadcaster). b.last_sent_canvas) (same agrees) ∙ e)
          | no differs ↦ (c, old, new differs)
        ]

    -- A turn of a worker ends in a state that is safe again.
    pub turn-IsSafe :
        Seen s.master.canvas
        → (i : ℕ) (w : WorkerCore Connection) (core_id now_sec now_ms : ℕ) (cqes : List Cqe)
        → IsTurn ring q scids s i w core_id cqes
        → (w' : WorkerCore Connection) × Ends ring q
            (scids i)
            s.master.statics
            now_sec
            now_ms
            cqes
            w
            w'
          × IsSafe scids Seen (with_worker i w' core_id s)
    unfolding Finds
    turn-IsSafe seen i w core_id now_sec now_ms cqes allowed =
        let (c, old, whole, shows) = finds seen i w core_id allowed.here in
        let (w', ends, turned) =
          run_turn_lem ring q (scids i) d sends (apart i) {c = c} now_sec now_ms cqes w safe.valid
            whole shows (safe.sound i w core_id allowed.here) allowed.few allowed.received
            allowed.completed in
        (
          w',
          ends,
          with_worker-IsSafe scids Seen i w w' core_id safe allowed.here turned.sound
              (Tells-HasSent c old w w' turned.tells (safe.sent i w core_id allowed.here))
              (λ fresh' unmoved. turned.tells.0 ∙ ap (λ (u : Statics). u.active_index) fresh'),
        )

  filled :
      (ids : ℕ → List ℕ) (w : WorkerCore Connection) (slab : List ℕ)
      → length slab ≡ length w.buffer_slab
      → IsSound ids w
      → IsSound ids (record w { buffer_slab = slab })
  filled ids w slab same s = record {
    steady = record {
      shared = s.steady.shared;
      unused = s.steady.unused;
      quota = s.steady.quota;
      models = s.steady.models;
      ready = s.steady.ready;
    };
    pool = s.pool;
    slab = same ∙ s.slab;
  }

  pub Step-IsSafe :
      (Seen : Canvas → Type 0) {s t : System Connection}
      → Step ring q scids s t
      → IsSafe scids Seen s
      → Seen s.master.canvas
      → Seen t.master.canvas
      → IsSafe scids Seen t
  unfolding Start.start with_master
  Step-IsSafe Seen {s} {t} (begin i w core_id now_sec now_ms runs fresh e) safe before after =
      subst (IsSafe scids Seen) (sym e) (
        with_worker-IsSafe scids Seen i w _ core_id safe runs
          (started-IsSound (scids i) s.master.statics.active_index now_sec now_ms
            (safe.sound i w core_id runs))
          (safe.sent i w core_id runs)
          (λ fresh' unmoved. ap (λ (u : Statics). u.active_index) fresh'))
  Step-IsSafe Seen {s} {t} (turn i w w' core_id now_sec now_ms cqes allowed ends e) safe before
        after =
      let (found, ends', safe') =
        turn-IsSafe Seen safe before i w core_id now_sec now_ms cqes allowed in
      let same : found ≡ w' =
        Ends-unique ring q (scids i) s.master.statics now_sec now_ms cqes w found w' ends' ends in
      subst (IsSafe scids Seen) (sym e)
        (subst (λ u. IsSafe scids Seen (with_worker i u core_id s)) same safe')
  Step-IsSafe Seen {s} {t} (deliver i w core_id slab runs size e) safe before after =
      subst (IsSafe scids Seen) (sym e) (
        with_worker-IsSafe scids Seen i w _ core_id safe runs
          (filled (scids i) w slab size (safe.sound i w core_id runs)) (safe.sent i w core_id runs)
          (λ fresh' unmoved. unmoved))
  Step-IsSafe Seen {s} {t} (round cpu now m returned e) safe before after =
      subst (IsSafe scids Seen) (sym e) (
        round-IsSafe scids Seen s cpu now m safe returned
          (subst Seen (ap (λ (u : System Connection). u.master.canvas) e) after))

  -- A canvas on the way to a state is one on the way to the next.
  Was-next :
      {s t u : System Connection}
      → Step ring q scids t u
      → (c : Canvas) → Was ring q scids s t c
      → Was ring q scids s u c
  Was-next step c (v, reach, onwards, same) = (v, reach, next onwards step, same)

  pub Reach-IsSafe :
      {s t : System Connection}
      → IsSafe scids (Was ring q scids s s) s
      → Reach ring q scids s t
      → IsSafe scids (Was ring q scids s t) t
  Reach-IsSafe safe here = safe
  Reach-IsSafe {s} {t} safe (next {t = before} reach step) =
      Step-IsSafe (Was ring q scids s t) step
        (IsSafe-weaken scids (Was ring q scids s before) (Was ring q scids s t) (Was-next step)
          (Reach-IsSafe safe reach))
        (before, reach, next here step, refl) (t, next reach step, here, refl)
