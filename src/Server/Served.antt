-- ===== src/Server/Served.antt =====
-- A pixel in a worker's ring buffer, from step to step of the threads of server/src/main.rs.
use reddit_puzzle_system_des.Base.{ℕ, ◌+◌, ◌*◌, ◌<◌, inl, inr, ◌⊎◌, List, ◌≡◌, sym, subst, arith}
use reddit_puzzle_system_des.Settings.{master_batch_drain}
use reddit_puzzle_system_des.Quiche.{Quiche}
use reddit_puzzle_system_des.Canvas.{Canvas}
use reddit_puzzle_system_des.Transport.Incoming.{Drains}
use reddit_puzzle_system_des.Transmit.Slots.{Sends}
use reddit_puzzle_system_des.Master.{PixelWrite}
use reddit_puzzle_system_des.EventLoop.{Cqueue}
use reddit_puzzle_system_des.EventLoop.Sound.{NeverRepeat}
use reddit_puzzle_system_des.EventLoop.Grows.{Grows-same}
use reddit_puzzle_system_des.EventLoop.Pushes.{run_turn-Pushes}
use reddit_puzzle_system_des.EventLoop.Start
use reddit_puzzle_system_des.Startup.{System}
use reddit_puzzle_system_des.Server.{
  with_master, Step, begin, turn, deliver, round, Reach, here, next,
}
use reddit_puzzle_system_des.Server.Safe.{IsSafe}
use reddit_puzzle_system_des.Server.Run.{Step-IsSafe}
use reddit_puzzle_system_des.Server.Service.{
  Any, IsSafe-Any, IsWaiting, rounds, Applied, with_worker-IsWaiting, Nearer, round-Nearer,
}

module _ (ring : Cqueue) (q : Quiche) (scids : ℕ → ℕ → List ℕ) (d : Drains q) (sends : Sends q)
    (apart : (i : ℕ) → NeverRepeat (scids i)) where
  open q use {Connection}

  Reach-IsSafe-Any :
      {s t : System Connection} → IsSafe scids Any s → Reach ring q scids s t → IsSafe scids Any t
  Reach-IsSafe-Any safe here = safe
  Reach-IsSafe-Any safe (next reach step) =
      Step-IsSafe ring q scids d sends apart Any step (Reach-IsSafe-Any safe reach) tt tt

  -- The write was applied on the way, or so many rounds have brought it nearer.
  Served : (s t : System Connection) → ℕ → ℕ → PixelWrite → ℕ → Type 0
  Served s t i n p count =
      Applied ring q scids s t i p
      ⊎ ((k : ℕ) × (n ≡ master_batch_drain * count + k) × IsWaiting t i k p)

  goes_on :
      {s t u : System Connection} {i : ℕ} {p : PixelWrite}
      → Step ring q scids t u
      → Applied ring q scids s t i p
      → Applied ring q scids s u i p
  goes_on step applied = record {
    before = applied.before;
    reached = applied.reached;
    master = applied.master;
    cpu = applied.cpu;
    now = applied.now;
    returned = applied.returned;
    pss = applied.pss;
    held = applied.held;
    place = applied.place;
    soon = applied.soon;
    waits = applied.waits;
    canvas = applied.canvas;
    occurs = applied.occurs;
    behind = next applied.behind step;
  }

  waits_on :
      (s : System Connection) (n count : ℕ) {t u : System Connection} {i : ℕ} {p : PixelWrite}
      → Step ring q scids t u
      → ((k : ℕ) → IsWaiting t i k p → IsWaiting u i k p)
      → Served s t i n p count
      → Served s u i n p count
  unfolding Served
  waits_on s n count step keeps (inl applied) = inl (goes_on step applied)
  waits_on s n count step keeps (inr (k, e, waiting)) = inr (k, e, keeps k waiting)

  reach-Served :
      {s t : System Connection} (i n : ℕ) (p : PixelWrite)
      → IsSafe scids Any s
      → IsWaiting s i n p
      → (reach : Reach ring q scids s t) → Served s t i n p (rounds ring q scids reach)
  unfolding Served rounds Start.start Nearer
  reach-Served i n p safe waiting here = inr (n, omega arith, waiting)
  reach-Served {s} i n p safe waiting
        (next {t = t} reach (begin j w core_id now_sec now_ms runs fresh e)) =
      waits_on s n (rounds ring q scids reach) (begin j w core_id now_sec now_ms runs fresh e)
        (λ k still.
          subst (λ v. IsWaiting v i k p) (sym e)
            (with_worker-IsWaiting ring q scids t i k p j w _ core_id runs
              (Grows-same w.admitter.master_queue) still))
        (reach-Served i n p safe waiting reach)
  reach-Served {s} i n p safe waiting
        (next {t = t} reach (turn j w w' core_id now_sec now_ms cqes allowed ends e)) =
      waits_on s n (rounds ring q scids reach)
        (turn j w w' core_id now_sec now_ms cqes allowed ends e)
        (λ k still.
          subst (λ v. IsWaiting v i k p) (sym e)
            (with_worker-IsWaiting ring q scids t i k p j w w' core_id allowed.here
              (run_turn-Pushes ring q (scids j) ends.0 t.master.statics now_sec now_ms cqes w w'
                (ends.1 ends.0 (omega arith)))
              still))
        (reach-Served i n p safe waiting reach)
  reach-Served {s} i n p safe waiting (next {t = t} reach (deliver j w core_id slab runs size e)) =
      waits_on s n (rounds ring q scids reach) (deliver j w core_id slab runs size e)
        (λ k still.
          subst (λ v. IsWaiting v i k p) (sym e)
            (with_worker-IsWaiting ring q scids t i k p j w _ core_id runs
              (Grows-same w.admitter.master_queue) still))
        (reach-Served i n p safe waiting reach)
  reach-Served {s} i n p safe waiting (next {t = t} reach (round cpu now m returned e)) =
      elim (reach-Served i n p safe waiting reach) [
        | inl applied ↦ inl (goes_on (round cpu now m returned e) applied)
        | inr (k, split, still) ↦
            elim (round-Nearer ring q scids t i k p cpu now m (Reach-IsSafe-Any safe reach) returned
              still) [
                | inl (pss, held, waits, soon, canvas, occurs) ↦ inl (record {
                  before = t;
                  reached = reach;
                  master = m;
                  cpu = cpu;
                  now = now;
                  returned = returned;
                  pss = pss;
                  held = held;
                  place = k;
                  soon = soon;
                  waits = waits;
                  canvas = canvas;
                  occurs = occurs;
                  behind = subst (Reach ring q scids (with_master m t)) (sym e) here;
                })
                | inr (k', split', nearer) ↦ inr (
                  k',
                  omega (arith, split, split'),
                  subst (λ v. IsWaiting v i k' p) (sym e) nearer,
                )
              ]
      ]

  -- With random ids that do not repeat within a worker, and a QUIC library that keeps the bound on a
  -- connection's received datagrams and has one packet less to send after each: from any safe state,
  -- in whatever order the threads take their turns and whatever they receive, once the master has
  -- made more rounds than `n` writes take at 4096 a round, one of these rounds has applied a write that
  -- waits behind `n` others in the ring buffer of worker `i`: just before it, the ring buffers held
  -- lists of writes, the write among the first 4096 of worker `i`, and the round has made the canvas
  -- what the first 4096 writes of every list, one after the other, make of it.
  pub write-Applied :
      (Seen : Canvas → Type 0) {s t : System Connection} (i n : ℕ) (p : PixelWrite)
      → IsSafe scids Seen s
      → IsWaiting s i n p
      → (reach : Reach ring q scids s t) → n < master_batch_drain * rounds ring q scids reach
      → Applied ring q scids s t i p
  unfolding Served
  write-Applied Seen i n p safe waiting reach enough =
      elim (reach-Served i n p (IsSafe-Any scids Seen safe) waiting reach) [
        | inl applied ↦ applied
        | inr (k, e, still) ↦ absurd (omega (arith, enough, e))
      ]
