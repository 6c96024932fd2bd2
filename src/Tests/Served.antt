-- ===== src/Tests/Served.antt =====
-- A server of one worker whose ring buffer holds a pixel, and a round of the master.
use reddit_puzzle_system_des.Base.{
  ℕ, zero, suc, subst, Option, some, List, [], ◌∷◌, get_elem?, ◌≡◌, refl, arith, inr,
}
use reddit_puzzle_system_des.Settings.{server_port}
use reddit_puzzle_system_des.Spsc
use reddit_puzzle_system_des.Spsc.{SpscRingBuffer, push}
use reddit_puzzle_system_des.Spsc.Refine.{Holds, new-Holds, push_refines}
use reddit_puzzle_system_des.Rle.{avx2}
use reddit_puzzle_system_des.Canvas
use reddit_puzzle_system_des.Canvas.{initial_statics}
use reddit_puzzle_system_des.Canvas.Pixels.{new-IsWhole}
use reddit_puzzle_system_des.Master.{PixelWrite, MasterCore}
use reddit_puzzle_system_des.Master.Drain.{AllHold}
use reddit_puzzle_system_des.Master.Publish.{initial_statics-IsValid}
use reddit_puzzle_system_des.EventLoop.{WorkerCore}
use reddit_puzzle_system_des.EventLoop.Sound.{IsSound}
use reddit_puzzle_system_des.EventLoop.Start.{new, new-IsSound}
use reddit_puzzle_system_des.Startup.{queues_of}
use reddit_puzzle_system_des.Server.{with_master, round, Reach, here, next}
use reddit_puzzle_system_des.Server.Safe.{IsSafe, HasSent}
use reddit_puzzle_system_des.Server.Steps.{round-returns}
use reddit_puzzle_system_des.Server.Service.{Any, rounds, Applied}
use reddit_puzzle_system_des.Server.Served.{write-Applied}
use reddit_puzzle_system_des.Tests.Transport.{mailbox, mailbox-Drains}
use reddit_puzzle_system_des.Tests.EventLoop.{linux, counted-NeverRepeat, quiet}
use reddit_puzzle_system_des.Tests.Server.{State, ids}

abbrev dot : PixelWrite
dot = record { x = 8; y = 9; color = 1 }

abbrev queue : SpscRingBuffer PixelWrite
queue = (push (Spsc.new PixelWrite) dot).1

queue-Holds : Holds queue (dot ∷ [])
queue-Holds = (push_refines dot new-Holds).1

abbrev worker : WorkerCore (Option (List ℕ))
worker = new queue server_port

abbrev busy : State
busy = record {
  workers = (worker, 11) ∷ [];
  master = record {
    workers = queue ∷ [];
    canvas = Canvas.new;
    statics = initial_statics;
    last_broadcast_time = 0;
  };
  master_core_id = 10;
}

only_worker :
    (P : ℕ → WorkerCore (Option (List ℕ)) → Type 0)
    → P 0 worker
    → (i : ℕ) (w : WorkerCore (Option (List ℕ))) (core_id : ℕ)
    → get_elem? busy.workers i ≡ some (w, core_id)
    → P i w
only_worker P first zero w core_id runs =
    let same : worker ≡ w = ground (arith, runs) in subst (P 0) same first
only_worker P first (suc i) w core_id runs = absurd (ground (arith, runs))

busy-IsSafe : IsSafe ids Any busy
unfolding new initial_statics Canvas.new
busy-IsSafe = record {
  shared = refl;
  sound = only_worker (λ i w. IsSound (ids i) w) (new-IsSound (ids 0) server_port queue-Holds);
  sent = only_worker (λ i w. HasSent ids Any w) (Canvas.new, tt, refl);
  whole = new-IsWhole;
  valid = initial_statics-IsValid;
  shown = inr (
    refl,
    only_worker (λ i w. w.broadcaster.last_broadcast_index ≡ initial_statics.active_index) refl,
  );
}

waiting : AllHold (queues_of busy.workers) ((dot ∷ []) ∷ [])
unfolding new
waiting = (queue-Holds, tt)

abbrev rounded : MasterCore
rounded = (round-returns ids Any avx2 120 busy-IsSafe).0

one_round : Reach linux mailbox ids busy (with_master rounded busy)
one_round = next here (round avx2 120 rounded (round-returns ids Any avx2 120 busy-IsSafe).1 refl)

one : rounds linux mailbox ids one_round ≡ 1
unfolding rounds one_round
one = refl

write-Applied_example : Applied linux mailbox ids busy (with_master rounded busy) 0 dot
write-Applied_example =
    write-Applied linux mailbox ids mailbox-Drains quiet (λ worker. counted-NeverRepeat) Any 0 0 dot
      busy-IsSafe ((dot ∷ []) ∷ [], waiting, refl) one_round (omega (arith, one))
