-- ===== src/Tests/Server.antt =====
-- A server of two workers on three cores, whose first worker begins, gets a packet and makes a turn.
use reddit_puzzle_system_des.Base.{
  ℕ, Option, some, List, [], ◌∷◌, length, get_elem?, ◌≡◌, ◌∙◌, sym, refl, arith,
}
use reddit_puzzle_system_des.Outcome.{done}
use reddit_puzzle_system_des.Settings.{server_port}
use reddit_puzzle_system_des.Canvas.{initial_statics}
use reddit_puzzle_system_des.Spsc
use reddit_puzzle_system_des.Spsc.Refine.{new-Holds}
use reddit_puzzle_system_des.Master.{PixelWrite}
use reddit_puzzle_system_des.EventLoop.{WorkerCore}
use reddit_puzzle_system_des.EventLoop.Start.{new, start, new-IsSound}
use reddit_puzzle_system_des.Startup.{workers_arg, topology, make_workers, System, main}
use reddit_puzzle_system_des.Startup.Launch.{launched, main-eq}
use reddit_puzzle_system_des.Server.{
  with_worker, IsTurn, Step, begin, turn, deliver, Reach, here, next, Was,
}
use reddit_puzzle_system_des.Server.Safe.{IsSafe}
use reddit_puzzle_system_des.Server.Main.{GoesOn, reached-IsSafe, reached-GoesOn}
use reddit_puzzle_system_des.Tests.Transport.{mailbox, mailbox-Drains}
use reddit_puzzle_system_des.Tests.EventLoop.{
  linux, counted, counted-NeverRepeat, quiet, first, first-IsSound, batch, batch-IsReceive,
  batch-IsOfSends,
}

abbrev pub State : Type 0
State = System (Option (List ℕ))

abbrev pub ids : ℕ → ℕ → List ℕ
ids worker = counted

abbrev pub made : State
made = launched (Option (List ℕ)) 77 10 (11 ∷ 12 ∷ [])

pub main-made : main 77 ((115 ∷ []) ∷ []) (10 ∷ 11 ∷ 12 ∷ []) ≡ done made
unfolding workers_arg topology
main-made =
    main-eq (Option (List ℕ)) 77 ((115 ∷ []) ∷ []) (10 ∷ 11 ∷ 12 ∷ []) 10 (11 ∷ 12 ∷ []) refl

abbrev idle : WorkerCore (Option (List ℕ))
idle = new (Spsc.new PixelWrite) server_port

abbrev begun : State
begun = with_worker 0 (start 0 1_000 5_000 idle) 11 made

begins : Step linux mailbox ids made begun
unfolding make_workers new initial_statics
begins = begin 0 idle 11 1_000 5_000 refl refl refl

-- The kernel has put a packet into a buffer of the first worker.
abbrev delivered : State
delivered = with_worker 0 first 11 begun

begun_runs : get_elem? begun.workers 0 ≡ some (start 0 1_000 5_000 idle, 11)
unfolding make_workers with_worker
begun_runs = refl

delivered_runs : get_elem? delivered.workers 0 ≡ some (first, 11)
unfolding make_workers with_worker
delivered_runs = refl

slab_size : length first.buffer_slab ≡ length idle.buffer_slab
slab_size = first-IsSound.slab ∙ sym (new-IsSound counted server_port new-Holds).slab

delivers : Step linux mailbox ids begun delivered
unfolding start
delivers = deliver 0 (start 0 1_000 5_000 idle) 11 first.buffer_slab begun_runs slab_size refl

reached : Reach linux mailbox ids made delivered
reached = next (next here begins) delivers

onwards : GoesOn linux mailbox ids mailbox-Drains quiet (λ worker. counted-NeverRepeat) delivered
onwards =
    reached-GoesOn linux mailbox ids mailbox-Drains quiet (λ worker. counted-NeverRepeat) 77
      ((115 ∷ []) ∷ []) (10 ∷ 11 ∷ 12 ∷ []) made delivered main-made reached

allowed : IsTurn linux mailbox ids delivered 0 first 11 batch
unfolding start
allowed = record {
  here = delivered_runs;
  begun = omega arith;
  few = omega arith;
  received = batch-IsReceive;
  completed = batch-IsOfSends;
}

-- The first worker takes the packet.
abbrev handled : State
handled = with_worker 0 (onwards.turns 0 first 11 1_001 5_030 batch allowed).0 11 delivered

handles : Reach linux mailbox ids made handled
handles = next reached (
    turn 0 first _ 11 1_001 5_030 batch allowed
      (onwards.turns 0 first 11 1_001 5_030 batch allowed).1 refl)

reached-IsSafe_example : IsSafe ids (Was linux mailbox ids made handled) handled
reached-IsSafe_example =
    reached-IsSafe linux mailbox ids mailbox-Drains quiet (λ worker. counted-NeverRepeat) 77
      ((115 ∷ []) ∷ []) (10 ∷ 11 ∷ 12 ∷ []) made handled main-made handles

reached-GoesOn_example :
    GoesOn linux mailbox ids mailbox-Drains quiet (λ worker. counted-NeverRepeat) handled
reached-GoesOn_example =
    reached-GoesOn linux mailbox ids mailbox-Drains quiet (λ worker. counted-NeverRepeat) 77
      ((115 ∷ []) ∷ []) (10 ∷ 11 ∷ 12 ∷ []) made handled main-made handles
