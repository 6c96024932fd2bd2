-- ===== src/Tests/Spsc.antt =====
-- The ring buffer at small inputs.
use reddit_puzzle_system_des.Base.{
  ℕ, ◌≤◌, List, [], ◌∷◌, ◌++◌, map, length, set, some, ◌≡◌, ◌≢◌, refl, arith,
}
use reddit_puzzle_system_des.Settings.{spsc_capacity}
use reddit_puzzle_system_des.Spsc.{new}
use reddit_puzzle_system_des.Spsc.Refine.{put, get, run, run_queue, run-new}
use reddit_puzzle_system_des.Spsc.Threads.{
  Producer, Consumer, System, load_tail, grant_write, write, store_tail, load_head, grant_read,
  init, Reach, start, later, slot_of,
}
use reddit_puzzle_system_des.Spsc.Threads.Safety.{fifo, no_race}

run-new_example :
    run (new ℕ) (get ∷ put 42 ∷ put 43 ∷ get ∷ get ∷ get ∷ [])
    ≡ run_queue [] (get ∷ put 42 ∷ put 43 ∷ get ∷ get ∷ get ∷ [])
run-new_example = run-new (get ∷ put 42 ∷ put 43 ∷ get ∷ get ∷ get ∷ [])

-- The worker has pushed 5.
abbrev one_pushed : System ℕ
one_pushed = record (init ℕ) {
  ring = record (new ℕ) { tail = 1; buffer = set (new ℕ).buffer 0 (some 5) };
  pushed = 5 ∷ [];
}

one_pushed-Reach : Reach one_pushed
unfolding init new
one_pushed-Reach =
    let a : Reach (record (init ℕ) { worker = Producer.loaded 0 5 }) =
      later start (load_tail 5 refl) in
    let b : Reach (record (init ℕ) { worker = Producer.granted 0 5 }) =
      later a (grant_write 0 5 refl (omega arith)) in
    let c : Reach (record (init ℕ) {
      ring = record (new ℕ) { buffer = set (new ℕ).buffer 0 (some 5) };
      worker = Producer.written 0 5;
    }) =
      later b (write 0 5 refl) in
    later c (store_tail 0 5 refl)

-- Then it is about to write 6 while the master is about to read.
abbrev busy : System ℕ
busy = record one_pushed { worker = Producer.granted 1 6; master = Consumer.granted 0 }

busy-Reach : Reach busy
unfolding init new
busy-Reach =
    let a : Reach (record one_pushed { worker = Producer.loaded 1 6 }) =
      later one_pushed-Reach (load_tail 6 refl) in
    let b : Reach (record one_pushed { worker = Producer.granted 1 6 }) =
      later a (grant_write 1 6 refl (omega arith)) in
    let c : Reach
        (record one_pushed { worker = Producer.granted 1 6; master = Consumer.loaded 0 }) =
      later b (load_head refl) in
    later c (grant_read 0 refl (omega arith))

fifo_example :
    (waiting : List ℕ) × (map some busy.pushed ≡ busy.popped ++ map some waiting)
    × (length waiting ≤ spsc_capacity)
fifo_example = fifo busy-Reach

no_race_example : slot_of 1 ≢ slot_of 0
no_race_example = no_race 1 0 6 busy-Reach refl refl
