-- ===== src/Spsc/Threads/Safety.antt =====
-- Under every interleaving of the two threads of server/src/spsc.rs.
use reddit_puzzle_system_des.Base.{
  ℕ, ◌≤◌, some, List, ◌++◌, map, length, ◌≡◌, ◌≢◌, ◌∙◌, sym, ap, subst, arith,
}
use reddit_puzzle_system_des.Settings.{spsc_capacity}
use reddit_puzzle_system_des.Spsc.Refine.{mask_lem}
use reddit_puzzle_system_des.Spsc.Threads.{Producer, Consumer, System, Reach, slot_of}
use reddit_puzzle_system_des.Spsc.Threads.Invariant.{Reach-Inv, WorkerOk, MasterOk}

module _ {A : Type 0} where
  -- In every reachable state the values that were popped are the first values that were pushed, in
  -- the order of the pushes, each once and none read from an unwritten slot, and at most
  -- `SPSC_CAPACITY` pushed values are still to come.
  pub fifo :
      {s : System A}
      → Reach s
      → (waiting : List A) × (map some s.pushed ≡ s.popped ++ map some waiting)
        × (length waiting ≤ spsc_capacity)
  fifo r = let i = Reach-Inv r in (i.waiting, i.history, i.holds.room)

  -- In no reachable state does the worker write the slot that the master is about to read.
  pub no_race :
      {s : System A} (t h : ℕ) (v : A)
      → Reach s
      → s.worker ≡ Producer.granted t v
      → s.master ≡ Consumer.granted h
      → slot_of t ≢ slot_of h
  no_race {s} t h v r w m =
      let i = Reach-Inv r in
      let ok : WorkerOk s.ring i.waiting (Producer.granted t v) =
        subst (WorkerOk s.ring i.waiting) w i.worker_ok in
      let ok' : MasterOk s.ring.head i.waiting (Consumer.granted h) =
        subst (MasterOk s.ring.head i.waiting) m i.master_ok in
      λ same. omega (
        arith,
        ok,
        ok',
        i.holds.count,
        i.holds.tail_fits,
        i.holds.head_fits,
        (ap slot_of (sym ok.0) ∙ same ∙ ap slot_of ok'.0),
        mask_lem s.ring.tail,
        mask_lem s.ring.head,
      )
