-- ===== src/Spsc/Threads/Invariant.antt =====
-- What holds between any two accesses of the two threads of server/src/spsc.rs.
use reddit_puzzle_system_des.Base.{
  ℕ, ◌%◌, ◌<◌, Option, none, some, List, [], ◌∷◌, ◌++◌, map, map-append, append_assoc, length,
  get_or, get_or-set_self, ◌≡◌, ◌≢◌, ◌∙◌, sym, refl, subst, arith,
}
use reddit_puzzle_system_des.Settings.{spsc_capacity}
use reddit_puzzle_system_des.Spsc.{SpscRingBuffer, new, wrapping_add}
use reddit_puzzle_system_des.Spsc.Refine.{
  Holds, new-Holds, write_slot-Holds, advance_tail-Holds, advance_head-Holds, oldest, mask_lem,
}
use reddit_puzzle_system_des.Spsc.Threads.{
  Producer, Consumer, System, Step, load_tail, refuse, grant_write, write, store_tail, load_head,
  find_empty, grant_read, read, store_head, init, Reach, start, later, slot_of,
}

module _ {A : Type 0} where
  -- The oldest value of a queue.
  abbrev pub front : List A → Option A
  front [] = none
  front (x ∷ q) = some x

  -- What the locals of the worker say about the shared buffer and its queue.
  abbrev pub WorkerOk : SpscRingBuffer A → List A → Producer A → Type 0
  WorkerOk r q Producer.idle = Unit
  WorkerOk r q (Producer.loaded t v) = t ≡ r.tail
  WorkerOk r q (Producer.granted t v) = (t ≡ r.tail) × (length q < spsc_capacity)
  WorkerOk r q (Producer.written t v) =
      (t ≡ r.tail)
      × (length q < spsc_capacity)
      × (get_or r.buffer (r.tail % spsc_capacity) none ≡ some v)

  -- And those of the master.
  abbrev pub MasterOk : ℕ → List A → Consumer A → Type 0
  MasterOk head q Consumer.idle = Unit
  MasterOk head q (Consumer.loaded h) = h ≡ head
  MasterOk head q (Consumer.granted h) = (h ≡ head) × (0 < length q)
  MasterOk head q (Consumer.holding h slot) = (h ≡ head) × (0 < length q) × (slot ≡ front q)

  -- The values that are pushed and not yet popped stand in the buffer, in order.
  pub record Inv (s : System A) : Type 0 where
    pub waiting : List A
    pub holds : Holds s.ring waiting
    pub worker_ok : WorkerOk s.ring waiting s.worker
    pub master_ok : MasterOk s.ring.head waiting s.master
    pub history : map some s.pushed ≡ s.popped ++ map some waiting

  init-Inv : Inv (init A)
  unfolding init new
  init-Inv = record {
    waiting = [];
    holds = new-Holds;
    worker_ok = tt;
    master_ok = tt;
    history = refl;
  }

  -- A full queue's counters differ by the capacity, an empty one's by nothing.
  counters : {r : SpscRingBuffer A} {q : List A} → Holds r q → r.head ≢ r.tail → 0 < length q
  counters h ne = omega (arith, h.count, h.tail_fits, h.head_fits)

  -- The master's locals stay right while the worker appends a value.
  master-append :
      (head : ℕ) (q : List A) (x : A) (m : Consumer A)
      → MasterOk head q m
      → MasterOk head (q ++ x ∷ []) m
  master-append head q x Consumer.idle ok = tt
  master-append head q x (Consumer.loaded h) ok = ok
  master-append head [] x (Consumer.granted h) ok = absurd (omega arith)
  master-append head (y ∷ q) x (Consumer.granted h) ok = (ok.0, omega arith)
  master-append head [] x (Consumer.holding h slot) ok = absurd (omega arith)
  master-append head (y ∷ q) x (Consumer.holding h slot) ok = (ok.0, omega arith, ok.2)

  -- The worker's locals stay right while the master takes a value.
  worker-take :
      (r : SpscRingBuffer A) (h : ℕ) (y : A) (q : List A) (p : Producer A)
      → WorkerOk r (y ∷ q) p
      → WorkerOk (record r { head = h }) q p
  worker-take r h y q Producer.idle ok = tt
  worker-take r h y q (Producer.loaded t v) ok = ok
  worker-take r h y q (Producer.granted t v) ok = (ok.0, omega arith)
  worker-take r h y q (Producer.written t v) ok = (ok.0, omega arith, ok.2)

  -- The value that the master takes leaves the queue; a queue that is not empty has one.
  take_front :
      (s : System A) (h : ℕ) (slot : Option A) (q : List A)
      → Holds s.ring q
      → WorkerOk s.ring q s.worker
      → map some s.pushed ≡ s.popped ++ map some q
      → MasterOk s.ring.head q (Consumer.holding h slot)
      → Inv (record s {
        ring = record (s.ring) { head = wrapping_add h 1 };
        master = Consumer.idle;
        popped = s.popped ++ slot ∷ [];
      })
  take_front s h slot [] holds w e ok = absurd (omega arith)
  take_front s h slot (y ∷ q) holds w e ok =
      rw (ok.0, ok.2)
        (record {
          waiting = q;
          holds = advance_head-Holds holds;
          worker_ok = worker-take s.ring (wrapping_add s.ring.head 1) y q s.worker w;
          master_ok = tt;
          history = e ∙ sym (append_assoc s.popped (some y ∷ []) (map some q));
        })

  read_front :
      (r : SpscRingBuffer A) (h : ℕ) (q : List A)
      → Holds r q
      → MasterOk r.head q (Consumer.granted h)
      → get_or r.buffer (slot_of h) none ≡ front q
  read_front r h [] holds ok = absurd (omega arith)
  read_front r h (y ∷ q) holds ok = rw (ok.0, mask_lem r.head) (oldest holds)

  Step-Inv : {s t : System A} → Step s t → Inv s → Inv t
  Step-Inv {s} (load_tail v e) i = record {
    waiting = i.waiting;
    holds = i.holds;
    worker_ok = refl;
    master_ok = i.master_ok;
    history = i.history;
  }
  Step-Inv {s} (refuse t v e full) i = record {
    waiting = i.waiting;
    holds = i.holds;
    worker_ok = tt;
    master_ok = i.master_ok;
    history = i.history;
  }
  Step-Inv {s} (grant_write t v e free) i =
      let here : t ≡ s.ring.tail = subst (WorkerOk s.ring i.waiting) e i.worker_ok in
      record {
        waiting = i.waiting;
        holds = i.holds;
        worker_ok = (here, ground (arith, i.holds.count));
        master_ok = i.master_ok;
        history = i.history;
      }
  Step-Inv {s} (write t v e) i =
      let ok : WorkerOk s.ring i.waiting (Producer.granted t v) =
        subst (WorkerOk s.ring i.waiting) e i.worker_ok in
      rw (ok.0, mask_lem s.ring.tail)
        (record {
          waiting = i.waiting;
          holds = write_slot-Holds i.holds (some v) ok.1;
          worker_ok = (
            refl,
            ok.1,
            get_or-set_self s.ring.buffer (s.ring.tail % spsc_capacity) (some v) none
                (omega (arith, i.holds.slots)),
          );
          master_ok = i.master_ok;
          history = i.history;
        })
  Step-Inv {s} (store_tail t v e) i =
      let ok : WorkerOk s.ring i.waiting (Producer.written t v) =
        subst (WorkerOk s.ring i.waiting) e i.worker_ok in
      rw (ok.0) (record {
        waiting = i.waiting ++ v ∷ [];
        holds = advance_tail-Holds i.holds v ok.1 ok.2;
        worker_ok = tt;
        master_ok = master-append s.ring.head i.waiting v s.master i.master_ok;
        history = simp (map-append, i.history, append_assoc);
      })
  Step-Inv {s} (load_head e) i = record {
    waiting = i.waiting;
    holds = i.holds;
    worker_ok = i.worker_ok;
    master_ok = refl;
    history = i.history;
  }
  Step-Inv {s} (find_empty h e same) i = record {
    waiting = i.waiting;
    holds = i.holds;
    worker_ok = i.worker_ok;
    master_ok = tt;
    history = i.history;
  }
  Step-Inv {s} (grant_read h e ne) i =
      let here : h ≡ s.ring.head = subst (MasterOk s.ring.head i.waiting) e i.master_ok in
      record {
        waiting = i.waiting;
        holds = i.holds;
        worker_ok = i.worker_ok;
        master_ok = (here, counters i.holds (λ same. ne (here ∙ same)));
        history = i.history;
      }
  Step-Inv {s} (read h e) i =
      let ok : MasterOk s.ring.head i.waiting (Consumer.granted h) =
        subst (MasterOk s.ring.head i.waiting) e i.master_ok in
      record {
        waiting = i.waiting;
        holds = i.holds;
        worker_ok = i.worker_ok;
        master_ok = (ok.0, ok.1, read_front s.ring h i.waiting i.holds ok);
        history = i.history;
      }
  Step-Inv {s} (store_head h slot e) i =
      take_front s h slot i.waiting i.holds i.worker_ok i.history
        (subst (MasterOk s.ring.head i.waiting) e i.master_ok)

  pub Reach-Inv : {s : System A} → Reach s → Inv s
  Reach-Inv start = init-Inv
  Reach-Inv (later r st) = Step-Inv st (Reach-Inv r)
