-- ===== src/Server/Safe.antt =====
-- The invariant of the server's threads of server/src/main.rs.
use reddit_puzzle_system_des.Base.{ℕ, List, ◌≡◌, ◌⊎◌, inl, inr, subst, refl}
use reddit_puzzle_system_des.Canvas.{Canvas, initial_statics}
use reddit_puzzle_system_des.Canvas.Pixels.{IsWhole}
use reddit_puzzle_system_des.Master.Publish.{IsValid}
use reddit_puzzle_system_des.Master.Snapshot.{Shows}
use reddit_puzzle_system_des.EventLoop.{WorkerCore}
use reddit_puzzle_system_des.EventLoop.Sound.{IsSound}
use reddit_puzzle_system_des.Startup.{System, queues_of}
use reddit_puzzle_system_des.Server.{with_worker}
use reddit_puzzle_system_des.Server.Workers.{get_elem?-set-cases, Runs}

module _ {C : Type 0} (scids : ℕ → ℕ → List ℕ) (Seen : Canvas → Type 0) where
  -- The canvas that the worker compares the next one with is one that was seen.
  abbrev pub HasSent : WorkerCore C → Type 0
  HasSent w = (c : Canvas) × Seen c × (w.broadcaster.last_sent_canvas ≡ c.pixels)

  -- The active slot shows a canvas that was seen, or the statics are the initial ones, which nothing
  -- was published to, and no worker looks for anything but their active slot.
  abbrev pub IsShown : System C → Type 0
  IsShown s =
      ((c : Canvas) × Seen c × IsWhole c × Shows c s.master.statics)
      ⊎ ((s.master.statics ≡ initial_statics)
          × ((i : ℕ) (w : WorkerCore C) (core_id : ℕ)
              → Runs s.workers i w core_id
              → w.broadcaster.last_broadcast_index ≡ initial_statics.active_index))

  -- The master and the workers share the ring buffers, every worker is sound and has sent a canvas
  -- that was seen, and the canvas and the statics are well formed.
  pub record IsSafe (s : System C) : Type 0 where
    pub shared : s.master.workers ≡ queues_of s.workers
    pub sound :
        (i : ℕ) (w : WorkerCore C) (core_id : ℕ) → Runs s.workers i w core_id → IsSound (scids i) w
    pub sent : (i : ℕ) (w : WorkerCore C) (core_id : ℕ) → Runs s.workers i w core_id → HasSent w
    pub whole : IsWhole s.master.canvas
    pub valid : IsValid s.master.statics
    pub shown : IsShown s

  -- Before anything is published, a worker goes on to look for nothing else.
  abbrev pub Still : System C → WorkerCore C → WorkerCore C → Type 0
  Still s w w' =
      s.master.statics ≡ initial_statics
      → w.broadcaster.last_broadcast_index ≡ initial_statics.active_index
      → w'.broadcaster.last_broadcast_index ≡ initial_statics.active_index

  with_worker-IsShown :
      (s : System C) (i : ℕ) (w w' : WorkerCore C) (core_id : ℕ)
      → Runs s.workers i w core_id
      → Still s w w'
      → IsShown s
      → IsShown (with_worker i w' core_id s)
  unfolding with_worker
  with_worker-IsShown s i w w' core_id runs still (inl shown) = inl shown
  with_worker-IsShown s i w w' core_id runs still (inr (fresh, unmoved)) = inr (
    fresh,
    λ j u core at. elim (get_elem?-set-cases s.workers i j (w', core_id) (u, core) at) [
      | inl (e, same) ↦
          subst (λ p. p.0.broadcaster.last_broadcast_index ≡ initial_statics.active_index) same
            (still fresh (unmoved i w core_id runs))
      | inr before ↦ unmoved j u core before
    ],
  )

  pub with_worker-IsSafe :
      {s : System C} (i : ℕ) (w w' : WorkerCore C) (core_id : ℕ)
      → IsSafe s
      → Runs s.workers i w core_id
      → IsSound (scids i) w'
      → HasSent w'
      → Still s w w'
      → IsSafe (with_worker i w' core_id s)
  unfolding with_worker
  with_worker-IsSafe {s} i w w' core_id safe runs sound sent still = record {
    shared = refl;
    sound = λ j u core at. elim (get_elem?-set-cases s.workers i j (w', core_id) (u, core) at) [
      | inl (e, same) ↦
          subst (λ k. IsSound (scids k) u) e (subst (λ p. IsSound (scids i) (p.0)) same sound)
      | inr before ↦ safe.sound j u core before
    ];
    sent = λ j u core at. elim (get_elem?-set-cases s.workers i j (w', core_id) (u, core) at) [
      | inl (e, same) ↦ subst (λ p. HasSent (p.0)) same sent
      | inr before ↦ safe.sent j u core before
    ];
    whole = safe.whole;
    valid = safe.valid;
    shown = with_worker-IsShown s i w w' core_id runs still safe.shown;
  }

-- What was seen before is seen afterwards.
pub IsSafe-weaken :
    {C : Type 0} (scids : ℕ → ℕ → List ℕ) (Seen Later : Canvas → Type 0) {s : System C}
    → ((c : Canvas) → Seen c → Later c)
    → IsSafe scids Seen s
    → IsSafe scids Later s
IsSafe-weaken scids Seen Later further safe = record {
  shared = safe.shared;
  sound = safe.sound;
  sent = λ i w core_id runs.
      let (c, old, same) = safe.sent i w core_id runs in (c, further c old, same);
  whole = safe.whole;
  valid = safe.valid;
  shown = elim safe.shown [
    | inl (c, old, whole, shows) ↦ inl (c, further c old, whole, shows)
    | inr unmoved ↦ inr unmoved
  ];
}
