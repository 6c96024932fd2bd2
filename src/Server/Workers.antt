-- ===== src/Server/Workers.antt =====
-- The list of workers that `main` of server/src/main.rs makes, and their ring buffers.
use reddit_puzzle_system_des.Base.{
  ℕ, zero, suc, some, List, [], ◌∷◌, get_elem?, set, ◌≡◌, ◌⊎◌, inl, inr, sym, ap, refl, arith,
}
use reddit_puzzle_system_des.Spsc.{SpscRingBuffer}
use reddit_puzzle_system_des.Spsc.Refine.{Holds}
use reddit_puzzle_system_des.Master.{PixelWrite}
use reddit_puzzle_system_des.Master.Drain.{AllHold, leftover}
use reddit_puzzle_system_des.EventLoop.{WorkerCore}
use reddit_puzzle_system_des.Startup.{queues_of}
use reddit_puzzle_system_des.Server.{put_queue, put_queues}

module _ {ℓ} {A : Type ℓ} where
  some_injective : (x y : A) → some x ≡ some y → x ≡ y
  some_injective x y e = cc

  pub get_elem?-set-cases :
      (xs : List A) (i j : ℕ) (v u : A)
      → get_elem? (set xs i v) j ≡ some u
      → ((i ≡ j) × (v ≡ u)) ⊎ (get_elem? xs j ≡ some u)
  get_elem?-set-cases [] i j v u at = inr at
  get_elem?-set-cases (x ∷ xs) zero zero v u at = inl (refl, some_injective v u at)
  get_elem?-set-cases (x ∷ xs) zero (suc j) v u at = inr at
  get_elem?-set-cases (x ∷ xs) (suc i) zero v u at = inr at
  get_elem?-set-cases (x ∷ xs) (suc i) (suc j) v u at = elim (get_elem?-set-cases xs i j v u at) [
    | inl (e, same) ↦ inl (ap suc e, same)
    | inr before ↦ inr before
  ]

module _ {C : Type 0} where
  -- Worker `i` of the list, on its core.
  abbrev pub Runs : List (WorkerCore C × ℕ) → ℕ → WorkerCore C → ℕ → Type 0
  Runs workers i w core_id = get_elem? workers i ≡ some (w, core_id)

  -- When every worker's ring buffer holds a list of writes, all of them hold lists of writes.
  pub queues_of-AllHold :
      (workers : List (WorkerCore C × ℕ))
      → ((i : ℕ) (w : WorkerCore C) (core_id : ℕ)
          → Runs workers i w core_id
          → (ps : List PixelWrite) × Holds w.admitter.master_queue ps)
      → (pss : List (List PixelWrite)) × AllHold (queues_of workers) pss
  queues_of-AllHold [] each = ([], tt)
  queues_of-AllHold ((w, core_id) ∷ workers) each =
      let (ps, holds) = each 0 w core_id refl in
      let (pss, all) =
        queues_of-AllHold workers (λ i w' core_id' runs. each (suc i) w' core_id' runs) in
      (ps ∷ pss, (holds, all))

  pub put_queues-shared :
      (queues : List (SpscRingBuffer PixelWrite)) (workers : List (WorkerCore C × ℕ))
      (pss : List (List PixelWrite))
      → AllHold (queues_of workers) pss
      → AllHold queues (leftover pss)
      → queues ≡ queues_of (put_queues queues workers)
  unfolding put_queues
  put_queues-shared [] [] pss before after = refl
  put_queues-shared [] ((w, core_id) ∷ workers) [] before after = absurd before
  put_queues-shared [] ((w, core_id) ∷ workers) (ps ∷ pss) before after = absurd after
  put_queues-shared (queue ∷ queues) [] [] before after = absurd after
  put_queues-shared (queue ∷ queues) [] (ps ∷ pss) before after = absurd before
  put_queues-shared (queue ∷ queues) ((w, core_id) ∷ workers) [] before after = absurd before
  put_queues-shared (queue ∷ queues) ((w, core_id) ∷ workers) (ps ∷ pss) (_, before) (_, after) =
      ap (◌∷◌ queue) (put_queues-shared queues workers pss before after)

  -- A worker of the new list is one of the old list with a ring buffer that holds a list of writes.
  abbrev pub Shares : List (WorkerCore C × ℕ) → ℕ → WorkerCore C → ℕ → Type 0
  Shares workers i w' core_id =
      (w : WorkerCore C) × (queue : SpscRingBuffer PixelWrite) × (ps : List PixelWrite) × Runs
        workers i w core_id
      × (w' ≡ put_queue queue w)
      × Holds queue ps

  pub put_queues-Shares :
      (queues : List (SpscRingBuffer PixelWrite)) (workers : List (WorkerCore C × ℕ))
      (pss : List (List PixelWrite)) (i : ℕ) (w' : WorkerCore C) (core_id : ℕ)
      → AllHold (queues_of workers) pss
      → AllHold queues (leftover pss)
      → Runs (put_queues queues workers) i w' core_id
      → Shares workers i w' core_id
  unfolding put_queues
  put_queues-Shares [] [] pss i w' core_id before after runs = absurd (ground (arith, runs))
  put_queues-Shares [] ((w, _) ∷ workers) [] i w' core_id before after runs = absurd before
  put_queues-Shares [] ((w, _) ∷ workers) (ps ∷ pss) i w' core_id before after runs = absurd after
  put_queues-Shares (queue ∷ queues) [] pss i w' core_id before after runs =
      absurd (ground (arith, runs))
  put_queues-Shares (queue ∷ queues) ((w, _) ∷ workers) [] i w' core_id before after runs =
      absurd before
  put_queues-Shares (queue ∷ queues) ((w, here) ∷ workers) (ps ∷ pss) zero w' core_id before after
        runs =
      let e = some_injective (put_queue queue w, here) (w', core_id) runs in
      (w, queue, _, ap (λ c. some (w, c)) (ap (λ p. p.1) e), sym (ap (λ p. p.0) e), after.0)
  put_queues-Shares (queue ∷ queues) ((w, _) ∷ workers) (ps ∷ pss) (suc i) w' core_id (_, before)
        (_, after) runs =
      put_queues-Shares queues workers pss i w' core_id before after runs
