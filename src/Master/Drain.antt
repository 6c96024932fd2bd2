-- ===== src/Master/Drain.antt =====
-- The drain loops of server/src/master.rs apply the queued writes in order.
use reddit_puzzle_system_des.Base.{ℕ, zero, suc, some, List, [], ◌∷◌, ◌++◌, take, drop, ◌≡◌, refl}
use reddit_puzzle_system_des.Settings.{master_batch_drain}
use reddit_puzzle_system_des.Spsc.{SpscRingBuffer, pop}
use reddit_puzzle_system_des.Spsc.Refine.{Holds, pop_refines}
use reddit_puzzle_system_des.Canvas.{Canvas, set_pixel}
use reddit_puzzle_system_des.Canvas.Pixels.{IsWhole, set_pixel-IsWhole}
use reddit_puzzle_system_des.Master.{PixelWrite, drain, drain_all}

-- The writes applied one after the other.
abbrev pub apply_writes : List PixelWrite → Canvas → Canvas
apply_writes [] c = c
apply_writes (p ∷ ps) c = apply_writes ps (set_pixel c p.x p.y p.color)

pub apply_writes-IsWhole :
    (ps : List PixelWrite) (c : Canvas) → IsWhole c → IsWhole (apply_writes ps c)
apply_writes-IsWhole [] c whole = whole
apply_writes-IsWhole (p ∷ ps) c whole =
    apply_writes-IsWhole ps (set_pixel c p.x p.y p.color)
      (set_pixel-IsWhole c p.x p.y p.color whole)

-- One queue: its first `n` writes reach the canvas in order and leave the queue.
pub drain_lem :
    (n : ℕ) {queue : SpscRingBuffer PixelWrite} (ps : List PixelWrite) (c : Canvas)
    → Holds queue ps
    → (queue' : SpscRingBuffer PixelWrite) × (drain n queue c
        ≡ some (queue', apply_writes (take n ps) c))
      × Holds queue' (drop n ps)
unfolding drain
drain_lem zero {queue} ps c h = (queue, refl, h)
drain_lem (suc n) {queue} [] c h =
    let (popped, h') = pop_refines [] h in ((pop queue).1, rw (popped, drain) refl, h')
drain_lem (suc n) {queue} (p ∷ ps) c h =
    let (popped, h') = pop_refines (p ∷ ps) h in
    let (queue', e, h'') = drain_lem n ps (set_pixel c p.x p.y p.color) h' in
    (queue', rw (popped, drain) e, h'')

-- The queues of all workers hold these lists.
abbrev pub AllHold : List (SpscRingBuffer PixelWrite) → List (List PixelWrite) → Type 0
AllHold [] [] = Unit
AllHold (queue ∷ queues) (ps ∷ pss) = Holds queue ps × AllHold queues pss
AllHold _ _ = ⊥

-- The batch of a round: at most `MASTER_BATCH_DRAIN` writes of each worker, worker by worker.
abbrev pub batch : List (List PixelWrite) → List PixelWrite
batch [] = []
batch (ps ∷ pss) = take master_batch_drain ps ++ batch pss

abbrev pub leftover : List (List PixelWrite) → List (List PixelWrite)
leftover [] = []
leftover (ps ∷ pss) = drop master_batch_drain ps ∷ leftover pss

pub apply_writes-append :
    (ps qs : List PixelWrite) (c : Canvas)
    → apply_writes (ps ++ qs) c ≡ apply_writes qs (apply_writes ps c)
apply_writes-append [] qs c = refl
apply_writes-append (p ∷ ps) qs c = apply_writes-append ps qs (set_pixel c p.x p.y p.color)

-- A round of drains never reads an unwritten slot, applies exactly the batch to the canvas, each
-- worker's writes in the order they were pushed, and leaves the rest of every queue in place.
pub drain_all_lem :
    (queues : List (SpscRingBuffer PixelWrite)) (pss : List (List PixelWrite)) (c : Canvas)
    → AllHold queues pss
    → (queues' : List (SpscRingBuffer PixelWrite)) × (drain_all queues c
        ≡ some (queues', apply_writes (batch pss) c))
      × AllHold queues' (leftover pss)
unfolding drain_all
drain_all_lem [] [] c h = ([], refl, tt)
drain_all_lem [] (ps ∷ pss) c h = absurd h
drain_all_lem (queue ∷ queues) [] c h = absurd h
drain_all_lem (queue ∷ queues) (ps ∷ pss) c (h, hs) =
    let (queue', e, h') = drain_lem master_batch_drain ps c h in
    let (queues', e', hs') =
      drain_all_lem queues pss (apply_writes (take master_batch_drain ps) c) hs in
    (
      queue' ∷ queues',
      rw (e, e', apply_writes-append (take master_batch_drain ps) (batch pss) c) refl,
      (h', hs'),
    )
