-- ===== src/EndToEnd.antt =====
-- From a worker of server/src/worker.rs to the canvas of server/src/master.rs: a pixel that a packet
-- brings.
use reddit_puzzle_system_des.Base.{
  ℕ, ◌*◌, ◌<◌, leb, ◌==◌, some, true, false, List, [], ◌∷◌, ◌++◌, length, get_elem?, ◌≡◌, subst,
  refl, arith,
}
use reddit_puzzle_system_des.Settings.{
  master_batch_drain, spsc_capacity, max_connections_per_worker,
}
use reddit_puzzle_system_des.Spsc.{SpscRingBuffer}
use reddit_puzzle_system_des.Spsc.Refine.{Holds}
use reddit_puzzle_system_des.Rle.{Cpu}
use reddit_puzzle_system_des.Canvas.Pixels.{IsWhole}
use reddit_puzzle_system_des.Transport.{PixelDatagram}
use reddit_puzzle_system_des.Worker.{Admitter, packet, pixel_write, admit}
use reddit_puzzle_system_des.Worker.Admission.{Quota, Models, allow, admit_lem}
use reddit_puzzle_system_des.Master.{PixelWrite, MasterCore}
use reddit_puzzle_system_des.Master.Publish.{IsValid}
use reddit_puzzle_system_des.Master.Drain.{AllHold, apply_writes}
use reddit_puzzle_system_des.Master.Waiting.{Waits, Occurs}
use reddit_puzzle_system_des.Master.Service
use reddit_puzzle_system_des.Master.Service.{run, served, rounds, write_served}

AllHold-append :
    (queues : List (SpscRingBuffer PixelWrite)) (pss : List (List PixelWrite))
    (queues' : List (SpscRingBuffer PixelWrite)) (pss' : List (List PixelWrite))
    → AllHold queues pss
    → AllHold queues' pss'
    → AllHold (queues ++ queues') (pss ++ pss')
AllHold-append [] [] queues' pss' h h' = h'
AllHold-append [] (ps ∷ pss) queues' pss' h h' = absurd h
AllHold-append (queue ∷ queues) [] queues' pss' h h' = absurd h
AllHold-append (queue ∷ queues) (ps ∷ pss) queues' pss' (h, hs) h' =
    (h, AllHold-append queues pss queues' pss' hs h')

Waits-append :
    (pss : List (List PixelWrite)) (ps : List PixelWrite) (pss' : List (List PixelWrite)) (n : ℕ)
    (p : PixelWrite)
    → get_elem? ps n ≡ some p
    → Waits (length pss) n p (pss ++ ps ∷ pss')
Waits-append [] ps pss' n p at = at
Waits-append (qs ∷ pss) ps pss' n p at = Waits-append pss ps pss' n p at

get_elem?-last :
    (ps : List PixelWrite) (p : PixelWrite) → get_elem? (ps ++ p ∷ []) (length ps) ≡ some p
get_elem?-last [] p = refl
get_elem?-last (q ∷ ps) p = get_elem?-last ps p

-- The abstract worker takes the pixel.
waiting-eq :
    (user : ℕ) (p : PixelDatagram) (pixels : List PixelDatagram) (q : Quota)
    → q.remaining user ≡ 0
    → length q.waiting < spsc_capacity
    → (allow (packet user (p ∷ pixels)) q).waiting ≡ q.waiting ++ pixel_write p ∷ []
unfolding allow
waiting-eq user p pixels q free room =
    let idle : (q.remaining user == 0) ≡ true = ground (arith, free) in
    let fits : leb spsc_capacity (length q.waiting) ≡ false = ground (arith, room) in
    rw (idle, fits) refl

-- The queue of the abstract worker behind the pixel that has passed.
abbrev pub passed : Quota → PixelDatagram → List PixelWrite
passed q p = q.waiting ++ pixel_write p ∷ []

-- When a packet brings pixels of a known user without cooldown to a worker that follows the abstract
-- one, with room in its ring buffer, and the canvas is whole, the statics are well formed and the
-- ring buffers of the other workers hold the writes `pss` and `pss'`, the worker takes the packet and
-- lets its first pixel pass; whatever all workers push meanwhile and whatever the clock says, the
-- master does not panic, and the canvas has become what the writes `served` make of it, one after the
-- other, which are the batches of the rounds on bounded queues that the pixel stands in; after more
-- rounds than the pixels in front of it take, 4096 a round, it is one of them.
pub pixel_served :
    (cpu : Cpu) (es : List Service.Event) {a : Admitter} {q : Quota} (user : ℕ) (p : PixelDatagram)
    (pixels : List PixelDatagram) (m : MasterCore) (before after : List (SpscRingBuffer PixelWrite))
    (pss pss' : List (List PixelWrite))
    → Models a q
    → user < max_connections_per_worker
    → q.remaining user ≡ 0
    → length q.waiting < spsc_capacity
    → AllHold before pss
    → AllHold after pss'
    → IsWhole m.canvas
    → IsValid m.statics
    → length q.waiting < master_batch_drain * rounds es
    → (a' : Admitter) × (m' : MasterCore) × (admit user (p ∷ pixels) a ≡ some a')
      × (run cpu es (record m { workers = before ++ a'.master_queue ∷ after }) ≡ some m')
      × (m'.canvas ≡ apply_writes (served es (pss ++ passed q p ∷ pss')) m.canvas)
      × Occurs (pixel_write p) (served es (pss ++ passed q p ∷ pss'))
pixel_served cpu es {a} {q} user p pixels m before after pss pss' models known free room held held'
      whole valid enough =
    let (a', e, models') = admit_lem user (p ∷ pixels) models known in
    let waiting = passed q p in
    let holds : Holds a'.master_queue waiting =
      subst (Holds a'.master_queue) (waiting-eq user p pixels q free room) models'.queue in
    let (m', e', canvas, occurs) =
      write_served cpu es {m = record m { workers = before ++ a'.master_queue ∷ after }}
        {pss = pss ++ waiting ∷ pss'} (length pss) (length q.waiting) (pixel_write p)
        (record {
          queues =
              AllHold-append before pss (a'.master_queue ∷ after) (waiting ∷ pss') held
                (holds, held');
          whole = whole;
          statics_valid = valid;
        })
        (Waits-append pss waiting pss' (length q.waiting) (pixel_write p)
          (get_elem?-last q.waiting (pixel_write p)))
        enough in
    (a', m', e, e', canvas, occurs)
