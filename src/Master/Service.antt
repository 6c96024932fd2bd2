-- ===== src/Master/Service.antt =====
-- The loop of `run` of server/src/master.rs while the workers go on pushing.
use reddit_puzzle_system_des.Base.{
  ℕ, zero, suc, ◌+◌, ◌*◌, ◌-◌, ◌≤◌, ◌<◌, ltb, Bool-cases, inl, inr, Option, none, some, List, [],
  ◌∷◌, ◌++◌, ◌≡◌, ◌∙◌, sym, ap, subst, refl, arith,
}
use reddit_puzzle_system_des.Settings.{master_batch_drain}
use reddit_puzzle_system_des.Spsc.{SpscRingBuffer, push}
use reddit_puzzle_system_des.Spsc.Refine.{push_refines}
use reddit_puzzle_system_des.Rle.{Cpu}
use reddit_puzzle_system_des.Master.{PixelWrite, MasterCore, iteration}
use reddit_puzzle_system_des.Master.Drain.{
  apply_writes, apply_writes-append, AllHold, batch, leftover,
}
use reddit_puzzle_system_des.Master.Round.{Ready, iteration_lem}
use reddit_puzzle_system_des.Master.Waiting.{
  offer_at, Waits, Occurs, offer_at-Waits, Occurs-before, Occurs-after, batch-Occurs,
  leftover-Waits,
}

-- A worker pushes a write, or the master makes a round, whose clock says `now`.
pub data Event : Type 0 where
  write : (worker : ℕ) (p : PixelWrite) → Event
  round : (now : ℕ) → Event

pub push_at : ℕ → PixelWrite → List (SpscRingBuffer PixelWrite) → List (SpscRingBuffer PixelWrite)
push_at i p [] = []
push_at zero p (queue ∷ queues) = (push queue p).1 ∷ queues
push_at (suc i) p (queue ∷ queues) = queue ∷ push_at i p queues

pub run : Cpu → List Event → MasterCore → Option MasterCore
unfolding push_at
run cpu [] m = some m
run cpu (write worker p ∷ es) m = run cpu es (record m { workers = push_at worker p m.workers })
run cpu (round now ∷ es) m = elim (iteration cpu now m) [ none ↦ none | some m' ↦ run cpu es m' ]

-- The writes that reach the canvas, in order, and the number of rounds.
abbrev pub served : List Event → List (List PixelWrite) → List PixelWrite
served [] pss = []
served (write worker p ∷ es) pss = served es (offer_at worker p pss)
served (round now ∷ es) pss = batch pss ++ served es (leftover pss)

abbrev pub rounds : List Event → ℕ
rounds [] = 0
rounds (write worker p ∷ es) = rounds es
rounds (round now ∷ es) = 1 + rounds es

push_at-AllHold :
    (i : ℕ) (p : PixelWrite) (queues : List (SpscRingBuffer PixelWrite))
    (pss : List (List PixelWrite))
    → AllHold queues pss
    → AllHold (push_at i p queues) (offer_at i p pss)
unfolding push_at
push_at-AllHold i p [] [] h = tt
push_at-AllHold i p [] (ps ∷ pss) h = absurd h
push_at-AllHold i p (queue ∷ queues) [] h = absurd h
push_at-AllHold zero p (queue ∷ queues) (ps ∷ pss) (h, hs) = ((push_refines p h).1, hs)
push_at-AllHold (suc i) p (queue ∷ queues) (ps ∷ pss) (h, hs) =
    (h, push_at-AllHold i p queues pss hs)

served-Occurs :
    (es : List Event) (i n : ℕ) (p : PixelWrite) (pss : List (List PixelWrite))
    → Waits i n p pss
    → n < master_batch_drain * rounds es
    → Occurs p (served es pss)
served-Occurs [] i n p pss waits enough = absurd (omega (arith, enough))
served-Occurs (write worker x ∷ es) i n p pss waits enough =
    served-Occurs es i n p (offer_at worker x pss) (offer_at-Waits i n p worker x pss waits) enough
served-Occurs (round now ∷ es) i n p pss waits enough =
    elim (Bool-cases (ltb n master_batch_drain)) [
      | inl soon ↦
          Occurs-before p (batch pss) (served es (leftover pss))
            (batch-Occurs i n p pss waits (ground (arith, soon)))
      | inr later ↦
          let far : master_batch_drain ≤ n = ground (arith, later) in
          let split : n ≡ master_batch_drain + (n - master_batch_drain) = omega (arith, far) in
          Occurs-after p (batch pss) (served es (leftover pss)) (
            served-Occurs es i (n - master_batch_drain) p (leftover pss)
              (leftover-Waits i (n - master_batch_drain) p pss
                (subst (λ k. Waits i k p pss) split waits))
              (omega (arith, enough, far)))
    ]

run_lem :
    (cpu : Cpu) (es : List Event) (m : MasterCore) (pss : List (List PixelWrite))
    → Ready m pss
    → (m' : MasterCore) × (run cpu es m ≡ some m')
      × (m'.canvas ≡ apply_writes (served es pss) m.canvas)
unfolding run
run_lem cpu [] m pss r = (m, refl, refl)
run_lem cpu (write worker p ∷ es) m pss r =
    run_lem cpu es (record m { workers = push_at worker p m.workers }) (offer_at worker p pss)
      (record {
        queues = push_at-AllHold worker p m.workers pss r.queues;
        whole = r.whole;
        statics_valid = r.statics_valid;
      })
run_lem cpu (round now ∷ es) m pss r =
    let (m₁, e₁, r₁, canvas, _) = iteration_lem cpu now pss r in
    let (m₂, e₂, canvas₂) = run_lem cpu es m₁ (leftover pss) r₁ in
    (
      m₂,
      rw (run, e₁) e₂,
      canvas₂
          ∙ ap (apply_writes (served es (leftover pss))) canvas
          ∙ sym (apply_writes-append (batch pss) (served es (leftover pss)) m.canvas),
    )

-- From a master whose queues hold the lists `pss`, with a whole canvas and well-formed statics,
-- however the workers go on pushing and whatever the clock says: the master does not panic, and the
-- canvas has become what the writes `served` make of it, one after the other, which are the batches
-- of the rounds on bounded queues; after more rounds than `n` writes take at 4096 a round, a write
-- that waits behind `n` others in its worker's queue is one of them.
pub write_served :
    (cpu : Cpu) (es : List Event) {m : MasterCore} {pss : List (List PixelWrite)} (i n : ℕ)
    (p : PixelWrite)
    → Ready m pss
    → Waits i n p pss
    → n < master_batch_drain * rounds es
    → (m' : MasterCore) × (run cpu es m ≡ some m')
      × (m'.canvas ≡ apply_writes (served es pss) m.canvas)
      × Occurs p (served es pss)
write_served cpu es {m} {pss} i n p r waits enough =
    let (m', e, canvas) = run_lem cpu es m pss r in
    (m', e, canvas, served-Occurs es i n p pss waits enough)
