-- ===== src/EventLoop/Grows.antt =====
-- What a turn of the loop of `run_linux` in server/src/worker.rs does to the worker's ring buffer: it
-- pushes, and nothing else.
use reddit_puzzle_system_des.Base.{
  ℕ, leb, ltb, length, Bool-cases, true, false, inl, inr, Option-cases, some, List, [], ◌∷◌, ◌++◌,
  append-nil, append_assoc, ◌≡◌, sym, subst, refl, arith,
}
use reddit_puzzle_system_des.Settings.{spsc_capacity}
use reddit_puzzle_system_des.Spsc.{SpscRingBuffer, push}
use reddit_puzzle_system_des.Spsc.Refine.{Holds, push_refines}
use reddit_puzzle_system_des.Master.{PixelWrite}
use reddit_puzzle_system_des.Transport.{PixelDatagram}
use reddit_puzzle_system_des.Cooldown.{is_on_cooldown, set_cooldown}
use reddit_puzzle_system_des.TimingWheel.{tick, add_cooldown}
use reddit_puzzle_system_des.Worker.{Admitter, pixel_write, admit_pixel, admit, handle_tick}

-- The ring buffer holds what it held, and perhaps more behind it.
abbrev pub Grows : SpscRingBuffer PixelWrite → SpscRingBuffer PixelWrite → Type 0
Grows queue queue' =
    (ps : List PixelWrite) → Holds queue ps → (more : List PixelWrite) × Holds queue' (ps ++ more)

pub Grows-same : (queue : SpscRingBuffer PixelWrite) → Grows queue queue
Grows-same queue ps h = ([], subst (Holds queue) (sym (append-nil ps)) h)

pub Grows-trans : {a b c : SpscRingBuffer PixelWrite} → Grows a b → Grows b c → Grows a c
Grows-trans {c = c} first second ps h =
    let (more, h') = first ps h in
    let (again, h'') = second (ps ++ more) h' in
    (more ++ again, subst (Holds c) (append_assoc ps more again) h'')

pub Grows-push : (queue : SpscRingBuffer PixelWrite) (p : PixelWrite) → Grows queue (push queue p).1
Grows-push queue p ps h = elim (Bool-cases (leb spsc_capacity (length ps))) [
  | inl full ↦
      ([], subst (Holds (push queue p).1) (rw full (sym (append-nil ps))) (push_refines p h).1)
  | inr free ↦ (p ∷ [], subst (Holds (push queue p).1) (rw free refl) (push_refines p h).1)
]

-- A step of a worker leaves its ring buffer so.
abbrev pub Pushes : Admitter → Admitter → Type 0
Pushes a a' = Grows a.master_queue a'.master_queue

same-Pushes : (a a' : Admitter) → a ≡ a' → Pushes a a'
same-Pushes a a' e = subst (Pushes a) e (Grows-same a.master_queue)

admit_pixel-Pushes :
    (user : ℕ) (p : PixelDatagram) (a a' : Admitter) → admit_pixel user p a ≡ some a' → Pushes a a'
unfolding admit_pixel
admit_pixel-Pushes user p a a' e = elim (Option-cases (is_on_cooldown a.cooldown_master user)) [
  | inl stuck ↦ absurd (ground (arith, e, stuck))
  | inr (true, tested) ↦ same-Pushes a a' (ground (arith, e, tested))
  | inr (false, tested) ↦ elim (Option-cases (set_cooldown a.cooldown_master user)) [
    | inl stuck ↦ absurd (ground (arith, e, tested, stuck))
    | inr (cooldowns, noted) ↦ elim (Option-cases (add_cooldown a.timing_wheel user)) [
      | inl stuck ↦ absurd (ground (arith, e, tested, noted, stuck))
      | inr (wheel, turned) ↦
          let same : (push a.master_queue (pixel_write p)).1 ≡ a'.master_queue =
            ground (arith, e, tested, noted, turned) in
          subst (Grows a.master_queue) same (Grows-push a.master_queue (pixel_write p))
    ]
  ]
]

pub admit-Pushes :
    (user : ℕ) (pixels : List PixelDatagram) (a a' : Admitter)
    → admit user pixels a ≡ some a'
    → Pushes a a'
unfolding admit
admit-Pushes user [] a a' e = same-Pushes a a' (ground (arith, e))
admit-Pushes user (p ∷ pixels) a a' e = elim (Option-cases (admit_pixel user p a)) [
  | inl stuck ↦ absurd (ground (arith, e, stuck))
  | inr (a₁, first) ↦
      Grows-trans (admit_pixel-Pushes user p a a₁ first)
        (admit-Pushes user pixels a₁ a' (ground (arith, e, first)))
]

pub handle_tick-Pushes :
    (now_sec : ℕ) (a a' : Admitter) → handle_tick now_sec a ≡ some a' → Pushes a a'
unfolding handle_tick
handle_tick-Pushes now_sec a a' e = elim (Bool-cases (ltb a.last_tick_sec now_sec)) [
  | inl due ↦ elim (Option-cases (tick a.timing_wheel a.cooldown_master)) [
    | inl stuck ↦ absurd (ground (arith, e, due, stuck))
    | inr (ticked, turned) ↦
        let same : a.master_queue ≡ a'.master_queue = ground (arith, e, due, turned) in
        subst (Grows a.master_queue) same (Grows-same a.master_queue)
  ]
  | inr early ↦ same-Pushes a a' (ground (arith, e, early))
]
