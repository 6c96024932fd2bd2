-- ===== src/Master/Round.antt =====
-- A whole round of the loop of `MasterCore::run` in server/src/master.rs.
use reddit_puzzle_system_des.Base.{
  ℕ, leb, Bool, true, false, Bool-cases, inl, inr, some, List, ◌≡◌, refl,
}
use reddit_puzzle_system_des.Settings.{broadcast_interval_ms}
use reddit_puzzle_system_des.Spsc.{wrapping_sub}
use reddit_puzzle_system_des.Canvas.Pixels.{IsWhole}
use reddit_puzzle_system_des.Rle.{Cpu}
use reddit_puzzle_system_des.Master.{PixelWrite, MasterCore, broadcast_if_due, iteration}
use reddit_puzzle_system_des.Master.Drain.{
  apply_writes, apply_writes-IsWhole, AllHold, batch, leftover, drain_all_lem,
}
use reddit_puzzle_system_des.Master.Publish.{IsValid}
use reddit_puzzle_system_des.Master.Snapshot.{Shows, publish_lem}

-- The queues hold these writes, the canvas is whole and the statics are well formed.
pub record Ready (m : MasterCore) (pss : List (List PixelWrite)) : Type 0 where
  pub queues : AllHold m.workers pss
  pub whole : IsWhole m.canvas
  pub statics_valid : IsValid m.statics

-- Enough time has passed since the last broadcast, on a clock that wraps.
abbrev pub is_due : ℕ → MasterCore → Bool
is_due now m = leb broadcast_interval_ms (wrapping_sub now m.last_broadcast_time)

-- What the broadcast test leaves.
abbrev pub AfterTest : ℕ → MasterCore → MasterCore → Type 0
AfterTest now m m' =
    (is_due now m ≡ true → Shows m'.canvas m'.statics × (m'.last_broadcast_time ≡ now))
    × (is_due now m ≡ false
        → (m'.statics ≡ m.statics) × (m'.last_broadcast_time ≡ m.last_broadcast_time))

broadcast_if_due_lem :
    (cpu : Cpu) (now : ℕ) {m : MasterCore}
    → IsWhole m.canvas
    → IsValid m.statics
    → (m' : MasterCore) × (broadcast_if_due cpu now m ≡ some m')
      × (m'.workers ≡ m.workers)
      × (m'.canvas ≡ m.canvas)
      × IsValid m'.statics
      × AfterTest now m m'
unfolding broadcast_if_due
broadcast_if_due_lem cpu now {m} whole v = elim (Bool-cases (is_due now m)) [
  | inl due ↦
      let (s, e, v', _, _, shows, _) = publish_lem cpu m.canvas v whole in
      (
        record m { statics = s; last_broadcast_time = now },
        rw (due, broadcast_if_due, e),
        refl,
        refl,
        v',
        ((λ _. (shows, refl)), (λ not_due. cc)),
      )
  | inr early ↦ (m, rw (early, broadcast_if_due), refl, refl, v, ((λ due. cc), (λ _. (refl, refl))))
]

-- A round of the master never panics: it applies the round's batch to the canvas and nothing else,
-- leaves the remaining writes queued and everything well formed, and, exactly when 100 ms or more
-- have passed since the last broadcast on the wrapping clock, publishes a slot that shows the new
-- canvas and notes the time.
pub iteration_lem :
    (cpu : Cpu) (now : ℕ) {m : MasterCore} (pss : List (List PixelWrite))
    → Ready m pss
    → (m' : MasterCore) × (iteration cpu now m ≡ some m')
      × Ready m' (leftover pss)
      × (m'.canvas ≡ apply_writes (batch pss) m.canvas)
      × AfterTest now m m'
unfolding iteration
iteration_lem cpu now {m} pss r =
    let (queues, e, held) = drain_all_lem m.workers pss m.canvas r.queues in
    let whole = apply_writes-IsWhole (batch pss) m.canvas r.whole in
    let (m', e', kept, canvas, v, after) =
      broadcast_if_due_lem cpu now
        {m = record m { workers = queues; canvas = apply_writes (batch pss) m.canvas }} whole
        r.statics_valid in
    (
      m',
      rw (e, e'),
      record { queues = rw kept held; whole = rw canvas whole; statics_valid = v },
      canvas,
      after,
    )
