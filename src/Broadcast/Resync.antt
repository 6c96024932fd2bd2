-- ===== src/Broadcast/Resync.antt =====
-- A receiver of many broadcasts of server/src/worker.rs, which is told the kind of each.
use reddit_puzzle_system_des.Base.{
  ℕ, zero, suc, ◌+◌, ◌-◌, ◌%◌, ◌^◌, ◌≤◌, ◌<◌, ltb, Bool-cases, true, inl, inr, ◌⊎◌, some, List, [],
  ◌∷◌, length, ◌≡◌, ◌∙◌, ap, sym, subst, refl, arith,
}
use reddit_puzzle_system_des.Settings.{canvas_size, full_broadcast_interval}
use reddit_puzzle_system_des.Canvas.{Canvas, Statics}
use reddit_puzzle_system_des.Broadcast.{Broadcaster, should_broadcast_full}
use reddit_puzzle_system_des.Broadcast.Full.{Ready}
use reddit_puzzle_system_des.Broadcast.Handle.{next_tick}
use reddit_puzzle_system_des.Broadcast.Follow.{watch_all, IsNews, latest, Watched, watch_lem}

-- The tick of the broadcast behind `k` others.
abbrev tick_after : ℕ → Broadcaster → ℕ
tick_after k b = (b.broadcast_ticks + 1 + k) % 2 ^ 32

-- The receiver has what the worker has sent last, or one of the next `n` broadcasts is a full one.
abbrev InTime : ℕ → Broadcaster → List ℕ → Type 0
InTime n b canvas =
    (canvas ≡ b.last_sent_canvas)
    ⊎ ((k : ℕ) × (k < n) × (should_broadcast_full (tick_after k b) ≡ true))

sixtieth : (ticks : ℕ) → ticks % full_broadcast_interval ≡ 0 → should_broadcast_full ticks ≡ true
unfolding should_broadcast_full
sixtieth ticks e = ground (arith, e)

-- Also where the counter wraps, one of sixty broadcasts is a full one.
full_within :
    (b : Broadcaster)
    → (k : ℕ) × (k < full_broadcast_interval) × (should_broadcast_full (tick_after k b) ≡ true)
full_within b =
    let next = (b.broadcast_ticks + 1) % 2 ^ 32 in
    let wait =
      (full_broadcast_interval - next % full_broadcast_interval) % full_broadcast_interval in
    elim (Bool-cases (ltb (next + wait) (2 ^ 32))) [
      | inl before ↦ (wait, omega arith, sixtieth (tick_after wait b) (ground (arith, before)))
      | inr wrapped ↦ (
        2 ^ 32 - next,
        ground (arith, wrapped),
        sixtieth (tick_after (2 ^ 32 - next) b) (ground (arith, wrapped)),
      )
    ]

next-InTime :
    (n : ℕ) {c : Canvas} {s : Statics} {b b' : Broadcaster} {canvas canvas' : List ℕ}
    → Watched c s b b' canvas canvas'
    → InTime (suc n) b canvas
    → InTime n b' canvas'
next-InTime n w (inl same) = inl (w.follows same ∙ sym w.sent)
next-InTime n {b = b} w (inr (zero, low, full)) =
    let now : tick_after zero b ≡ next_tick b = omega arith in
    inl (w.restores (subst (λ t. should_broadcast_full t ≡ true) now full) ∙ sym w.sent)
next-InTime n {b = b} {b' = b'} w (inr (suc k, low, full)) =
    let later : tick_after (suc k) b ≡ tick_after k b' = omega (arith, w.ticks) in
    inr (k, omega (arith, low), subst (λ t. should_broadcast_full t ≡ true) later full)

follow_all :
    (news : List (Canvas × Statics)) (b : Broadcaster) (canvas : List ℕ)
    → IsNews b.last_broadcast_index news
    → Ready b
    → length canvas ≡ canvas_size
    → InTime (length news) b canvas
    → (b' : Broadcaster) × (canvas' : List ℕ) × (watch_all news (b, canvas) ≡ some (b', canvas'))
      × (canvas' ≡ latest b.last_sent_canvas news)
unfolding watch_all
follow_all [] b canvas fresh r size (inl same) = (b, canvas, refl, same)
follow_all [] b canvas fresh r size (inr (k, low, full)) = absurd (omega (arith, low))
follow_all ((c, s) ∷ news) b canvas (valid, whole, shows, new, fresh) r size in_time =
    let (b₁, canvas₁, e, w) = watch_lem canvas valid whole shows new r size in
    let (b₂, canvas₂, e', same) =
      follow_all news b₁ canvas₁ (subst (λ i. IsNews i news) (sym w.index) fresh) w.ready w.size
        (next-InTime (length news) w in_time) in
    (b₂, canvas₂, rw e e', same ∙ ap (λ pixels. latest pixels news) w.sent)

-- About a receiver that gets all datagrams of a ready broadcaster in order, and is told which of them
-- belong to one broadcast and whether that was a full one (the server puts neither on the wire): when
-- the statics are well formed and the active slot is another one each time that the worker looks, and
-- shows a whole canvas, no broadcast panics, and the receiver, with a canvas of the right size, has the
-- latest of these canvases in the end, if it had what the worker sent last, or else, whatever it had,
-- once there were 60 broadcasts, also when their counter wraps.
pub resync_lem :
    (news : List (Canvas × Statics)) (b : Broadcaster) (canvas : List ℕ)
    → IsNews b.last_broadcast_index news
    → Ready b
    → length canvas ≡ canvas_size
    → (canvas ≡ b.last_sent_canvas) ⊎ (full_broadcast_interval ≤ length news)
    → (b' : Broadcaster) × (canvas' : List ℕ) × (watch_all news (b, canvas) ≡ some (b', canvas'))
      × (canvas' ≡ latest b.last_sent_canvas news)
resync_lem news b canvas fresh r size (inl same) = follow_all news b canvas fresh r size (inl same)
resync_lem news b canvas fresh r size (inr many) =
    let (k, low, full) = full_within b in
    follow_all news b canvas fresh r size (inr (k, omega (arith, low, many), full))
