-- ===== src/Tests/Resync.antt =====
-- A receiver that had nothing, over sixty broadcasts of two canvases in turn.
use reddit_puzzle_system_des.Base.{
  ℕ, zero, suc, some, inr, List, [], ◌∷◌, length-replicate, replicate, ◌≡◌, ◌≢◌, sym, arith,
}
use reddit_puzzle_system_des.Settings.{canvas_size}
use reddit_puzzle_system_des.Rle.{avx2}
use reddit_puzzle_system_des.Canvas
use reddit_puzzle_system_des.Canvas.{Canvas, Statics, initial_statics, set_pixel}
use reddit_puzzle_system_des.Canvas.Pixels.{IsWhole, new-IsWhole, set_pixel-IsWhole}
use reddit_puzzle_system_des.Master.Publish.{IsValid, initial_statics-IsValid}
use reddit_puzzle_system_des.Master.Snapshot.{publish_lem}
use reddit_puzzle_system_des.Broadcast.{Broadcaster}
use reddit_puzzle_system_des.Broadcast.Follow.{watch_all, IsNews, latest}
use reddit_puzzle_system_des.Broadcast.Resync.{resync_lem}
use reddit_puzzle_system_des.Tests.Broadcast.{worker, worker-Ready}

abbrev dotted : Canvas
dotted = set_pixel Canvas.new 1 2 3

dotted-IsWhole : IsWhole dotted
dotted-IsWhole = set_pixel-IsWhole Canvas.new 1 2 3 new-IsWhole

abbrev first : Statics
first = (publish_lem avx2 Canvas.new initial_statics-IsValid new-IsWhole).0

first-IsValid : IsValid first
first-IsValid = (publish_lem avx2 Canvas.new initial_statics-IsValid new-IsWhole).2

abbrev second : Statics
second = (publish_lem avx2 dotted first-IsValid dotted-IsWhole).0

other_slot : second.active_index ≢ first.active_index
other_slot = (publish_lem avx2 dotted first-IsValid dotted-IsWhole).4

abbrev in_turn : ℕ → List (Canvas × Statics)
in_turn zero = []
in_turn (suc n) = (Canvas.new, first) ∷ (dotted, second) ∷ in_turn n

in_turn-IsNews : (n last : ℕ) → first.active_index ≢ last → IsNews last (in_turn n)
in_turn-IsNews zero last new = tt
in_turn-IsNews (suc n) last new = (
  first-IsValid,
  new-IsWhole,
  (publish_lem avx2 Canvas.new initial_statics-IsValid new-IsWhole).5,
  new,
  (
    (publish_lem avx2 dotted first-IsValid dotted-IsWhole).2,
    dotted-IsWhole,
    (publish_lem avx2 dotted first-IsValid dotted-IsWhole).5,
    other_slot,
    in_turn-IsNews n second.active_index (λ e. other_slot (sym e)),
  ),
)

begun : first.active_index ≢ worker.last_broadcast_index
unfolding initial_statics
begun = (publish_lem avx2 Canvas.new initial_statics-IsValid new-IsWhole).4

resync_lem_example :
    (b' : Broadcaster) × (canvas' : List ℕ) × (watch_all
        (in_turn 30)
        (worker, replicate canvas_size 7)
      ≡ some (b', canvas'))
    × (canvas' ≡ latest worker.last_sent_canvas (in_turn 30))
resync_lem_example =
    resync_lem (in_turn 30) worker (replicate canvas_size 7) (in_turn-IsNews 30 0 begun)
      worker-Ready (length-replicate {A = ℕ} canvas_size 7) (inr (omega arith))
