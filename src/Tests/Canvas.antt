-- ===== src/Tests/Canvas.antt =====
-- The canvas at small inputs.
use reddit_puzzle_system_des.Base.{ℕ, ◌≤◌, ◌<◌, ◌==◌, ◌&&◌, if◌then◌else◌, ◌⊎◌, ◌≡◌}
use reddit_puzzle_system_des.Settings.{canvas_width, canvas_height}
use reddit_puzzle_system_des.Canvas
use reddit_puzzle_system_des.Canvas.{set_pixel}
use reddit_puzzle_system_des.Canvas.Pixels.{pixel, IsWhole, new-IsWhole, set_pixel_lem}

set_pixel_lem_example :
    IsWhole (set_pixel Canvas.new 10 10 255)
    × ((canvas_width ≤ 10) ⊎ (canvas_height ≤ 10) → set_pixel Canvas.new 10 10 255 ≡ Canvas.new)
    × ((u v : ℕ)
        → 10 < canvas_width
        → 10 < canvas_height
        → u < canvas_width
        → v < canvas_height
        → pixel (set_pixel Canvas.new 10 10 255) u v
          ≡ (if 10 == u && 10 == v then 255 else pixel Canvas.new u v))
set_pixel_lem_example = set_pixel_lem Canvas.new 10 10 255 new-IsWhole
