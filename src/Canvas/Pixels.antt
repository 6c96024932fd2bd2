-- ===== src/Canvas/Pixels.antt =====
-- The canvas of server/src/canvas.rs as a grid.
use reddit_puzzle_system_des.Base.{
  ℕ, ◌+◌, ◌*◌, ◌≤◌, ◌<◌, ◌==◌, ◌&&◌, if◌then◌else◌, length, length-set, length-replicate, get_or,
  get_or-set, ◌≡◌, ◌⊎◌, arith,
}
use reddit_puzzle_system_des.Settings.{canvas_width, canvas_height, canvas_size}
use reddit_puzzle_system_des.Canvas.{Canvas, new, set_pixel}

pub pixel : Canvas → ℕ → ℕ → ℕ
pixel c x y = get_or c.pixels (y * canvas_width + x) 0

abbrev pub IsWhole : Canvas → Type 0
IsWhole c = length c.pixels ≡ canvas_size

pub new-IsWhole : IsWhole new
unfolding new
new-IsWhole = length-replicate {A = ℕ} canvas_size 0

pub set_pixel-IsWhole : (c : Canvas) (x y color : ℕ) → IsWhole c → IsWhole (set_pixel c x y color)
unfolding set_pixel
set_pixel-IsWhole c x y color whole =
    ground (arith, length-set c.pixels (y * canvas_width + x) color)

-- A write inside the canvas changes that pixel and no other pixel of the grid; a write outside
-- changes nothing at all. The canvas keeps its size.
pub set_pixel_lem :
    (c : Canvas) (x y color : ℕ)
    → IsWhole c
    → IsWhole (set_pixel c x y color)
      × ((canvas_width ≤ x) ⊎ (canvas_height ≤ y) → set_pixel c x y color ≡ c)
      × ((u v : ℕ)
          → x < canvas_width
          → y < canvas_height
          → u < canvas_width
          → v < canvas_height
          → pixel (set_pixel c x y color) u v ≡ (if x == u && y == v then color else pixel c u v))
unfolding set_pixel pixel
set_pixel_lem c x y color whole = (
  set_pixel-IsWhole c x y color whole,
  (λ out. ground arith),
  λ u v hx hy hu hv.
      ground (arith, get_or-set c.pixels (y * canvas_width + x) (v * canvas_width + u) color 0),
)
