-- ===== src/Canvas.antt =====
-- server/src/canvas.rs: the canvas and the static buffers that the master publishes it in.
pub mod Pixels
use reddit_puzzle_system_des.Base.{
  ℕ, ◌+◌, ◌*◌, ltb, ◌&&◌, if◌then◌else◌, Option, List, replicate, set, store,
}
use reddit_puzzle_system_des.Settings.{
  canvas_width, canvas_height, canvas_size, canvas_buffer_pool_size,
}

pub record CanvasBuffer : Type 0 where
  pub bytes : List ℕ

pub record CompressedBuffer : Type 0 where
  pub bytes : List ℕ

unfoldable pub empty_canvas_buffer : CanvasBuffer
empty_canvas_buffer = record { bytes = replicate canvas_size 0 }

unfoldable pub empty_compressed_buffer : CompressedBuffer
empty_compressed_buffer = record { bytes = replicate (canvas_size * 2) 0 }

-- `BUFFER_POOL`, `COMPRESSED_BUFFER_POOL`, `COMPRESSED_LENS` and `ACTIVE_INDEX`.
pub record Statics : Type 0 where
  pub buffer_pool : List CanvasBuffer
  pub compressed_buffer_pool : List CompressedBuffer
  pub compressed_lens : List ℕ
  pub active_index : ℕ

unfoldable pub initial_statics : Statics
initial_statics = record {
  buffer_pool = replicate canvas_buffer_pool_size empty_canvas_buffer;
  compressed_buffer_pool = replicate canvas_buffer_pool_size empty_compressed_buffer;
  compressed_lens = replicate canvas_buffer_pool_size 0;
  active_index = 0;
}

pub record Canvas : Type 0 where
  pub pixels : List ℕ

unfoldable pub new : Canvas
new = record { pixels = replicate canvas_size 0 }

-- The write through the raw pointer is at an index below `CANVAS_SIZE`.
pub set_pixel : Canvas → ℕ → ℕ → ℕ → Canvas
set_pixel c x y color =
    if ltb x canvas_width && ltb y canvas_height
    then record c { pixels = set c.pixels (y * canvas_width + x) color }
    else c

-- All `CANVAS_SIZE` bytes of the slot are overwritten; `none` is an index out of range.
unfoldable pub snapshot_to_pool : Canvas → ℕ → List CanvasBuffer → Option (List CanvasBuffer)
snapshot_to_pool c target_index pool = store pool target_index (record { bytes = c.pixels })
