-- ===== src/Broadcast.antt =====
-- The broadcasts of server/src/worker.rs (`handle_broadcast` and what it calls): what the worker
-- sends its connections when the master has published. `ACTIVE_INDEX` is loaded once per call, and
-- the statics do not change during it (Master/Snapshot has how long a loaded slot stays as it is).
pub mod Chunks
pub mod Diff
pub mod Full
pub mod Handle
pub mod Follow
pub mod Resync
use reddit_puzzle_system_des.Base.{
  ℕ, zero, suc, ◌+◌, ◌*◌, ◌/◌, ◌%◌, ◌^◌, leb, ◌==◌, ◌&&◌, ◌||◌, if◌then◌else◌, Bool, Option, none,
  some, List, [], ◌∷◌, ◌++◌, map, length, take, drop, get_elem?, ◌>>=◌,
}
use reddit_puzzle_system_des.Settings.{broadcast_chunk_size, full_broadcast_interval}
use reddit_puzzle_system_des.Canvas.{Statics}
use reddit_puzzle_system_des.Quiche.{Quiche}

-- The fields of `WorkerCore` that broadcasting uses.
pub record Broadcaster : Type 0 where
  pub last_broadcast_index : ℕ
  pub last_sent_canvas : List ℕ
  pub local_canvas : List ℕ
  pub local_compressed : List ℕ
  pub broadcast_ticks : ℕ
  pub diff_buffer : List ℕ

-- `slice::chunks`; every chunk of a positive size takes a byte, so the length is fuel enough.
pub chunks_from : ℕ → ℕ → List ℕ → List (List ℕ)
chunks_from fuel size [] = []
chunks_from zero size (x ∷ xs) = []
chunks_from (suc fuel) size (x ∷ xs) =
    take size (x ∷ xs) ∷ chunks_from fuel size (drop size (x ∷ xs))

pub chunks : ℕ → List ℕ → List (List ℕ)
unfolding chunks_from
chunks size xs = chunks_from (length xs) size xs

-- `(i as u32).to_le_bytes()`
abbrev pub to_le_bytes : ℕ → List ℕ
to_le_bytes i =
    let w = i % 2 ^ 32 in w % 256 ∷ w / 256 % 256 ∷ w / 65_536 % 256 ∷ w / 16_777_216 % 256 ∷ []

-- The loop over the zipped canvases from index `i` on: the entries for the diff buffer, and the last
-- sent canvas brought up to date.
unfoldable pub diff_loop : ℕ → List ℕ → List ℕ → List ℕ × List ℕ
diff_loop i [] old = ([], old)
diff_loop i (new_pixel ∷ news) [] = ([], [])
diff_loop i (new_pixel ∷ news) (old_pixel ∷ olds) =
    let (entries, olds') = diff_loop (i + 1) news olds in
    if old_pixel == new_pixel
    then (entries, old_pixel ∷ olds')
    else (to_le_bytes i ++ (new_pixel ∷ entries), new_pixel ∷ olds')

pub should_broadcast_full : ℕ → Bool
should_broadcast_full broadcast_ticks =
    broadcast_ticks == 1 || broadcast_ticks % full_broadcast_interval == 0

module _ (q : Quiche) where
  open q use {Connection, dgram_send}

  -- The inner loop over the chunks, for one connection; results are ignored.
  pub send_chunks : List (List ℕ) → Connection → Connection
  send_chunks [] conn = conn
  send_chunks (chunk ∷ rest) conn = send_chunks rest (dgram_send conn chunk)

  -- `none` is a slice or an index out of range.
  pub broadcast_full_canvas :
      Statics → ℕ → Broadcaster → List Connection → Option (Broadcaster × List Connection)
  broadcast_full_canvas s active_index b conns = do
    len ← get_elem? s.compressed_lens active_index
    new_canvas ← get_elem? s.buffer_pool active_index
    compressed ← get_elem? s.compressed_buffer_pool active_index
    if leb len (length b.local_compressed) && leb len (length compressed.bytes)
        then some (
          record b {
            local_compressed = take len compressed.bytes ++ drop len b.local_compressed;
            last_sent_canvas = new_canvas.bytes;
          },
          map
              (send_chunks (
                chunks broadcast_chunk_size
                  (take len (take len compressed.bytes ++ drop len b.local_compressed))))
              conns,
        )
        else none

  -- An empty diff buffer has no chunks, but the source returns before the loop all the same.
  pub send_diff : List ℕ → List Connection → List Connection
  send_diff [] conns = conns
  send_diff (x ∷ xs) conns = map (send_chunks (chunks broadcast_chunk_size (x ∷ xs))) conns

  pub broadcast_canvas_diff :
      Statics → ℕ → Broadcaster → List Connection → Option (Broadcaster × List Connection)
  unfolding send_diff
  broadcast_canvas_diff s active_index b conns = do
    snapshot ← get_elem? s.buffer_pool active_index
    let changes = diff_loop 0 snapshot.bytes b.last_sent_canvas
    some (
      record b {
        local_canvas = snapshot.bytes;
        diff_buffer = changes.0;
        last_sent_canvas = changes.1;
      },
      send_diff changes.0 conns,
    )

  -- `broadcast_ticks` is a `u32`.
  pub handle_broadcast :
      Statics → Broadcaster → List Connection → Option (Broadcaster × List Connection)
  handle_broadcast s b conns =
      let current_active = s.active_index in
      let ticks = (b.broadcast_ticks + 1) % 2 ^ 32 in
      let b₁ = record b { last_broadcast_index = current_active; broadcast_ticks = ticks } in
      if current_active == b.last_broadcast_index
      then some (b, conns)
      else if should_broadcast_full ticks
      then broadcast_full_canvas s current_active b₁ conns
      else broadcast_canvas_diff s current_active b₁ conns
