-- ===== src/Broadcast/Full.antt =====
-- The full and the diff broadcast of server/src/worker.rs over well-formed statics.
use reddit_puzzle_system_des.Base.{
  ℕ, ◌*◌, ◌≤◌, ◌<◌, leb, ◌&&◌, true, some, List, [], ◌∷◌, ◌++◌, map, length, length-append,
  length-take, length-drop, take, drop, take-append-take, get_elem?-eq-get_or, ◌≡◌, ◌∙◌, ap, sym,
  refl, arith,
}
use reddit_puzzle_system_des.Settings.{canvas_size, canvas_buffer_pool_size, broadcast_chunk_size}
use reddit_puzzle_system_des.Canvas.{Statics, empty_canvas_buffer, empty_compressed_buffer}
use reddit_puzzle_system_des.Master.Publish.{IsValid, slot, compressed_slot, announced}
use reddit_puzzle_system_des.Quiche.{Quiche}
use reddit_puzzle_system_des.Broadcast.{
  Broadcaster, chunks, diff_loop, send_chunks, send_diff, broadcast_full_canvas,
  broadcast_canvas_diff,
}
use reddit_puzzle_system_des.Broadcast.Chunks.{flat, Cuts, chunks_lem}
use reddit_puzzle_system_des.Broadcast.Diff.{apply_each, diff_broadcast_lem}

-- The sizes of the worker's copies.
pub record Ready (b : Broadcaster) : Type 0 where
  pub sent : length b.last_sent_canvas ≡ canvas_size
  pub buffer : length b.local_compressed ≡ canvas_size * 2

-- What a full broadcast sends of a slot.
abbrev pub payload : Statics → ℕ → List ℕ
payload s i = take (announced s i) (compressed_slot s i)

abbrev pub full_state : Statics → ℕ → Broadcaster → Broadcaster
full_state s i b = record b {
  local_compressed = payload s i ++ drop (announced s i) b.local_compressed;
  last_sent_canvas = slot s i;
}

abbrev pub diff_state : Statics → ℕ → Broadcaster → Broadcaster
diff_state s i b =
    let changes = diff_loop 0 (slot s i) b.last_sent_canvas in
    record b { local_canvas = slot s i; diff_buffer = changes.0; last_sent_canvas = changes.1 }

every_byte : Cuts 1
every_byte n whole = omega arith

pub flat-chunks : (xs : List ℕ) → flat (chunks broadcast_chunk_size xs) ≡ xs
flat-chunks xs = (chunks_lem 1 every_byte xs (omega arith)).0

module _ (q : Quiche) where
  open q use {Connection}

  map-send_none : (conns : List Connection) → map (send_chunks q []) conns ≡ conns
  unfolding send_chunks
  map-send_none [] = refl
  map-send_none (conn ∷ conns) = ap (◌∷◌ conn) (map-send_none conns)

  send_diff-eq :
      (diff : List ℕ) (conns : List Connection)
      → send_diff q diff conns ≡ map (send_chunks q (chunks broadcast_chunk_size diff)) conns
  unfolding send_diff chunks
  send_diff-eq [] conns = sym (map-send_none conns)
  send_diff-eq (x ∷ xs) conns = refl

  module _ {s : Statics} (v : IsValid s) (i : ℕ) (low : i < canvas_buffer_pool_size)
      (short : announced s i ≤ canvas_size * 2) {b : Broadcaster} (r : Ready b)
      (conns : List Connection) where
    pub full-eq :
        broadcast_full_canvas q s i b conns
        ≡ some (
          full_state s i b,
          map (send_chunks q (chunks broadcast_chunk_size (payload s i))) conns,
        )
    unfolding broadcast_full_canvas
    full-eq =
        rw
          (
            get_elem?-eq-get_or s.compressed_lens i 0 (omega (arith, v.lens)),
            get_elem?-eq-get_or s.buffer_pool i empty_canvas_buffer (omega (arith, v.pool)),
            get_elem?-eq-get_or s.compressed_buffer_pool i empty_compressed_buffer
                (omega (arith, v.compressed)),
            fits,
            take-append-take (announced s i) (compressed_slot s i)
                (drop (announced s i) b.local_compressed) (omega (arith, v.room i low)),
          )
          refl
      where
        fits :
            (leb (announced s i) (length b.local_compressed)
              && leb (announced s i) (length (compressed_slot s i)))
            ≡ true
        fits = ground (arith, v.room i low, r.buffer)

    pub diff-eq :
        broadcast_canvas_diff q s i b conns
        ≡ some (
          diff_state s i b,
          map
              (send_chunks q
                (chunks broadcast_chunk_size (diff_loop 0 (slot s i) b.last_sent_canvas).0))
              conns,
        )
    unfolding broadcast_canvas_diff
    diff-eq =
        rw (get_elem?-eq-get_or s.buffer_pool i empty_canvas_buffer (omega (arith, v.pool)))
          (ap (λ cs. some (diff_state s i b, cs)) (send_diff-eq _ conns))

    pub full-Ready : Ready (full_state s i b)
    full-Ready = record {
      sent = v.bytes i low;
      buffer = omega (
        arith,
        length-append (payload s i) (drop (announced s i) b.local_compressed),
        length-take (announced s i) (compressed_slot s i),
        length-drop (announced s i) b.local_compressed,
        v.room i low,
        r.buffer,
      );
    }

    pub diff_lem :
        (apply_each
            (chunks broadcast_chunk_size (diff_loop 0 (slot s i) b.last_sent_canvas).0)
            b.last_sent_canvas
          ≡ slot s i)
        × ((diff_loop 0 (slot s i) b.last_sent_canvas).1 ≡ slot s i)
    diff_lem =
        let (apply, _, last) =
          diff_broadcast_lem (slot s i) b.last_sent_canvas (v.bytes i low ∙ sym r.sent)
            (omega (arith, v.bytes i low)) in
        (apply, last)
