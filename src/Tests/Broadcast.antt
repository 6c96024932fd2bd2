-- ===== src/Tests/Broadcast.antt =====
-- The broadcasts at small inputs, over connections that record what they are handed.
use reddit_puzzle_system_des.Base.{
  ℕ, ◌*◌, true, false, some, none, List, [], ◌∷◌, ◌++◌, replicate, length-replicate, All, ◌≡◌, refl,
  arith,
}
use reddit_puzzle_system_des.Settings.{canvas_size, broadcast_chunk_size}
use reddit_puzzle_system_des.Canvas
use reddit_puzzle_system_des.Canvas.{Statics}
use reddit_puzzle_system_des.Canvas.Pixels.{new-IsWhole}
use reddit_puzzle_system_des.Rle.{avx2}
use reddit_puzzle_system_des.Master.Publish.{initial_statics-IsValid}
use reddit_puzzle_system_des.Master.Snapshot.{publish_lem}
use reddit_puzzle_system_des.Quiche.{Quiche}
use reddit_puzzle_system_des.Broadcast.{Broadcaster, chunks, diff_loop}
use reddit_puzzle_system_des.Broadcast.Chunks.{IsPiece}
use reddit_puzzle_system_des.Broadcast.Diff.{apply_each, diff_broadcast_lem}
use reddit_puzzle_system_des.Broadcast.Full.{Ready}
use reddit_puzzle_system_des.Broadcast.Handle.{Outcome, handle_broadcast_lem}

-- A connection is the list of the datagrams that it was handed.
abbrev pub recorder : Quiche
recorder = record {
  Connection = List (List ℕ);
  header = λ buf. none;
  accept = λ scid odcid local peer. some [];
  is_established = λ conn. true;
  is_closed = λ conn. false;
  recv = λ conn buf from to. conn;
  on_timeout = λ conn. conn;
  dgram_recv = λ size conn. (conn, none);
  dgram_send = λ conn chunk. conn ++ chunk ∷ [];
  send = λ size conn. (conn, none);
}

abbrev pub worker : Broadcaster
worker = record {
  last_broadcast_index = 0;
  last_sent_canvas = replicate canvas_size 0;
  local_canvas = replicate canvas_size 0;
  local_compressed = replicate (canvas_size * 2) 0;
  broadcast_ticks = 0;
  diff_buffer = [];
}

pub worker-Ready : Ready worker
worker-Ready = record {
  sent = length-replicate {A = ℕ} canvas_size 0;
  buffer = length-replicate {A = ℕ} (canvas_size * 2) 0;
}

abbrev first_statics : Statics
first_statics = (publish_lem avx2 Canvas.new initial_statics-IsValid new-IsWhole).0

handle_broadcast_lem_example :
    Outcome recorder Canvas.new first_statics worker ([] ∷ ((1 ∷ []) ∷ []) ∷ [])
handle_broadcast_lem_example =
    handle_broadcast_lem recorder
      (publish_lem avx2 Canvas.new initial_statics-IsValid new-IsWhole).2 new-IsWhole
      (λ new. (publish_lem avx2 Canvas.new initial_statics-IsValid new-IsWhole).5) worker-Ready
      ([] ∷ ((1 ∷ []) ∷ []) ∷ [])

diff_of_two :
    (diff_loop 0 (7 ∷ 8 ∷ 9 ∷ []) (7 ∷ 0 ∷ 0 ∷ [])).0 ≡ 1 ∷ 0 ∷ 0 ∷ 0 ∷ 8 ∷ 2 ∷ 0 ∷ 0 ∷ 0 ∷ 9 ∷ []
unfolding diff_loop
diff_of_two = refl

diff_broadcast_lem_example :
    let changes = diff_loop 0 (7 ∷ 8 ∷ 9 ∷ []) (7 ∷ 0 ∷ 0 ∷ []) in
    (apply_each (chunks broadcast_chunk_size changes.0) (7 ∷ 0 ∷ 0 ∷ []) ≡ 7 ∷ 8 ∷ 9 ∷ [])
    × All (IsPiece 5) (chunks broadcast_chunk_size changes.0)
    × (changes.1 ≡ 7 ∷ 8 ∷ 9 ∷ [])
diff_broadcast_lem_example = diff_broadcast_lem (7 ∷ 8 ∷ 9 ∷ []) (7 ∷ 0 ∷ 0 ∷ []) refl (omega arith)
