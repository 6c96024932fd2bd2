-- ===== src/Broadcast/Follow.antt =====
-- What can be made of all datagrams of the broadcasts of server/src/worker.rs, in order, by a receiver
-- that is told which of them belong to one broadcast, and whether it was a full one. The server puts
-- neither on the wire, and client/src/main.rs does not decode what it gets.
use reddit_puzzle_system_des.Base.{
  ℕ, if◌then◌else◌, Bool-cases, true, false, inl, inr, Option, none, some, List, [], ◌∷◌, ◌++◌,
  append_assoc, append-nil, length, get_elem?, ◌≡◌, ◌≢◌, ◌∙◌, ap, sym, refl, ◌>>=◌,
}
use reddit_puzzle_system_des.Settings.{canvas_size}
use reddit_puzzle_system_des.Canvas.{Canvas, Statics}
use reddit_puzzle_system_des.Canvas.Pixels.{IsWhole}
use reddit_puzzle_system_des.Rle.{rle_decompress}
use reddit_puzzle_system_des.Master.Publish.{IsValid}
use reddit_puzzle_system_des.Master.Snapshot.{Shows}
use reddit_puzzle_system_des.Quiche.{Quiche}
use reddit_puzzle_system_des.Broadcast.{
  Broadcaster, should_broadcast_full, send_chunks, handle_broadcast,
}
use reddit_puzzle_system_des.Broadcast.Chunks.{flat}
use reddit_puzzle_system_des.Broadcast.Diff.{apply_diff, apply_each, length-apply_diff}
use reddit_puzzle_system_des.Broadcast.Full.{Ready}
use reddit_puzzle_system_des.Broadcast.Handle.{next_tick, Reaches, handle_broadcast_lem}

-- A connection that keeps the datagrams that it is handed.
abbrev pub recorder : Quiche
recorder = record {
  Connection = List (List ℕ);
  header = λ buf. none;
  accept = λ scid odcid local peer. some [];
  is_established = λ conn. true;
  is_closed = λ conn. false;
  recv = λ conn buf from to. conn;
  on_timeout = λ conn. conn;
  dgram_recv = λ size conn. (conn, none);
  dgram_send = λ conn chunk. conn ++ chunk ∷ [];
  send = λ size conn. (conn, none);
}

-- What the datagrams of one broadcast make of a receiver's canvas. The receiver knows the worker's tick,
-- which gives the kind of the broadcast.
abbrev pub view : ℕ → List (List ℕ) → List ℕ → List ℕ
view ticks pieces canvas =
    if should_broadcast_full ticks
    then (rle_decompress (flat pieces) canvas).0
    else apply_each pieces canvas

-- A call of `handle_broadcast`, and what the receiver makes of it.
pub watch : Statics → Broadcaster × List ℕ → Option (Broadcaster × List ℕ)
watch s (b, canvas) = do
  sent ← handle_broadcast recorder s b ([] ∷ [])
  pieces ← get_elem? sent.1 0
  some (sent.0, view sent.0.broadcast_ticks pieces canvas)

unfoldable pub watch_all :
    List (Canvas × Statics) → Broadcaster × List ℕ → Option (Broadcaster × List ℕ)
unfolding watch
watch_all [] state = some state
watch_all ((c, s) ∷ rest) state = do state' ← watch s state; watch_all rest state'

-- Each time the active slot is another one, and shows the canvas.
abbrev pub IsNews : ℕ → List (Canvas × Statics) → Type 0
IsNews last [] = Unit
IsNews last ((c, s) ∷ rest) =
    IsValid s × IsWhole c × Shows c s × (s.active_index ≢ last) × IsNews s.active_index rest

-- The canvas that was shown last.
abbrev pub latest : List ℕ → List (Canvas × Statics) → List ℕ
latest pixels [] = pixels
latest pixels ((c, s) ∷ rest) = latest c.pixels rest

send_chunks-recorder :
    (pieces conn : List (List ℕ)) → send_chunks recorder pieces conn ≡ conn ++ pieces
unfolding send_chunks
send_chunks-recorder [] conn = sym (append-nil conn)
send_chunks-recorder (piece ∷ pieces) conn =
    send_chunks-recorder pieces (conn ++ piece ∷ []) ∙ append_assoc conn (piece ∷ []) pieces

length-apply_each :
    (pieces : List (List ℕ)) (canvas : List ℕ) → length (apply_each pieces canvas) ≡ length canvas
length-apply_each [] canvas = refl
length-apply_each (piece ∷ pieces) canvas =
    length-apply_each pieces (apply_diff piece canvas) ∙ length-apply_diff piece canvas

-- One call that finds another slot.
pub record Watched (c : Canvas) (s : Statics) (b b' : Broadcaster) (canvas canvas' : List ℕ)
    : Type 0 where
  pub ready : Ready b'
  pub size : length canvas' ≡ canvas_size
  pub index : b'.last_broadcast_index ≡ s.active_index
  pub ticks : b'.broadcast_ticks ≡ next_tick b
  pub sent : b'.last_sent_canvas ≡ c.pixels
  pub follows : canvas ≡ b.last_sent_canvas → canvas' ≡ c.pixels
  pub restores : should_broadcast_full (next_tick b) ≡ true → canvas' ≡ c.pixels

view-full :
    (c : Canvas) (b : Broadcaster) (pieces : List (List ℕ)) (canvas : List ℕ)
    → Reaches b c.pixels pieces
    → length canvas ≡ canvas_size
    → should_broadcast_full (next_tick b) ≡ true
    → view (next_tick b) pieces canvas ≡ c.pixels
view-full c b pieces canvas reaches size full =
    rw full (ap (λ (r : List ℕ × ℕ). r.0) (reaches.0 full canvas size))

view-diff :
    (b : Broadcaster) (pieces : List (List ℕ)) (canvas : List ℕ)
    → should_broadcast_full (next_tick b) ≡ false
    → view (next_tick b) pieces canvas ≡ apply_each pieces canvas
view-diff b pieces canvas diff = rw diff refl

-- The receiver's canvas keeps its size.
length-view :
    (c : Canvas) (b : Broadcaster) (pieces : List (List ℕ)) (canvas : List ℕ)
    → IsWhole c
    → Reaches b c.pixels pieces
    → length canvas ≡ canvas_size
    → length (view (next_tick b) pieces canvas) ≡ canvas_size
length-view c b pieces canvas whole reaches size =
    elim (Bool-cases (should_broadcast_full (next_tick b))) [
      | inl full ↦ ap length (view-full c b pieces canvas reaches size full) ∙ whole
      | inr diff ↦
          ap length (view-diff b pieces canvas diff) ∙ length-apply_each pieces canvas ∙ size
    ]

watch-eq :
    (s : Statics) (b b' : Broadcaster) (pieces : List (List ℕ)) (canvas : List ℕ)
    → handle_broadcast recorder s b ([] ∷ []) ≡ some (b', pieces ∷ [])
    → watch s (b, canvas) ≡ some (b', view b'.broadcast_ticks pieces canvas)
unfolding watch
watch-eq s b b' pieces canvas e = rw e refl

pub watch_lem :
    {c : Canvas} {s : Statics} {b : Broadcaster} (canvas : List ℕ)
    → IsValid s
    → IsWhole c
    → Shows c s
    → s.active_index ≢ b.last_broadcast_index
    → Ready b
    → length canvas ≡ canvas_size
    → (b' : Broadcaster) × (canvas' : List ℕ) × (watch s (b, canvas) ≡ some (b', canvas'))
      × Watched c s b b' canvas canvas'
watch_lem {c} {s} {b} canvas valid whole shows new r size =
    let (b', conns, e, ready, _, sent_if) =
      handle_broadcast_lem recorder valid whole (λ _. shows) r ([] ∷ []) in
    let sent = sent_if new in
    let handed : conns ≡ sent.pieces ∷ [] =
      sent.to_all ∙ ap (λ conn. conn ∷ []) (send_chunks-recorder sent.pieces []) in
    (
      b',
      view (next_tick b) sent.pieces canvas,
      watch-eq s b b' sent.pieces canvas (e ∙ ap (λ cs. some (b', cs)) handed)
          ∙ ap (λ t. some (b', view t sent.pieces canvas)) sent.ticks,
      record {
        ready = ready;
        size = length-view c b sent.pieces canvas whole sent.reaches size;
        index = sent.index;
        ticks = sent.ticks;
        sent = sent.last_sent;
        follows = λ same. elim (Bool-cases (should_broadcast_full (next_tick b))) [
          | inl full ↦ view-full c b sent.pieces canvas sent.reaches size full
          | inr diff ↦
              view-diff b sent.pieces canvas diff
              ∙ ap (apply_each sent.pieces) same
              ∙ sent.reaches.1 diff
        ];
        restores = view-full c b sent.pieces canvas sent.reaches size;
      },
    )
