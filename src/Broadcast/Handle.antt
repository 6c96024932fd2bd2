-- ===== src/Broadcast/Handle.antt =====
-- `handle_broadcast` of server/src/worker.rs as a whole.
use reddit_puzzle_system_des.Base.{
  ℕ, ◌+◌, ◌%◌, ◌^◌, ◌==◌, ==_iff, Bool-cases, true, false, inl, inr, some, List, map, length, ◌≡◌,
  ◌≢◌, ◌∙◌, ap, refl, arith,
}
use reddit_puzzle_system_des.Settings.{canvas_size, broadcast_chunk_size}
use reddit_puzzle_system_des.Canvas.{Canvas, Statics}
use reddit_puzzle_system_des.Canvas.Pixels.{IsWhole}
use reddit_puzzle_system_des.Rle.{rle_decompress}
use reddit_puzzle_system_des.Master.Publish.{IsValid, slot}
use reddit_puzzle_system_des.Master.Snapshot.{Shows}
use reddit_puzzle_system_des.Quiche.{Quiche}
use reddit_puzzle_system_des.Broadcast.{
  Broadcaster, chunks, diff_loop, should_broadcast_full, send_chunks, handle_broadcast,
}
use reddit_puzzle_system_des.Broadcast.Chunks.{flat}
use reddit_puzzle_system_des.Broadcast.Diff.{apply_each}
use reddit_puzzle_system_des.Broadcast.Full.{
  Ready, payload, full_state, diff_state, flat-chunks, full-eq, diff-eq, full-Ready, diff_lem,
}

abbrev pub next_tick : Broadcaster → ℕ
next_tick b = (b.broadcast_ticks + 1) % 2 ^ 32

-- What a receiver makes of the datagrams of a broadcast: all of a full one is decompressed into any
-- canvas; a diff is applied to the canvas that was sent last.
abbrev pub Reaches : Broadcaster → List ℕ → List (List ℕ) → Type 0
Reaches b target pieces =
    (should_broadcast_full (next_tick b) ≡ true
      → (seen : List ℕ) → length seen ≡ canvas_size
      → rle_decompress (flat pieces) seen ≡ (target, canvas_size))
    × (should_broadcast_full (next_tick b) ≡ false → apply_each pieces b.last_sent_canvas ≡ target)

module _ (q : Quiche) where
  open q use {Connection}

  differ : (m n : ℕ) → (m == n) ≡ false → m ≢ n
  differ m n h e = ground arith

  -- The outcome of a call that finds a new active slot.
  pub record Sent (c : Canvas) (s : Statics) (b b' : Broadcaster) (conns conns' : List Connection)
      : Type 0 where
    pub pieces : List (List ℕ)
    pub to_all : conns' ≡ map (send_chunks q pieces) conns
    pub reaches : Reaches b c.pixels pieces
    pub last_sent : b'.last_sent_canvas ≡ c.pixels
    pub index : b'.last_broadcast_index ≡ s.active_index
    pub ticks : b'.broadcast_ticks ≡ next_tick b

  abbrev pub Outcome : Canvas → Statics → Broadcaster → List Connection → Type 0
  Outcome c s b conns =
      (b' : Broadcaster) × (conns' : List Connection) × (handle_broadcast q s b conns
        ≡ some (b', conns'))
      × Ready b'
      × (s.active_index ≡ b.last_broadcast_index → (b' ≡ b) × (conns' ≡ conns))
      × (s.active_index ≢ b.last_broadcast_index → Sent c s b b' conns conns')

  same_case :
      {c : Canvas} {s : Statics} {b : Broadcaster} (r : Ready b) (conns : List Connection)
      → (s.active_index == b.last_broadcast_index) ≡ true
      → Outcome c s b conns
  unfolding handle_broadcast
  same_case {s = s} {b = b} r conns same = (
    b,
    conns,
    rw same,
    r,
    (λ _. (refl, refl)),
    λ new. absurd (new ((==_iff s.active_index b.last_broadcast_index).0 same)),
  )

  module _ {c : Canvas} {s : Statics} (v : IsValid s) (whole : IsWhole c) (shows : Shows c s)
      {b : Broadcaster} (r : Ready b) (conns : List Connection) where
    -- The state that both kinds of broadcast start from.
    abbrev noted : Broadcaster
    noted = record b { last_broadcast_index = s.active_index; broadcast_ticks = next_tick b }

    noted-Ready : Ready noted
    noted-Ready = record { sent = r.sent; buffer = r.buffer }

    full_case :
        (s.active_index == b.last_broadcast_index) ≡ false
        → should_broadcast_full (next_tick b) ≡ true
        → Outcome c s b conns
    unfolding handle_broadcast
    full_case new full = (
      full_state s s.active_index noted,
      map (send_chunks q (chunks broadcast_chunk_size (payload s s.active_index))) conns,
      rw (new, full) (full-eq q v s.active_index v.active shows.bounded noted-Ready conns),
      full-Ready q v s.active_index v.active shows.bounded noted-Ready conns,
      (λ same. absurd (differ _ _ new same)),
      λ _. record {
        pieces = chunks broadcast_chunk_size (payload s s.active_index);
        to_all = refl;
        reaches = (
          (λ _ seen size. rw (flat-chunks (payload s s.active_index)) (shows.restores seen size)),
          (λ diff. cc),
        );
        last_sent = shows.plain;
        index = refl;
        ticks = refl;
      },
    )

    diff_case :
        (s.active_index == b.last_broadcast_index) ≡ false
        → should_broadcast_full (next_tick b) ≡ false
        → Outcome c s b conns
    unfolding handle_broadcast
    diff_case new diff =
        let (applied, last) =
          diff_lem q v s.active_index v.active shows.bounded noted-Ready conns in
        (
          diff_state s s.active_index noted,
          map
              (send_chunks q (
                chunks broadcast_chunk_size
                  (diff_loop 0 (slot s s.active_index) b.last_sent_canvas).0))
              conns,
          rw (new, diff) (diff-eq q v s.active_index v.active shows.bounded noted-Ready conns),
          record { sent = ap length last ∙ v.bytes s.active_index v.active; buffer = r.buffer },
          (λ same. absurd (differ _ _ new same)),
          λ _. record {
            pieces = _;
            to_all = refl;
            reaches = ((λ full. cc), (λ _. applied ∙ shows.plain));
            last_sent = last ∙ shows.plain;
            index = refl;
            ticks = refl;
          },
        )

  -- With well-formed statics whose active slot shows the canvas `c`, unless the worker has sent that
  -- slot already, a call never panics. If it has, nothing changes and nothing is sent. Otherwise every
  -- connection is handed the same datagrams, in order: after a full broadcast they decompress to
  -- `c`, after a diff they turn the canvas that was sent last into `c`; the worker notes `c` as sent,
  -- the active index and one more tick.
  pub handle_broadcast_lem :
      {c : Canvas} {s : Statics} {b : Broadcaster}
      → IsValid s
      → IsWhole c
      → (s.active_index ≢ b.last_broadcast_index → Shows c s)
      → Ready b
      → (conns : List Connection) → Outcome c s b conns
  handle_broadcast_lem {c} {s} {b} v whole shows r conns =
      elim (Bool-cases (s.active_index == b.last_broadcast_index)) [
        | inl same ↦ same_case r conns same
        | inr new ↦ elim (Bool-cases (should_broadcast_full (next_tick b))) [
          | inl full ↦ full_case v whole (shows (differ _ _ new)) r conns new full
          | inr diff ↦ diff_case v whole (shows (differ _ _ new)) r conns new diff
        ]
      ]
