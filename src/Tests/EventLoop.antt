-- ===== src/Tests/EventLoop.antt =====
-- Turns of the event loop over a ring with two completions.
use reddit_puzzle_system_des.Base.{
  ℕ, ◌*◌, ◌-◌, ◌/◌, ◌%◌, ◌==◌, if◌then◌else◌, Option, some, none, List, [], ◌∷◌, ◌++◌, replicate,
  length, length-append, length-replicate, take, take-length-append, bit_and_mask, All, ◌≡◌, ◌∙◌,
  ap, sym, subst, refl, arith,
}
use reddit_puzzle_system_des.Settings.{pkt_buf_size, io_uring_num_buffers}
use reddit_puzzle_system_des.Settings.Depth.{io_uring_num_buffers_lem}
use reddit_puzzle_system_des.HashMap.{same_bytes}
use reddit_puzzle_system_des.Outcome.{done}
use reddit_puzzle_system_des.Framing.Bytes.{read_le}
use reddit_puzzle_system_des.Spsc
use reddit_puzzle_system_des.Spsc.Refine.{new-Holds}
use reddit_puzzle_system_des.Master.{PixelWrite}
use reddit_puzzle_system_des.Rle.{avx2}
use reddit_puzzle_system_des.Canvas
use reddit_puzzle_system_des.Canvas.Pixels.{new-IsWhole}
use reddit_puzzle_system_des.Master.Publish.{initial_statics-IsValid}
use reddit_puzzle_system_des.Master.Snapshot.{publish_lem}
use reddit_puzzle_system_des.Transmit.Slots.{Sends}
use reddit_puzzle_system_des.EventLoop.{Cqueue, Cqe, WorkerCore, process_pending_cqes}
use reddit_puzzle_system_des.EventLoop.Sound.{
  NeverRepeat, IsSound, IsFilled, IsReceive, buffer_of, tags, IsOfSends,
}
use reddit_puzzle_system_des.EventLoop.Progress.{Progress}
use reddit_puzzle_system_des.EventLoop.Batch.{process_pending_lem}
use reddit_puzzle_system_des.EventLoop.Turn.{Turned, Ends, run_turn_lem}
use reddit_puzzle_system_des.EventLoop.Start.{new, start, start-IsSound}
use reddit_puzzle_system_des.Tests.Framing.{packet, packet-SaneControl}
use reddit_puzzle_system_des.Tests.Transport.{mailbox, mailbox-Drains}

-- Flags as Linux sets them: bit 0 for a buffer, whose id stands in the upper half, and bit 1 for more.
abbrev pub linux : Cqueue
linux = record {
  buffer_select = λ flags. if flags % 2 == 1 then some (flags / 65_536) else none;
  more = λ flags. flags / 2 % 2 == 1;
}

abbrev pub counted : ℕ → List ℕ
counted i = i ∷ []

pub counted-NeverRepeat : NeverRepeat counted
unfolding same_bytes
counted-NeverRepeat i j differ = ground arith

-- The connections of `mailbox` have nothing to send.
pub quiet : Sends mailbox
quiet = record { outgoing = λ conn. 0; sent = λ size conn packet e. absurd (ground arith) }

abbrev pub fresh : WorkerCore (Option (List ℕ))
fresh = start 0 1_000 5_000 (new (Spsc.new PixelWrite) 4_433)

-- The kernel has put the packet of Tests/Framing into buffer 0.
abbrev behind : List ℕ
behind = replicate (pkt_buf_size * io_uring_num_buffers - pkt_buf_size) 0

abbrev pub first : WorkerCore (Option (List ℕ))
first = record fresh { buffer_slab = packet ++ behind }

packet_size : length packet ≡ pkt_buf_size
unfolding replicate
packet_size = refl

pub first-IsSound : IsSound counted first
first-IsSound =
    let s = start-IsSound {C = Option (List ℕ)} counted 4_433 0 1_000 5_000 new-Holds in
    record {
      steady = record {
        shared = s.steady.shared;
        unused = s.steady.unused;
        quota = s.steady.quota;
        models = s.steady.models;
        ready = s.steady.ready;
      };
      pool = s.pool;
      slab =
          let behind_size =
            length-replicate {A = ℕ} (pkt_buf_size * io_uring_num_buffers - pkt_buf_size) 0 in
          omega (
            arith,
            length-append packet behind,
            packet_size,
            behind_size,
            io_uring_num_buffers_lem,
          );
    }

first_buffer : buffer_of first.buffer_slab 0 ≡ packet
first_buffer =
    subst (λ n. take n (packet ++ behind) ≡ packet) packet_size (take-length-append packet behind)

packet-IsFilled : IsFilled packet
unfolding read_le replicate
packet-IsFilled = record {
  control = packet-SaneControl;
  payload = λ payloadlen at. ground (arith, at);
}

-- The packet, and then the kernel is out of buffers.
abbrev pub batch : List Cqe
batch =
    record { user_data = 1; result = 102; flags = 3 }
    ∷ record { user_data = 1; result = 4_294_967_191; flags = 0 }
    ∷ []

pub batch-IsOfSends : IsOfSends batch first
batch-IsOfSends tagged of_send = ground (arith, of_send, bit_and_mask 8 tagged)

zero_only : (id : ℕ) → some 0 ≡ some id → id ≡ 0
zero_only id e = ground (arith, e)

pub batch-IsReceive : All (IsReceive linux first.buffer_slab) batch
batch-IsReceive = (
  (λ id tag fits selected.
      let e : id ≡ 0 = zero_only id selected in
      (
        omega (arith, e, io_uring_num_buffers_lem),
        subst IsFilled (sym (ap (buffer_of first.buffer_slab) e ∙ first_buffer)) packet-IsFilled,
      )),
  ((λ id tag fits selected. absurd (omega (arith, fits))), tt),
)

process_pending_lem_example :
    (w' : WorkerCore (Option (List ℕ))) × (process_pending_cqes linux mailbox counted batch first
      ≡ done w')
    × Progress linux mailbox counted (tags batch) (0 ∷ []) 1 first w'
process_pending_lem_example =
    process_pending_lem linux mailbox mailbox-Drains counted counted-NeverRepeat batch first
      first-IsSound batch-IsReceive batch-IsOfSends

abbrev pub statics : Canvas.Statics
statics = (publish_lem avx2 Canvas.new initial_statics-IsValid new-IsWhole).0

run_turn_lem_example :
    (w' : WorkerCore (Option (List ℕ))) × Ends linux mailbox counted statics 1_001 5_030 batch first
      w'
    × Turned linux mailbox counted Canvas.new statics batch first w'
run_turn_lem_example =
    run_turn_lem linux mailbox counted mailbox-Drains quiet counted-NeverRepeat {c = Canvas.new}
      1_001 5_030 batch first (publish_lem avx2 Canvas.new initial_statics-IsValid new-IsWhole).2
      new-IsWhole (λ new. (publish_lem avx2 Canvas.new initial_statics-IsValid new-IsWhole).5)
      first-IsSound (omega arith) batch-IsReceive batch-IsOfSends
