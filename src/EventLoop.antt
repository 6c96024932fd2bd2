-- ===== src/EventLoop.antt =====
-- The event loop of server/src/worker.rs: `handle_incoming_cqe`, `process_pending_cqes`,
-- `maintain_connections` and the body of the loop of `run_linux`, over the parts that they call.
pub mod Connections
pub mod Sound
pub mod Progress
pub mod Receive
pub mod Batch
pub mod Steps
pub mod Output
pub mod Turn
pub mod Grows
pub mod Pushes
pub mod Start
use reddit_puzzle_system_des.Base.{
  ℕ, ◌+◌, ◌-◌, ◌*◌, ◌/◌, ◌%◌, ◌^◌, ltb, leb, ◌==◌, if◌then◌else◌, Bool, Option, none, some, List,
  [], ◌∷◌, ◌++◌, map, length, take, drop, bit_and,
}
use reddit_puzzle_system_des.Settings.{
  pkt_buf_size, io_uring_num_buffers, tag_incoming_udp, tag_outgoing_udp, conn_timeout_throttle_ms,
}
use reddit_puzzle_system_des.Outcome.{Outcome, done, panic, running, ◌>>=◌, need}
use reddit_puzzle_system_des.Canvas.{Statics}
use reddit_puzzle_system_des.Quiche.{Quiche}
use reddit_puzzle_system_des.Framing.{parse}
use reddit_puzzle_system_des.Transport.{
  PixelDatagram, TransportState, handle_incoming, cleanup_connections,
}
use reddit_puzzle_system_des.Worker.{Admitter, handle_tick, admit}
use reddit_puzzle_system_des.Broadcast.{Broadcaster, handle_broadcast}
use reddit_puzzle_system_des.Transmit.{Transmitter, flush_outgoing, complete_send}
use reddit_puzzle_system_des.EventLoop.Connections.{conns_of, put_conns}

-- What `io_uring::cqueue` reads out of a completion's flags: the id of the buffer that was filled, and
-- whether the request goes on. It is not part of the repository.
pub record Cqueue : Type 0 where
  pub buffer_select : ℕ → Option ℕ
  pub more : ℕ → Bool

-- A completion; `result` is the 32-bit pattern of an `i32`.
pub record Cqe : Type 0 where
  pub user_data : ℕ
  pub result : ℕ
  pub flags : ℕ

-- `WorkerCore` by its parts, with the locals of `run_linux` and what was submitted to the ring so far:
-- the buffers handed to the kernel and the number of receive requests. `draws` counts the random ids.
pub record WorkerCore (Connection : Type 0) : Type 0 where
  pub port : ℕ
  pub buffer_slab : List ℕ
  pub transport : TransportState Connection
  pub admitter : Admitter
  pub broadcaster : Broadcaster
  pub transmitter : Transmitter
  pub last_timeout_ms : ℕ
  pub provided : List ℕ
  pub armed : ℕ
  pub draws : ℕ

-- `&mut slab[offset..offset + len]`
abbrev pub slice : List ℕ → ℕ → ℕ → Option (List ℕ)
slice xs offset len =
    if leb (offset + len) (length xs) then some (take len (drop offset xs)) else none

-- A loop of a part that has run out of fuel.
abbrev pub ended {ℓ} : {A : Type ℓ} → Option A → Outcome A
ended none = running
ended (some a) = done a

abbrev pub admit_answer : Option (ℕ × List PixelDatagram) → Admitter → Option Admitter
admit_answer none a = some a
admit_answer (some answer) a = admit (answer.0) (answer.1) a

-- The rounds of `parse` that control messages of 64 bytes can take.
abbrev pub parse_fuel : ℕ
parse_fuel = 9

module _ (ring : Cqueue) (q : Quiche) (scids : ℕ → List ℕ) where
  open q use {Connection, on_timeout}

  -- A new receive request, when the one that was completed does not go on.
  abbrev pub rearm : ℕ → WorkerCore Connection → WorkerCore Connection
  rearm flags w = if ring.more flags then w else record w { armed = w.armed + 1 }

  pub handle_incoming_cqe : ℕ → WorkerCore Connection → Outcome (WorkerCore Connection)
  handle_incoming_cqe flags w = elim (ring.buffer_select flags) [
    | none ↦ done w
    | some buffer_id ↦ do
      buf ← need (slice w.buffer_slab (buffer_id * pkt_buf_size) pkt_buf_size)
      frame ← parse parse_fuel w.port buf
      handled ← ended (
          handle_incoming q (scids w.draws) frame.payload frame.peer_addr frame.local_addr
            w.transport)
      admitter ← need (admit_answer (handled.1) w.admitter)
      done (
          rearm flags (record w {
            transport = handled.0;
            admitter = admitter;
            provided = w.provided ++ buffer_id ∷ [];
            draws = w.draws + 1;
          }))
  ]

  -- The body of the loop over the completions. A result is not negative below `2 ^ 31`.
  pub process_one : Cqe → WorkerCore Connection → Outcome (WorkerCore Connection)
  unfolding handle_incoming_cqe
  process_one cqe w =
      if bit_and cqe.user_data 255 == tag_outgoing_udp
      then done (record w { transmitter = complete_send cqe.user_data w.transmitter })
      else if cqe.user_data == tag_incoming_udp
      then (if ltb cqe.result (2 ^ 31)
          then handle_incoming_cqe cqe.flags w
          else done (rearm cqe.flags w))
      else done w

  pub process_pending_cqes : List Cqe → WorkerCore Connection → Outcome (WorkerCore Connection)
  unfolding process_one
  process_pending_cqes [] w = done w
  process_pending_cqes (cqe ∷ cqes) w = do w' ← process_one cqe w; process_pending_cqes cqes w'

  -- The difference of two `u128`s, which wraps when the clock was set back.
  pub maintain_connections : ℕ → WorkerCore Connection → WorkerCore Connection
  maintain_connections now_ms w =
      if leb conn_timeout_throttle_ms ((now_ms + 2 ^ 128 - w.last_timeout_ms) % 2 ^ 128)
      then record w {
        transport = cleanup_connections q (record (w.transport) {
          connections =
              put_conns (map on_timeout (conns_of w.transport.connections)) w.transport.connections;
        });
        last_timeout_ms = now_ms;
      }
      else w

  -- The broadcast, over the connections of the map.
  pub broadcast_turn : Statics → WorkerCore Connection → Outcome (WorkerCore Connection)
  broadcast_turn statics w = do
    sent ← need (handle_broadcast q statics w.broadcaster (conns_of w.transport.connections))
    done (record w {
      broadcaster = sent.0;
      transport = record (w.transport) { connections = put_conns (sent.1) w.transport.connections };
    })

  pub flush_turn : ℕ → WorkerCore Connection → Outcome (WorkerCore Connection)
  flush_turn fuel w = do
    flushed ← ended (
        flush_outgoing q fuel (conns_of w.transport.connections)
          (record (w.transmitter) { sqes_added = 0 }))
    done (record w {
      transmitter = flushed.1;
      transport = record (w.transport) {
        connections = put_conns (flushed.0) w.transport.connections;
      };
    })

  pub tick_turn : ℕ → WorkerCore Connection → Outcome (WorkerCore Connection)
  tick_turn now_sec w = do
    admitter ← need (handle_tick now_sec w.admitter)
    done (record w { admitter = admitter })

  -- One turn of the loop, by the completions that it finds; `fuel` is for `flush_outgoing`. All of the
  -- completions are taken off the ring, but only the first `u16::MAX` are processed.
  pub run_turn :
      ℕ → Statics → ℕ → ℕ → List Cqe → WorkerCore Connection → Outcome (WorkerCore Connection)
  unfolding tick_turn broadcast_turn process_pending_cqes flush_turn maintain_connections
  run_turn fuel statics now_sec now_ms completions w = do
    ticked ← tick_turn now_sec w
    sent ← broadcast_turn statics ticked
    processed ← process_pending_cqes (take 65_535 completions) sent
    flushed ← flush_turn fuel processed
    done (maintain_connections now_ms flushed)
