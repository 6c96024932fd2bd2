-- ===== src/EventLoop/Receive.antt =====
-- `handle_incoming_cqe` of server/src/worker.rs: a buffer that the kernel filled.
use reddit_puzzle_system_des.Base.{
  ℕ, ◌+◌, ◌*◌, ◌≤◌, ◌<◌, leb, Option, none, some, true, inl, inr, List, [], ◌∷◌, ◌++◌, length,
  length-take, length-drop, drop, ◌≡◌, refl, arith,
}
use reddit_puzzle_system_des.Settings.{
  pkt_buf_size, io_uring_num_buffers, max_connections_per_worker,
}
use reddit_puzzle_system_des.Settings.Depth.{io_uring_num_buffers_lem}
use reddit_puzzle_system_des.Outcome.{done}
use reddit_puzzle_system_des.Quiche.{Quiche}
use reddit_puzzle_system_des.HashMap.{get}
use reddit_puzzle_system_des.Framing.{RecvMsgFrame, parse}
use reddit_puzzle_system_des.Framing.Bytes.{read_le_inside}
use reddit_puzzle_system_des.Framing.Ends.{parse_lem}
use reddit_puzzle_system_des.Transport.{TransportState, PixelDatagram, handle_incoming}
use reddit_puzzle_system_des.Transport.Users.{IsShared}
use reddit_puzzle_system_des.Transport.Incoming.{Drains, Handled, handle_incoming_lem}
use reddit_puzzle_system_des.Transport.Fresh.{handle_incoming-free}
use reddit_puzzle_system_des.Worker.{Admitter}
use reddit_puzzle_system_des.Worker.Admission.{Quota, Models, admit_lem}
use reddit_puzzle_system_des.EventLoop.{
  Cqueue, WorkerCore, slice, admit_answer, parse_fuel, rearm, handle_incoming_cqe,
}
use reddit_puzzle_system_des.EventLoop.Sound.{NeverRepeat, IsSound, buffer_of, IsFilled}
use reddit_puzzle_system_des.EventLoop.Progress.{Progress, renewal, rearm_after}

module _ (slab : List ℕ) (size : length slab ≡ pkt_buf_size * io_uring_num_buffers) (id : ℕ)
    (known : id < io_uring_num_buffers) where
  slice-eq : slice slab (id * pkt_buf_size) pkt_buf_size ≡ some (buffer_of slab id)
  slice-eq =
      let fits : leb (id * pkt_buf_size + pkt_buf_size) (length slab) ≡ true =
        ground (arith, size, known, io_uring_num_buffers_lem) in
      rw fits refl

  length-buffer_of : length (buffer_of slab id) ≡ pkt_buf_size
  length-buffer_of = omega (
    arith,
    size,
    known,
    io_uring_num_buffers_lem,
    length-take pkt_buf_size (drop (id * pkt_buf_size) slab),
    length-drop (id * pkt_buf_size) slab,
  )

  -- A filled buffer is parsed.
  parse_filled :
      (port : ℕ)
      → IsFilled (buffer_of slab id)
      → (frame : RecvMsgFrame) × (parse parse_fuel port (buffer_of slab id) ≡ done frame)
  parse_filled port filled =
      let (payloadlen, at) =
        read_le_inside 4 (buffer_of slab id) 8 (omega (arith, length-buffer_of)) in
      let parsed =
        parse_lem (buffer_of slab id) (omega (arith, length-buffer_of)) filled.control port
          payloadlen at in
      let (frame, e, _, _, _) =
        parsed.0 (omega (arith, length-buffer_of, filled.payload payloadlen at)) in
      (frame, e)

-- The pixels of a known user are admitted.
admit_answer_lem :
    {a : Admitter} {q : Quota} (answer : Option (ℕ × List PixelDatagram))
    → Models a q
    → ((user : ℕ) (pixels : List PixelDatagram)
        → answer ≡ some (user, pixels)
        → user < max_connections_per_worker)
    → (a' : Admitter) × (admit_answer answer a ≡ some a') × ((q' : Quota) × Models a' q')
admit_answer_lem {a} {q} none m known = (a, refl, (q, m))
admit_answer_lem (some (user, pixels)) m known =
    let (a', e, m') = admit_lem user pixels m (known user pixels refl) in (a', e, (_, m'))

module _ (ring : Cqueue) (q : Quiche) (d : Drains q) (scids : ℕ → List ℕ)
    (apart : NeverRepeat scids) where
  open q use {Connection}

  -- The state that a received packet leaves.
  abbrev received :
      TransportState Connection → Admitter → ℕ → WorkerCore Connection → WorkerCore Connection
  received t a id w = record w {
    transport = t;
    admitter = a;
    provided = w.provided ++ id ∷ [];
    draws = w.draws + 1;
  }

  received-Progress :
      (w : WorkerCore Connection) (id : ℕ) (t : TransportState Connection) (a : Admitter)
      (quota : Quota)
      → IsSound scids w
      → IsShared t
      → Models a quota
      → ((i : ℕ) → w.draws + 1 ≤ i → get (scids i) t.connections ≡ none)
      → Progress ring q scids [] (id ∷ []) 0 w (received t a id w)
  received-Progress w id t a quota s shared m unused = record {
    sound = record {
      steady = record {
        shared = shared;
        unused = unused;
        quota = quota;
        models = m;
        ready = s.steady.ready;
      };
      pool = s.pool;
      slab = s.slab;
    };
    slab_kept = refl;
    broadcasts = refl;
    buffers = refl;
    receives = omega arith;
    in_flight = λ tagged of_send. omega arith;
  }

  known_user :
      (r : TransportState Connection × Option (ℕ × List PixelDatagram))
      → Handled q r
      → (user : ℕ) (pixels : List PixelDatagram) → r.1 ≡ some (user, pixels)
      → user < max_connections_per_worker
  known_user (t, answer) (shared, outcome) user pixels e = elim outcome [
    | inl nothing ↦ absurd (cc)
    | inr (user', pixels', e', known, _) ↦ ground (arith, e, e', known)
  ]

  -- The ids that are yet to be drawn stay unused.
  still_unused :
      (w : WorkerCore Connection) (frame : RecvMsgFrame)
      (r : TransportState Connection × Option (ℕ × List PixelDatagram))
      → IsSound scids w
      → handle_incoming q (scids w.draws) frame.payload frame.peer_addr frame.local_addr w.transport
        ≡ some r
      → (i : ℕ) → w.draws + 1 ≤ i
      → get (scids i) r.0.connections ≡ none
  still_unused w frame r s e i later =
      handle_incoming-free q (scids w.draws) (scids i)
        (apart w.draws i (λ same. omega (arith, same))) w.transport
        (s.steady.unused i (omega arith)) frame.payload frame.peer_addr frame.local_addr r e

  handle_incoming_cqe-eq :
      (flags : ℕ) (w : WorkerCore Connection) (id : ℕ) (frame : RecvMsgFrame)
      (r : TransportState Connection × Option (ℕ × List PixelDatagram)) (a : Admitter)
      → ring.buffer_select flags ≡ some id
      → slice w.buffer_slab (id * pkt_buf_size) pkt_buf_size ≡ some (buffer_of w.buffer_slab id)
      → parse parse_fuel w.port (buffer_of w.buffer_slab id) ≡ done frame
      → handle_incoming q (scids w.draws) frame.payload frame.peer_addr frame.local_addr w.transport
        ≡ some r
      → admit_answer (r.1) w.admitter ≡ some a
      → handle_incoming_cqe ring q scids flags w
        ≡ done (rearm ring q scids flags (received (r.0) a id w))
  unfolding handle_incoming_cqe
  handle_incoming_cqe-eq flags w id frame r a selected at parsed handled admitted =
      rw (handle_incoming_cqe, selected, at, parsed, handled, admitted) refl

  pub handle_incoming_cqe_lem :
      (flags : ℕ) (w : WorkerCore Connection) (id : ℕ)
      → IsSound scids w
      → ring.buffer_select flags ≡ some id
      → id < io_uring_num_buffers
      → IsFilled (buffer_of w.buffer_slab id)
      → (w' : WorkerCore Connection) × (handle_incoming_cqe ring q scids flags w ≡ done w')
        × Progress ring q scids [] (id ∷ []) (renewal ring q scids flags) w w'
  handle_incoming_cqe_lem flags w id s selected known filled =
      let (frame, parsed) = parse_filled w.buffer_slab s.slab id known w.port filled in
      let (r, e, handled) =
        handle_incoming_lem q d (scids w.draws) frame.payload frame.peer_addr frame.local_addr
          s.steady.shared (s.steady.unused w.draws (omega arith)) in
      let (a, admitted, (quota, m)) =
        admit_answer_lem (r.1) s.steady.models (known_user r handled) in
      let p = received-Progress w id (r.0) a quota s (handled.0) m (still_unused w frame r s e) in
      (
        _,
        handle_incoming_cqe-eq flags w id frame r a selected
            (slice-eq w.buffer_slab s.slab id known) parsed e admitted,
        rearm_after ring q scids flags (id ∷ []) w (received (r.0) a id w) p,
      )
