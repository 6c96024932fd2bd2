-- ===== src/EventLoop/Sound.antt =====
-- The invariant of the event loop of server/src/worker.rs, and what it relies on.
use reddit_puzzle_system_des.Base.{
  ℕ, ◌+◌, ◌*◌, ◌^◌, ◌≤◌, ◌<◌, ltb, ◌==◌, ◌&&◌, not, if◌then◌else◌, none, some, true, false, List,
  [], ◌∷◌, ◌++◌, map, length, take, drop, bit_and, ◌≡◌, ◌≢◌,
}
use reddit_puzzle_system_des.Settings.{
  pkt_buf_size, io_uring_num_buffers, tag_incoming_udp, tag_outgoing_udp,
}
use reddit_puzzle_system_des.HashMap.{same_bytes, get}
use reddit_puzzle_system_des.Framing.{payload_pos}
use reddit_puzzle_system_des.Framing.Bytes.{read_le}
use reddit_puzzle_system_des.Framing.Ends.{SaneControl}
use reddit_puzzle_system_des.Transport.Ids.{occurrences}
use reddit_puzzle_system_des.Transport.Users.{IsShared}
use reddit_puzzle_system_des.Worker.Admission.{Quota, Models}
use reddit_puzzle_system_des.Broadcast.Full.{Ready}
use reddit_puzzle_system_des.Transmit.Slots.{IsPool}
use reddit_puzzle_system_des.EventLoop.{Cqueue, Cqe, WorkerCore}

-- The random ids do not repeat.
abbrev pub NeverRepeat : (ℕ → List ℕ) → Type 0
NeverRepeat scids = (i j : ℕ) → i ≢ j → same_bytes (scids i) (scids j) ≡ false

-- All parts but the transmit slots, which completions change one by one.
pub record IsSteady {C : Type 0} (scids : ℕ → List ℕ) (w : WorkerCore C) : Type 0 where
  pub shared : IsShared w.transport
  pub unused : (i : ℕ) → w.draws ≤ i → get (scids i) w.transport.connections ≡ none
  pub quota : Quota
  pub models : Models w.admitter quota
  pub ready : Ready w.broadcaster

pub record IsSound {C : Type 0} (scids : ℕ → List ℕ) (w : WorkerCore C) : Type 0 where
  pub steady : IsSteady scids w
  pub pool : IsPool w.transmitter
  pub slab : length w.buffer_slab ≡ pkt_buf_size * io_uring_num_buffers

-- The buffer that a receive completion names.
abbrev pub buffer_of : List ℕ → ℕ → List ℕ
buffer_of slab id = take pkt_buf_size (drop (id * pkt_buf_size) slab)

-- What the kernel writes into a buffer: control messages of sensible lengths, up to the packet's
-- info, and a payload that the buffer holds.
pub record IsFilled (buf : List ℕ) : Type 0 where
  pub control : SaneControl buf
  pub payload :
      (payloadlen : ℕ) → read_le 4 buf 8 ≡ some payloadlen → payload_pos + payloadlen ≤ pkt_buf_size

-- The user data of the completions.
abbrev pub tags : List Cqe → List ℕ
tags cqes = map (λ (cqe : Cqe). cqe.user_data) cqes

-- The kernel completes sends that are in flight, each once.
abbrev pub IsOfSends : {C : Type 0} → List Cqe → WorkerCore C → Type 0
IsOfSends cqes w =
    (tagged : ℕ)
    → (bit_and tagged 255 == tag_outgoing_udp) ≡ true
    → occurrences tagged (tags cqes) ≤ occurrences tagged w.transmitter.in_flight

module _ (ring : Cqueue) where
  -- A completion of a receive that filled a buffer names one of the buffers.
  abbrev pub IsReceive : List ℕ → Cqe → Type 0
  IsReceive slab cqe =
      (id : ℕ)
      → cqe.user_data ≡ tag_incoming_udp
      → cqe.result < 2 ^ 31
      → ring.buffer_select cqe.flags ≡ some id
      → (id < io_uring_num_buffers) × IsFilled (buffer_of slab id)

  -- The buffer that processing hands back, and the number of receive requests that it renews: one
  -- if the completion says that its request does not go on, unless it is a success without a buffer.
  abbrev pub given_of : Cqe → List ℕ
  given_of cqe =
      if cqe.user_data == tag_incoming_udp && ltb cqe.result (2 ^ 31)
      then elim (ring.buffer_select cqe.flags) [ none ↦ [] | some id ↦ id ∷ [] ]
      else []

  abbrev pub renewed_by : Cqe → ℕ
  renewed_by cqe =
      if cqe.user_data == tag_incoming_udp && not (ring.more cqe.flags)
      then (if ltb cqe.result (2 ^ 31)
          then elim (ring.buffer_select cqe.flags) [ none ↦ 0 | some id ↦ 1 ]
          else 1)
      else 0

  abbrev pub given_back : List Cqe → List ℕ
  given_back [] = []
  given_back (cqe ∷ cqes) = given_of cqe ++ given_back cqes

  abbrev pub renewed : List Cqe → ℕ
  renewed [] = 0
  renewed (cqe ∷ cqes) = renewed_by cqe + renewed cqes
