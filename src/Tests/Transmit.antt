-- ===== src/Tests/Transmit.antt =====
-- The transmit slots at small inputs, over connections that are the packets they have to send.
use reddit_puzzle_system_des.Base.{
  ℕ, ◌<◌, true, false, Option, some, none, List, [], ◌∷◌, length, ◌≡◌, refl, arith,
}
use reddit_puzzle_system_des.Quiche.{Quiche, SocketAddr, v4, v6}
use reddit_puzzle_system_des.Transport.{range}
use reddit_puzzle_system_des.Transport.Ids.{occurrences-range}
use reddit_puzzle_system_des.Transmit.{
  TxItem, Transmitter, empty_item, user_data, flush_outgoing, recycle,
}
use reddit_puzzle_system_des.Transmit
use reddit_puzzle_system_des.Transmit.Slots.{IsPool, new-IsPool, Sends, Flushed, flush_outgoing_lem}

abbrev Packets : Type 0
Packets = List (List ℕ × SocketAddr)

abbrev next : Packets → Packets × Option (List ℕ × SocketAddr)
next [] = ([], none)
next (p ∷ ps) = (ps, some p)

abbrev outbox : Quiche
outbox = record {
  Connection = Packets;
  header = λ buf. none;
  accept = λ scid odcid local peer. some [];
  is_established = λ conn. true;
  is_closed = λ conn. false;
  recv = λ conn buf from to. conn;
  on_timeout = λ conn. conn;
  dgram_recv = λ size conn. (conn, none);
  dgram_send = λ conn chunk. conn;
  send = λ size conn. next conn;
}

next-shorter :
    (conn : Packets) (packet : List ℕ × SocketAddr)
    → (next conn).1 ≡ some packet
    → length (next conn).0 < length conn
next-shorter [] packet e = absurd (ground arith)
next-shorter (p ∷ ps) packet e = omega arith

abbrev outbox_sends : Sends outbox
outbox_sends = record { outgoing = length; sent = λ size conn packet e. next-shorter conn packet e }

abbrev busy : Packets
busy = (1 ∷ 2 ∷ [], v4 10 20) ∷ (3 ∷ [], v6) ∷ []

flush_outgoing_lem_example :
    Flushed outbox outbox_sends Transmit.new (flush_outgoing outbox 3 (busy ∷ [] ∷ []) Transmit.new)
flush_outgoing_lem_example =
    flush_outgoing_lem outbox outbox_sends 3 (busy ∷ [] ∷ []) new-IsPool
      (omega arith, (omega arith, tt))

-- A pool with slot 0 alone: the first packet takes it, and the second finds none.
abbrev single : Transmitter
single = record {
  tx_items = empty_item ∷ [];
  tx_free_indices = 0 ∷ [];
  in_flight = [];
  sqes_added = 0;
}

flush_single :
    flush_outgoing outbox 3 (busy ∷ [] ∷ []) single
    ≡ some (
      ((3 ∷ [], v6) ∷ []) ∷ [] ∷ [],
      record {
        tx_items = record { buf = 1 ∷ 2 ∷ []; ip = 10; port = 20 } ∷ [];
        tx_free_indices = [];
        in_flight = user_data 0 ∷ [];
        sqes_added = 1;
      },
    )
unfolding flush_outgoing
flush_single = refl

-- Slot 65535 is in flight, and its completion comes with one of the receiving side.
abbrev sending : Transmitter
sending = record Transmit.new { tx_free_indices = range 65_535; in_flight = user_data 65_535 ∷ [] }

sending-IsPool : IsPool sending
sending-IsPool = record {
  items = new-IsPool.items;
  once = λ id. ground (arith, occurrences-range id 65_535);
}
