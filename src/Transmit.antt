-- ===== src/Transmit.antt =====
-- The transmit slots of server/src/worker.rs: `flush_outgoing` and the part of
-- `process_pending_cqes` that takes the slots back. A submission that does not fit is submitted and
-- pushed again, so the ring takes every one: it is the list of the `user_data` in flight.
pub mod Slots
pub mod Completions
pub mod Fuel
use reddit_puzzle_system_des.Base.{
  ℕ, zero, suc, ◌+◌, ◌*◌, ◌/◌, ◌%◌, ◌^◌, ◌==◌, if◌then◌else◌, Option, none, some, List, [], ◌∷◌,
  ◌++◌, get_elem?, set, replicate, bit_and, bit_or, ◌>>=◌,
}
use reddit_puzzle_system_des.Settings.{dgram_max_send_size, tag_outgoing_udp, tx_capacity}
use reddit_puzzle_system_des.Quiche.{Quiche, SocketAddr, v4, v6}
use reddit_puzzle_system_des.Transport.{pop_last, range}

-- `TxItem`: the buffer with the bytes that count, and the address.
pub record TxItem : Type 0 where
  pub buf : List ℕ
  pub ip : ℕ
  pub port : ℕ

-- The fields of `WorkerCore` for sending, and the submissions in flight.
pub record Transmitter : Type 0 where
  pub tx_items : List TxItem
  pub tx_free_indices : List ℕ
  pub in_flight : List ℕ
  pub sqes_added : ℕ

-- The slots of `WorkerCore::new`: zeroed items, every index free.
pub empty_item : TxItem
empty_item = record { buf = []; ip = 0; port = 0 }

pub new : Transmitter
new = record {
  tx_items = replicate tx_capacity empty_item;
  tx_free_indices = range tx_capacity;
  in_flight = [];
  sqes_added = 0;
}

-- `TAG_OUTGOING_UDP | ((idx as u64) << 8)`
abbrev pub user_data : ℕ → ℕ
user_data idx = bit_or tag_outgoing_udp (idx * 2 ^ 8 % 2 ^ 64)

-- An item that could not go out, with its slot free again; and one that did.
abbrev pub give_back : List ℕ → ℕ → TxItem → Transmitter → Transmitter
give_back rest idx item x = record x {
  tx_free_indices = rest ++ idx ∷ [];
  tx_items = set x.tx_items idx item;
}

abbrev pub submit : List ℕ → ℕ → TxItem → Transmitter → Transmitter
submit rest idx item x = record x {
  tx_free_indices = rest;
  tx_items = set x.tx_items idx item;
  in_flight = x.in_flight ++ user_data idx ∷ [];
  sqes_added = x.sqes_added + 1;
}

module _ (q : Quiche) where
  open q use {Connection, send}

  -- The inner loop for one connection. `none` is the end of the fuel or an index out of range.
  pub flush_one : ℕ → Connection → Transmitter → Option (Connection × Transmitter)
  unfolding pop_last
  flush_one zero conn x = none
  flush_one (suc fuel) conn x = elim (pop_last x.tx_free_indices) [
    | none ↦ some (conn, x)
    | some top ↦ elim (get_elem? x.tx_items (top.0)) [
      | none ↦ none
      | some item ↦
          let sent = send dgram_max_send_size conn in
          elim (sent.1) [
            | none ↦ some (sent.0, give_back (top.1) (top.0) item x)
            | some packet ↦ elim (packet.1) [
              | v6 ↦
                  flush_one fuel (sent.0)
                    (give_back (top.1) (top.0) (record item { buf = packet.0 }) x)
              | v4 ip port ↦
                  flush_one fuel (sent.0)
                    (submit (top.1) (top.0) (record { buf = packet.0; ip = ip; port = port }) x)
            ]
          ]
    ]
  ]

  -- The loop over the connections.
  unfoldable pub flush_outgoing :
      ℕ → List Connection → Transmitter → Option (List Connection × Transmitter)
  unfolding flush_one
  flush_outgoing fuel [] x = some ([], x)
  flush_outgoing fuel (conn ∷ conns) x = do
    first ← flush_one fuel conn x
    rest ← flush_outgoing fuel conns first.1
    some (first.0 ∷ rest.0, rest.1)

-- The completions of sends in `process_pending_cqes`, by their `user_data`.
unfoldable pub recycle : List ℕ → List ℕ → List ℕ
recycle [] free = free
recycle (tagged ∷ completed) free =
    recycle completed
      (if bit_and tagged 255 == tag_outgoing_udp then free ++ (tagged / 2 ^ 8) ∷ [] else free)

-- What is in flight after a completion.
unfoldable pub forget : ℕ → List ℕ → List ℕ
forget tagged [] = []
forget tagged (sent ∷ in_flight) =
    let rest = forget tagged in_flight in if sent == tagged then in_flight else sent ∷ rest

-- A slot is free again, and its send no longer in flight.
abbrev pub complete_send : ℕ → Transmitter → Transmitter
complete_send tagged x = record x {
  tx_free_indices = x.tx_free_indices ++ (tagged / 2 ^ 8) ∷ [];
  in_flight = forget tagged x.in_flight;
}
