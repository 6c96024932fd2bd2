-- ===== src/Transport.antt =====
-- server/src/transport.rs: the QUIC connections of one worker. The configuration is in
-- Transport/Config.
pub mod Ids
pub mod Users
pub mod Incoming
pub mod Fresh
pub mod Later
pub mod Config
use reddit_puzzle_system_des.Base.{
  ℕ, zero, suc, ◌+◌, ◌*◌, ◌==◌, if◌then◌else◌, Bool, true, false, Option, none, some, List, [], ◌∷◌,
  ◌++◌, length,
}
use reddit_puzzle_system_des.Settings.{
  dgram_max_send_size, max_connections_per_worker, quic_dgram_queue_len,
}
use reddit_puzzle_system_des.HashMap.{get, contains_key, insert, remove}
use reddit_puzzle_system_des.Quiche.{Quiche, SocketAddr, PacketType, Header, initial, other}

pub record PixelDatagram : Type 0 where
  pub x : ℕ
  pub y : ℕ
  pub color : ℕ

-- A value of the map `connections`: its triple.
pub record Entry (Connection : Type 0) : Type 0 where
  pub user_id : ℕ
  pub conn : Connection
  pub dcid : List ℕ

-- `free_user_ids` is a stack whose top is the end of the list.
pub record TransportState (Connection : Type 0) : Type 0 where
  pub connections : List (List ℕ × Entry Connection)
  pub cid_map : List (List ℕ × List ℕ)
  pub free_user_ids : List ℕ
  pub pixels_scratch : List PixelDatagram

-- `(0..n).collect()`
pub range : ℕ → List ℕ
range zero = []
range (suc n) = range n ++ n ∷ []

unfoldable pub new : (Connection : Type 0) → TransportState Connection
new Connection = record {
  connections = [];
  cid_map = [];
  free_user_ids = range max_connections_per_worker;
  pixels_scratch = [];
}

-- `Vec::pop`
unfoldable pub pop_last {ℓ} : {A : Type ℓ} → List A → Option (A × List A)
pop_last [] = none
pop_last (x ∷ xs) = elim (pop_last xs) [
  | none ↦ some (x, [])
  | some last ↦ some (last.0, x ∷ last.1)
]

-- The three fields of a datagram of `size_of::<PixelDatagram>()` bytes, packed.
unfoldable pub parse_pixel : List ℕ → Option PixelDatagram
parse_pixel (a ∷ b ∷ c ∷ d ∷ color ∷ []) =
    some (record { x = a + 256 * b; y = c + 256 * d; color = color })
parse_pixel dgram = none

-- The result of `handle_incoming` for the received pixels.
abbrev pub answer : ℕ → List PixelDatagram → Option (ℕ × List PixelDatagram)
answer user_id [] = none
answer user_id (p ∷ ps) = some (user_id, p ∷ ps)

-- The key that the map of ids gives, or the id itself.
unfoldable pub process_id : {C : Type 0} → List ℕ → TransportState C → List ℕ
unfolding get
process_id dcid t = elim (get dcid t.cid_map) [ none ↦ dcid | some id ↦ id ]

module _ (q : Quiche) where
  open q use {Connection, header, accept, is_established, is_closed, recv, dgram_recv}

  -- `none` is the error result, which leaves the state as it is.
  pub accept_connection :
      List ℕ
      → List ℕ
      → Option (List ℕ)
      → SocketAddr
      → SocketAddr
      → TransportState Connection
      → Option (TransportState Connection)
  unfolding pop_last insert
  accept_connection scid dcid odcid local peer t = elim (pop_last t.free_user_ids) [
    | none ↦ none
    | some top ↦ elim (accept scid odcid local peer) [
      | none ↦ none
      | some conn ↦ some (record t {
        free_user_ids = top.1;
        connections =
            insert scid (record { user_id = top.0; conn = conn; dcid = dcid }) t.connections;
      })
    ]
  ]

  -- `scid` is what the random generator gives.
  unfoldable pub resolve_connection_id :
      List ℕ
      → List ℕ
      → PacketType
      → SocketAddr
      → SocketAddr
      → TransportState Connection
      → TransportState Connection × Option (List ℕ)
  unfolding accept_connection process_id contains_key insert
  resolve_connection_id scid dcid ty local peer t =
      if contains_key (process_id dcid t) t.connections
      then (t, some (process_id dcid t))
      else elim ty [
        | other ↦ (t, none)
        | initial ↦ elim (accept_connection scid dcid none local peer t) [
          | none ↦ (t, none)
          | some t' ↦ (record t' { cid_map = insert dcid scid t'.cid_map }, some scid)
        ]
      ]

  -- The loop over the received datagrams: the connection and the pixels behind `scratch`. `none` is
  -- the end of the fuel.
  pub receive_loop : ℕ → Connection → List PixelDatagram → Option (Connection × List PixelDatagram)
  unfolding parse_pixel
  receive_loop zero conn scratch = none
  receive_loop (suc fuel) conn scratch =
      let received = dgram_recv dgram_max_send_size conn in
      elim (received.1) [
        | none ↦ some (received.0, scratch)
        | some dgram ↦ elim (parse_pixel dgram) [
          | none ↦ receive_loop fuel (received.0) scratch
          | some p ↦ receive_loop fuel (received.0) (scratch ++ p ∷ [])
        ]
      ]

  -- The receive queue of a connection holds at most `QUIC_DGRAM_QUEUE_LEN` datagrams.
  pub process_datagrams_internal : Connection → Option (Connection × List PixelDatagram)
  unfolding receive_loop
  process_datagrams_internal conn =
      if is_established conn
      then receive_loop (suc quic_dgram_queue_len) conn []
      else some (conn, [])

  -- The state afterwards and the user with the received pixels, if there are any.
  unfoldable pub handle_incoming :
      List ℕ
      → List ℕ
      → SocketAddr
      → SocketAddr
      → TransportState Connection
      → Option (TransportState Connection × Option (ℕ × List PixelDatagram))
  unfolding resolve_connection_id process_datagrams_internal get insert
  handle_incoming scid buf peer local t = elim (header buf) [
    | none ↦ some (t, none)
    | some hdr ↦
        let resolved = resolve_connection_id scid hdr.dcid hdr.ty local peer t in
        elim (resolved.1) [
          | none ↦ some (resolved.0, none)
          | some process_id ↦ elim (get process_id resolved.0.connections) [
            | none ↦ some (resolved.0, none)
            | some entry ↦ elim (process_datagrams_internal (recv entry.conn buf peer local)) [
              | none ↦ none
              | some done ↦ some (
                record (resolved.0) {
                  connections =
                      insert process_id (record entry { conn = done.0 }) resolved.0.connections;
                  pixels_scratch = done.1;
                },
                answer entry.user_id (done.1),
              )
            ]
          ]
        ]
  ]

  -- `retain`: the connections that stay, the user ids and the connection ids that were freed.
  pub retain :
      List (List ℕ × Entry Connection) → List (List ℕ × Entry Connection) × (List ℕ × List (List ℕ))
  retain [] = ([], ([], []))
  retain ((scid, entry) ∷ m) =
      let rest = retain m in
      if is_closed entry.conn
      then (rest.0, (entry.user_id ∷ rest.1.0, entry.dcid ∷ rest.1.1))
      else ((scid, entry) ∷ rest.0, rest.1)

  pub remove_all : List (List ℕ) → List (List ℕ × List ℕ) → List (List ℕ × List ℕ)
  remove_all [] m = m
  remove_all (dcid ∷ dcids) m = remove_all dcids (remove dcid m)

  pub cleanup_connections : TransportState Connection → TransportState Connection
  unfolding retain remove_all
  cleanup_connections t =
      let kept = retain t.connections in
      record t {
        connections = kept.0;
        cid_map = remove_all kept.1.1 t.cid_map;
        free_user_ids = t.free_user_ids ++ kept.1.0;
      }
