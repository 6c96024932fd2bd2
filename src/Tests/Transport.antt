-- ===== src/Tests/Transport.antt =====
-- The transport at small inputs, over connections that hold at most one received datagram.
use reddit_puzzle_system_des.Base.{
  ℕ, ◌≤◌, ◌<◌, true, false, Option, some, none, List, [], ◌∷◌, ◌≡◌, refl, arith,
}
use reddit_puzzle_system_des.Settings.{quic_dgram_queue_len}
use reddit_puzzle_system_des.HashMap.{get}
use reddit_puzzle_system_des.Quiche.{Quiche, SocketAddr, v4, Header, initial, other}
use reddit_puzzle_system_des.Transport.{
  PixelDatagram, Entry, TransportState, range, resolve_connection_id, handle_incoming,
  cleanup_connections,
}
use reddit_puzzle_system_des.Transport
use reddit_puzzle_system_des.Transport.Ids.{pop_last-range}
use reddit_puzzle_system_des.Transport.Users.{new-IsShared}
use reddit_puzzle_system_des.Transport.Later.{resolve_again, packet, here}
use reddit_puzzle_system_des.Transport.Incoming.{Drains, Handled, handle_incoming_lem}

abbrev first_header : List ℕ → Option Header
first_header [] = none
first_header (x ∷ xs) = some (record { dcid = x ∷ []; ty = initial })

abbrev take_one : Option (List ℕ) → Option (List ℕ) × Option (List ℕ)
take_one conn = (none, conn)

abbrev rest_of : List ℕ → Option (List ℕ)
rest_of [] = none
rest_of (x ∷ xs) = some xs

abbrev pub mailbox : Quiche
mailbox = record {
  Connection = Option (List ℕ);
  header = first_header;
  accept = λ scid odcid local peer. some none;
  is_established = λ conn. true;
  is_closed = λ conn. false;
  recv = λ conn buf from to. rest_of buf;
  on_timeout = λ conn. conn;
  dgram_recv = λ size conn. take_one conn;
  dgram_send = λ conn chunk. conn;
  send = λ size conn. (conn, none);
}

abbrev count_one : Option (List ℕ) → ℕ
count_one none = 0
count_one (some dgram) = 1

count_one-le : (conn : Option (List ℕ)) → count_one conn ≤ quic_dgram_queue_len
count_one-le none = omega arith
count_one-le (some dgram) = omega arith

count_one-taken : (conn : Option (List ℕ)) (dgram : List ℕ) → conn ≡ some dgram → 0 < count_one conn
count_one-taken none dgram e = absurd (ground arith)
count_one-taken (some got) dgram e = omega arith

pub mailbox-Drains : Drains mailbox
mailbox-Drains = record {
  pending = count_one;
  bounded = count_one-le;
  taken = λ size conn dgram e. count_one-taken conn dgram e;
}

abbrev client : SocketAddr
client = v4 1 2

abbrev server : SocketAddr
server = v4 3 4

abbrev mail : List ℕ
mail = 7 ∷ 3 ∷ 0 ∷ 4 ∷ 1 ∷ 9 ∷ []

handle_incoming_lem_example :
    (r : TransportState (Option (List ℕ)) × Option (ℕ × List PixelDatagram)) × (handle_incoming
        mailbox
        (99 ∷ [])
        mail
        client
        server
        (Transport.new (Option (List ℕ)))
      ≡ some r)
    × Handled mailbox r
unfolding get Transport.new
handle_incoming_lem_example =
    handle_incoming_lem mailbox mailbox-Drains (99 ∷ []) mail client server
      (new-IsShared (Option (List ℕ))) refl

-- A state with one free id: the client of id 7 is accepted as user 5 and places a pixel.
abbrev small : TransportState (Option (List ℕ))
small = record { connections = []; cid_map = []; free_user_ids = 5 ∷ []; pixels_scratch = [] }

one_pixel :
    handle_incoming mailbox (99 ∷ []) mail client server small
    ≡ some (
      record {
        connections = (99 ∷ [], record { user_id = 5; conn = none; dcid = 7 ∷ [] }) ∷ [];
        cid_map = (7 ∷ [], 99 ∷ []) ∷ [];
        free_user_ids = [];
        pixels_scratch = record { x = 3; y = 260; color = 9 } ∷ [];
      },
      some (5, record { x = 3; y = 260; color = 9 } ∷ []),
    )
unfolding handle_incoming
one_pixel = refl

-- Two free ids: the client of id 7 is accepted as user 6, then that of id 8 as user 5, and each places
-- a pixel.
abbrev pair : TransportState (Option (List ℕ))
pair = record { connections = []; cid_map = []; free_user_ids = 5 ∷ 6 ∷ []; pixels_scratch = [] }

abbrev seven : TransportState (Option (List ℕ))
seven = record {
  connections = (99 ∷ [], record { user_id = 6; conn = none; dcid = 7 ∷ [] }) ∷ [];
  cid_map = (7 ∷ [], 99 ∷ []) ∷ [];
  free_user_ids = 5 ∷ [];
  pixels_scratch = [];
}

abbrev dot : PixelDatagram
dot = record { x = 3; y = 260; color = 9 }

abbrev both : TransportState (Option (List ℕ))
both = record {
  connections =
      (99 ∷ [], record { user_id = 6; conn = none; dcid = 7 ∷ [] })
      ∷ (98 ∷ [], record { user_id = 5; conn = none; dcid = 8 ∷ [] })
      ∷ [];
  cid_map = (7 ∷ [], 99 ∷ []) ∷ (8 ∷ [], 98 ∷ []) ∷ [];
  free_user_ids = [];
  pixels_scratch = dot ∷ [];
}

seven_resolved :
    resolve_connection_id mailbox (99 ∷ []) (7 ∷ []) initial server client pair
    ≡ (seven, some (99 ∷ []))
unfolding resolve_connection_id
seven_resolved = refl

abbrev mail_of_eight : List ℕ
mail_of_eight = 8 ∷ 3 ∷ 0 ∷ 4 ∷ 1 ∷ 9 ∷ []

eight_handled :
    handle_incoming mailbox (98 ∷ []) mail_of_eight client server seven
    ≡ some (both, some (5, dot ∷ []))
unfolding handle_incoming
eight_handled = refl

fresh : get (98 ∷ []) seven.connections ≡ none
unfolding get
fresh = refl

resolve_again_example :
    (resolve_connection_id mailbox (97 ∷ []) (7 ∷ []) other server client both
      ≡ (both, some (99 ∷ [])))
    × ((v w : Entry (Option (List ℕ))) × (get (99 ∷ []) seven.connections ≡ some v)
        × (get (99 ∷ []) both.connections ≡ some w)
        × (w.user_id ≡ v.user_id))
resolve_again_example =
    resolve_again mailbox pair seven both (99 ∷ []) (97 ∷ []) (7 ∷ []) (99 ∷ []) initial other
      server client server client seven_resolved
      (packet (98 ∷ []) mail_of_eight client server (some (5, dot ∷ [])) here fresh eight_handled)

-- A client of a new server is accepted as user 65535.
abbrev accepted : TransportState (Option (List ℕ))
accepted = record {
  connections = (99 ∷ [], record { user_id = 65_535; conn = none; dcid = 7 ∷ [] }) ∷ [];
  cid_map = (7 ∷ [], 99 ∷ []) ∷ [];
  free_user_ids = range 65_535;
  pixels_scratch = [];
}

first_packet :
    resolve_connection_id mailbox
      (99 ∷ [])
      (7 ∷ [])
      initial
      server
      client
      (Transport.new (Option (List ℕ)))
    ≡ (accepted, some (99 ∷ []))
unfolding resolve_connection_id Transport.new
first_packet = rw (resolve_connection_id, pop_last-range 65_535) refl
