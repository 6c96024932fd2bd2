-- ===== src/Quiche.antt =====
-- The QUIC library (the crate `quiche`) as the server uses it. It is not part of the repository: its
-- connections and their operations are a parameter of the models. The errors that the server ignores
-- are not seen; a failed call is `none`, and may have changed the connection.
use reddit_puzzle_system_des.Base.{ℕ, Bool, Option, List}

-- `SocketAddr`.
pub data SocketAddr : Type 0 where
  v4 : (ip port : ℕ) → SocketAddr
  v6 : SocketAddr

-- `quiche::Type`, as far as the server tells the kinds apart.
pub data PacketType : Type 0 where
  initial other : PacketType

pub record Header : Type 0 where
  pub dcid : List ℕ
  pub ty : PacketType

pub record Quiche : Type 1 where
  pub Connection : Type 0
  -- `Header::from_slice`
  pub header : List ℕ → Option Header
  -- `accept`: the server's connection id, the original one if there was a retry, and the local and
  -- the peer's address
  pub accept : List ℕ → Option (List ℕ) → SocketAddr → SocketAddr → Option Connection
  pub is_established : Connection → Bool
  pub is_closed : Connection → Bool
  -- the packet, and the addresses it came from and went to
  pub recv : Connection → List ℕ → SocketAddr → SocketAddr → Connection
  pub on_timeout : Connection → Connection
  -- into a buffer of that many bytes: the bytes of the next datagram
  pub dgram_recv : ℕ → Connection → Connection × Option (List ℕ)
  pub dgram_send : Connection → List ℕ → Connection
  -- into a buffer of that many bytes: the packet and its destination
  pub send : ℕ → Connection → Connection × Option (List ℕ × SocketAddr)
