-- ===== src/Framing.antt =====
-- `Framing` of server/src/worker.rs: what the worker reads out of a receive buffer. The layouts of
-- `sockaddr_in`, `cmsghdr` and `in_pktinfo` are those of 64-bit Linux, on a little-endian machine.
pub mod Bytes
pub mod Ends
pub mod Spin
pub mod Message
use reddit_puzzle_system_des.Base.{
  ℕ, zero, suc, ◌+◌, ◌*◌, ◌-◌, ◌%◌, ◌^◌, ltb, leb, ◌==◌, ◌&&◌, if◌then◌else◌, true, false, Option,
  none, some, List, length, take, drop, get_elem?, bit_and, bit_not,
}
use reddit_puzzle_system_des.Settings.{msg_control_len}
use reddit_puzzle_system_des.Quiche.{SocketAddr, v4}
use reddit_puzzle_system_des.Outcome.{Outcome, done, panic, running, ◌>>=◌, need}
use reddit_puzzle_system_des.Framing.Bytes.{read_le, read_be}

pub record RecvMsgFrame : Type 0 where
  pub peer_addr : SocketAddr
  pub local_addr : SocketAddr
  pub payload : List ℕ

-- `size_of::<libc::sockaddr_in>()` and `size_of::<libc::cmsghdr>()`.
abbrev pub sockaddr_in_size : ℕ
sockaddr_in_size = 16

abbrev pub cmsghdr_size : ℕ
cmsghdr_size = 16

abbrev pub name_pos : ℕ
name_pos = 16

abbrev pub control_pos : ℕ
control_pos = name_pos + sockaddr_in_size

abbrev pub payload_pos : ℕ
payload_pos = control_pos + msg_control_len

abbrev pub ipproto_ip : ℕ
ipproto_ip = 0

abbrev pub ip_pktinfo : ℕ
ip_pktinfo = 8

-- 127.0.0.1
abbrev pub localhost : ℕ
localhost = 127 * 256 ^ 3 + 1

-- `Ipv4Addr::UNSPECIFIED`
abbrev pub unspecified : ℕ
unspecified = 0

-- The family takes two bytes; the port and the address are in network order.
unfoldable pub read_peer : List ℕ → ℕ → Outcome SocketAddr
read_peer buf namelen =
    if leb sockaddr_in_size namelen && leb namelen sockaddr_in_size
    then (do
      port ← need (read_be 2 buf (name_pos + 2))
      ip ← need (read_be 4 buf (name_pos + 4))
      done (v4 ip port))
    else done (v4 localhost 0)

-- `(cmsg_len as usize + 7) & !7`
unfoldable pub align : ℕ → ℕ
align cmsg_len = bit_and ((cmsg_len + 7) % 2 ^ 64) (bit_not 64 7)

-- The loop over the control messages; the address of `in_pktinfo` stands behind two other words.
unfoldable pub find_pktinfo : ℕ → List ℕ → ℕ → ℕ → Outcome ℕ
find_pktinfo zero buf cmsg_pos cmsg_end = running
find_pktinfo (suc fuel) buf cmsg_pos cmsg_end =
    elim (leb ((cmsg_pos + cmsghdr_size) % 2 ^ 64) cmsg_end) [
      | false ↦ done unspecified
      | true ↦ do
        cmsg_len ← need (read_le 8 buf cmsg_pos)
        cmsg_level ← need (read_le 4 buf (cmsg_pos + 8))
        cmsg_type ← need (read_le 4 buf (cmsg_pos + 12))
        let next = find_pktinfo fuel buf ((cmsg_pos + align cmsg_len) % 2 ^ 64) cmsg_end
        if cmsg_level == ipproto_ip && cmsg_type == ip_pktinfo
            then need (read_be 4 buf (cmsg_pos + 16 + 8))
            else next
    ]

unfoldable pub read_local : ℕ → List ℕ → ℕ → Outcome ℕ
unfolding find_pktinfo
read_local fuel buf controllen =
    if ltb 0 controllen && leb controllen msg_control_len
    then find_pktinfo fuel buf control_pos (control_pos + controllen)
    else done unspecified

-- `parse` of a `Framing` with that `local_port`.
unfoldable pub parse : ℕ → ℕ → List ℕ → Outcome RecvMsgFrame
unfolding read_peer read_local
parse fuel local_port buf = do
  namelen ← need (read_le 4 buf 0)
  controllen ← need (read_le 4 buf 4)
  payloadlen ← need (read_le 4 buf 8)
  peer_addr ← read_peer buf namelen
  local_ip ← read_local fuel buf controllen
  if leb (payload_pos + payloadlen) (length buf)
      then done (record {
        peer_addr = peer_addr;
        local_addr = v4 local_ip local_port;
        payload = take payloadlen (drop payload_pos buf);
      })
      else panic
