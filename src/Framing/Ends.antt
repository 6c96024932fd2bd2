-- ===== src/Framing/Ends.antt =====
-- When `parse` of server/src/worker.rs returns, and what it returns then.
use reddit_puzzle_system_des.Base.{
  ℕ, zero, suc, ◌+◌, ◌*◌, ◌/◌, ◌%◌, ◌^◌, ◌≤◌, ◌<◌, ltb, leb, ◌==◌, ◌&&◌, if◌then◌else◌, Bool-cases,
  true, false, inl, inr, ◌⊎◌, some, List, length, length-take, length-drop, take, drop,
  bit_and_clear, ◌≡◌, ◌∙◌, refl, arith,
}
use reddit_puzzle_system_des.Settings.{msg_control_len}
use reddit_puzzle_system_des.Quiche.{SocketAddr, v4}
use reddit_puzzle_system_des.Outcome.{Outcome, done, panic, need}
use reddit_puzzle_system_des.Framing.Bytes.{read_le, read_be, read_le_inside, read_be_inside}
use reddit_puzzle_system_des.Framing.{
  RecvMsgFrame, control_pos, payload_pos, cmsghdr_size, ipproto_ip, ip_pktinfo, unspecified,
  localhost, read_peer, align, find_pktinfo, read_local, parse,
}

align_lem : (n : ℕ) → n < 2 ^ 63 → align n ≡ (n + 7) / 8 * 8
unfolding align
align_lem n small =
    let fits : (n + 7) % 2 ^ 64 ≡ n + 7 = omega arith in
    rw fits (bit_and_clear (n + 7) (omega arith))

-- One round of the loop at a message inside the control area.
pub find_pktinfo-round :
    (fuel : ℕ) (buf : List ℕ) (pos end len level kind : ℕ)
    → leb ((pos + cmsghdr_size) % 2 ^ 64) end ≡ true
    → read_le 8 buf pos ≡ some len
    → read_le 4 buf (pos + 8) ≡ some level
    → read_le 4 buf (pos + 12) ≡ some kind
    → find_pktinfo (suc fuel) buf pos end ≡ (
        if level == ipproto_ip && kind == ip_pktinfo
        then need (read_be 4 buf (pos + 16 + 8))
        else find_pktinfo fuel buf ((pos + align len) % 2 ^ 64) end)
unfolding find_pktinfo
find_pktinfo-round fuel buf pos end len level kind inside at_len at_level at_kind =
    rw (find_pktinfo, inside, at_len, at_level, at_kind) refl

-- The control messages from a position on: the last one ends the area, or is the packet's info, or
-- announces a length that is neither 0 nor absurd, and the next message begins behind it.
pub data IsChain (buf : List ℕ) (end : ℕ) : ℕ → Type 0 where
  last : {pos : ℕ} → end < pos + cmsghdr_size → IsChain buf end pos
  info :
      {pos : ℕ}
      → read_le 4 buf (pos + 8) ≡ some ipproto_ip
      → read_le 4 buf (pos + 12) ≡ some ip_pktinfo
      → IsChain buf end pos
  next :
      {pos : ℕ} (len : ℕ)
      → read_le 8 buf pos ≡ some len
      → 1 ≤ len
      → len < 2 ^ 63
      → IsChain buf end (pos + (len + 7) / 8 * 8)
      → IsChain buf end pos

-- The control area, when the kernel announces that it filled it.
abbrev pub SaneControl : List ℕ → Type 0
SaneControl buf =
    (controllen : ℕ)
    → read_le 4 buf 4 ≡ some controllen
    → controllen ≤ msg_control_len
    → IsChain buf (control_pos + controllen) control_pos

-- The words in front of the payload are there.
abbrev pub IsRoomy : List ℕ → Type 0
IsRoomy buf = payload_pos + 12 ≤ length buf

pub read_peer_ends :
    (buf : List ℕ)
    → IsRoomy buf
    → (namelen : ℕ) → (peer : SocketAddr) × (read_peer buf namelen ≡ done peer)
unfolding read_peer
read_peer_ends buf roomy namelen = elim (Bool-cases (leb 16 namelen && leb namelen 16)) [
  | inr odd ↦ (v4 localhost 0, rw (read_peer, odd) refl)
  | inl usual ↦
      let (port, at_port) = read_be_inside 2 buf 18 (omega arith) in
      let (ip, at_ip) = read_be_inside 4 buf 20 (omega arith) in
      (v4 ip port, rw (read_peer, usual, at_port, at_ip) refl)
]

lt_cases : (m n : ℕ) → (m < n) ⊎ (n ≤ m)
lt_cases m n = elim (Bool-cases (ltb m n)) [
  | inl lower ↦ inl (ground arith)
  | inr higher ↦ inr (ground arith)
]

-- What parsing comes to for the announced length of the payload.
abbrev pub Parsed : List ℕ → ℕ → ℕ → Outcome RecvMsgFrame → Type 0
Parsed buf local_port payloadlen result =
    (payload_pos + payloadlen ≤ length buf
      → (frame : RecvMsgFrame) × (result ≡ done frame)
        × (frame.payload ≡ take payloadlen (drop payload_pos buf))
        × (length frame.payload ≡ payloadlen)
        × ((ip : ℕ) × (frame.local_addr ≡ v4 ip local_port)))
    × (length buf < payload_pos + payloadlen → result ≡ panic)

module _ (buf : List ℕ) (roomy : IsRoomy buf) where
  -- A round at a message behind which the chain goes on, or that is the packet's info.
  message_ends :
      (fuel pos end len : ℕ)
      → pos < 2 ^ 63 + 2 ^ 62
      → pos + cmsghdr_size ≤ end
      → end ≤ payload_pos
      → read_le 8 buf pos ≡ some len
      → ((level kind : ℕ)
          → read_le 4 buf (pos + 8) ≡ some level
          → read_le 4 buf (pos + 12) ≡ some kind
          → (level == ipproto_ip && kind == ip_pktinfo) ≡ false
          → (ip : ℕ) × (find_pktinfo fuel buf ((pos + align len) % 2 ^ 64) end ≡ done ip))
      → (ip : ℕ) × (find_pktinfo (suc fuel) buf pos end ≡ done ip)
  message_ends fuel pos end len high near fits at_len later =
      let inside : leb ((pos + cmsghdr_size) % 2 ^ 64) end ≡ true = ground arith in
      let (level, at_level) = read_le_inside 4 buf (pos + 8) (omega arith) in
      let (kind, at_kind) = read_le_inside 4 buf (pos + 12) (omega arith) in
      let round =
        find_pktinfo-round fuel buf pos end len level kind inside at_len at_level at_kind in
      elim (Bool-cases (level == ipproto_ip && kind == ip_pktinfo)) [
        | inl found ↦
            let (ip, at_ip) = read_be_inside 4 buf (pos + 16 + 8) (omega arith) in
            (ip, round ∙ rw (found, at_ip) refl)
        | inr other ↦
            let (ip, e) = later level kind at_level at_kind other in (ip, round ∙ rw other e)
      ]

  out_ends :
      (fuel pos end : ℕ)
      → pos < 2 ^ 63 + 2 ^ 62
      → end < pos + cmsghdr_size
      → end ≤ payload_pos
      → (ip : ℕ) × (find_pktinfo (suc fuel) buf pos end ≡ done ip)
  unfolding find_pktinfo
  out_ends fuel pos end high far fits =
      let out : leb ((pos + cmsghdr_size) % 2 ^ 64) end ≡ false = ground arith in
      (unspecified, rw (find_pktinfo, out) refl)

  find_pktinfo_ends :
      (fuel pos end : ℕ)
      → pos < 2 ^ 63 + 2 ^ 62
      → end ≤ payload_pos
      → end < pos + 8 * fuel + 8
      → IsChain buf end pos
      → (ip : ℕ) × (find_pktinfo (suc fuel) buf pos end ≡ done ip)
  find_pktinfo_ends zero pos end high fits enough chain =
      out_ends zero pos end high (omega arith) fits
  find_pktinfo_ends (suc fuel) pos end high fits enough (last far) =
      out_ends (suc fuel) pos end high far fits
  find_pktinfo_ends (suc fuel) pos end high fits enough (info at_level at_kind) =
      elim (lt_cases end (pos + cmsghdr_size)) [
        | inl far ↦ out_ends (suc fuel) pos end high far fits
        | inr near ↦
            let (len, at_len) = read_le_inside 8 buf pos (omega arith) in
            message_ends (suc fuel) pos end len high near fits at_len
              (λ level kind at_level' at_kind' other.
                absurd (ground (arith, at_level, at_level', at_kind, at_kind', other)))
      ]
  find_pktinfo_ends (suc fuel) pos end high fits enough (next len at_len positive bounded chain) =
      elim (lt_cases end (pos + cmsghdr_size)) [
        | inl far ↦ out_ends (suc fuel) pos end high far fits
        | inr near ↦
            message_ends (suc fuel) pos end len high near fits at_len
              (λ level kind at_level at_kind other.
                let behind : (pos + align len) % 2 ^ 64 ≡ pos + (len + 7) / 8 * 8 =
                  omega (arith, align_lem len bounded) in
                rw behind (
                  find_pktinfo_ends fuel (pos + (len + 7) / 8 * 8) end (omega arith) fits
                    (omega arith) chain))
      ]

  pub read_local_ends :
      (controllen : ℕ)
      → (controllen ≤ msg_control_len → IsChain buf (control_pos + controllen) control_pos)
      → (ip : ℕ) × (read_local 9 buf controllen ≡ done ip)
  unfolding read_local
  read_local_ends controllen sane =
      elim (Bool-cases (ltb 0 controllen && leb controllen msg_control_len)) [
        | inr absent ↦ (unspecified, rw (read_local, absent) refl)
        | inl present ↦
            let small : controllen ≤ msg_control_len = ground arith in
            let (ip, e) =
              find_pktinfo_ends 8 control_pos (control_pos + controllen) (omega arith) (omega arith)
                (omega arith) (sane small) in
            (ip, rw (read_local, present) e)
      ]

  -- On a buffer that is long enough for the words in front of the payload, and whose control messages,
  -- up to the packet's info or the end of the area, announce lengths that are neither 0 nor absurd,
  -- parsing ends within 9 rounds of its loop: with a frame of the announced bytes and the worker's
  -- port if the buffer holds them, else with a panic.
  pub parse_lem :
      SaneControl buf
      → (local_port payloadlen : ℕ) → read_le 4 buf 8 ≡ some payloadlen
      → Parsed buf local_port payloadlen (parse 9 local_port buf)
  unfolding parse
  parse_lem sane local_port payloadlen at_payloadlen =
      let (namelen, at_namelen) = read_le_inside 4 buf 0 (omega arith) in
      let (controllen, at_controllen) = read_le_inside 4 buf 4 (omega arith) in
      let (peer, at_peer) = read_peer_ends buf roomy namelen in
      let (ip, at_ip) = read_local_ends controllen (sane controllen at_controllen) in
      (
        (λ fits.
            let yes_fits : leb (payload_pos + payloadlen) (length buf) ≡ true = ground arith in
            (
              record {
                peer_addr = peer;
                local_addr = v4 ip local_port;
                payload = take payloadlen (drop payload_pos buf);
              },
              rw (parse, at_namelen, at_controllen, at_payloadlen, at_peer, at_ip, yes_fits) refl,
              refl,
              omega (
                arith,
                length-take payloadlen (drop payload_pos buf),
                length-drop payload_pos buf,
              ),
              (ip, refl),
            )),
        (λ short.
            let no_fit : leb (payload_pos + payloadlen) (length buf) ≡ false = ground arith in
            rw (parse, at_namelen, at_controllen, at_payloadlen, at_peer, at_ip, no_fit) refl),
      )
