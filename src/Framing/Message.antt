-- ===== src/Framing/Message.antt =====
-- A message as the kernel lays it out in a receive buffer, and what `parse` of
-- server/src/worker.rs reads out of it.
use reddit_puzzle_system_des.Base.{
  ℕ, ◌+◌, ◌/◌, ◌%◌, ◌^◌, ◌<◌, leb, true, some, List, ◌∷◌, ◌++◌, length, length-append, take, drop,
  take-length-append, ◌≡◌, ap, ap₂, refl, arith,
}
use reddit_puzzle_system_des.Quiche.{v4}
use reddit_puzzle_system_des.Outcome.{done}
use reddit_puzzle_system_des.Framing.Bytes.{read_le, read_be}
use reddit_puzzle_system_des.Framing.{payload_pos, read_peer, find_pktinfo, read_local, parse}

-- Four bytes, the lowest first and the highest first.
abbrev low_first : ℕ → List ℕ → List ℕ
low_first n rest = n % 256 ∷ n / 256 % 256 ∷ n / 65_536 % 256 ∷ n / 16_777_216 ∷ rest

abbrev high_first : ℕ → List ℕ → List ℕ
high_first n rest = n / 16_777_216 ∷ n / 65_536 % 256 ∷ n / 256 % 256 ∷ n % 256 ∷ rest

-- A peer's name: `AF_INET`, the port and the address in network order, and padding.
abbrev name_of : ℕ → ℕ → List ℕ → List ℕ
name_of ip port rest =
    2 ∷ 0 ∷ port / 256 ∷ port % 256 ∷ high_first ip (low_first 0 (low_first 0 rest))

-- One control message, of 28 bytes: the packet's info, with the index of the interface, the address
-- that the packet was routed to and the one in its header; and padding up to 64 bytes.
abbrev control_of : ℕ → ℕ → ℕ → List ℕ → List ℕ
control_of interface routed ip rest = low_first 28 (
    low_first 0 (
      low_first 0 (
        low_first 8 (
          low_first interface (
            high_first routed (
              high_first ip (
                low_first 0 (
                  low_first 0 (
                    low_first 0 (
                      low_first 0 (
                        low_first 0
                          (low_first 0 (low_first 0 (low_first 0 (low_first 0 rest)))))))))))))))

-- `io_uring_recvmsg_out` with the lengths, the name, the control messages, the payload, and what the
-- buffer held behind it.
abbrev pub message : (ip port interface routed local : ℕ) (payload behind : List ℕ) → List ℕ
message ip port interface routed local payload behind = low_first 16 (
    low_first 32 (
      low_first (length payload)
        (low_first 0 (name_of ip port (control_of interface routed local (payload ++ behind))))))

module _ (ip port interface routed local : ℕ) (payload behind : List ℕ) where
  abbrev buf : List ℕ
  buf = message ip port interface routed local payload behind

  at_namelen : read_le 4 buf 0 ≡ some 16
  unfolding read_le
  at_namelen = refl

  at_controllen : read_le 4 buf 4 ≡ some 32
  unfolding read_le
  at_controllen = refl

  at_payloadlen : length payload < 2 ^ 32 → read_le 4 buf 8 ≡ some (length payload)
  unfolding read_le
  at_payloadlen small = ap some (omega (arith, small))

  peer-eq : ip < 2 ^ 32 → port < 2 ^ 16 → read_peer buf 16 ≡ done (v4 ip port)
  unfolding read_peer read_be
  peer-eq small_ip small_port =
      ap₂ (λ (a b : ℕ). done (v4 a b)) (omega (arith, small_ip)) (omega (arith, small_port))

  local-eq : local < 2 ^ 32 → read_local 9 buf 32 ≡ done local
  unfolding read_local find_pktinfo read_le read_be
  local-eq small = ap done (omega (arith, small))

  payload-eq : take (length payload) (drop payload_pos buf) ≡ payload
  payload-eq = take-length-append payload behind

  -- With addresses and a length of the payload that fit 32 bits and a port that fits 16, what the
  -- kernel lays out in a buffer is what parsing gives back, whatever the buffer held behind it: the
  -- peer's address and port, the worker's port at the address in the packet's info, and the payload.
  pub parse-message :
      (local_port : ℕ)
      → ip < 2 ^ 32
      → port < 2 ^ 16
      → local < 2 ^ 32
      → length payload < 2 ^ 32
      → parse 9 local_port (message ip port interface routed local payload behind)
        ≡ done
            (record { peer_addr = v4 ip port; local_addr = v4 local local_port; payload = payload })
  unfolding parse
  parse-message local_port small_ip small_port small_local small =
      let fits : leb (payload_pos + length payload) (length buf) ≡ true =
        ground (arith, length-append payload behind) in
      rw
        (
          parse,
          at_namelen,
          at_controllen,
          at_payloadlen small,
          peer-eq small_ip small_port,
          local-eq small_local,
          fits,
          payload-eq,
        )
        refl
