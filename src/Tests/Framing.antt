-- ===== src/Tests/Framing.antt =====
-- Receive buffers by hand.
use reddit_puzzle_system_des.Base.{
  ℕ, ◌+◌, ◌*◌, ◌^◌, List, [], ◌∷◌, ◌++◌, replicate, ◌≡◌, refl, arith,
}
use reddit_puzzle_system_des.Quiche.{v4}
use reddit_puzzle_system_des.Outcome.{done, running}
use reddit_puzzle_system_des.Framing.Bytes.{read_le, read_be}
use reddit_puzzle_system_des.Framing.{localhost, parse}
use reddit_puzzle_system_des.Framing.Ends.{info, SaneControl, Parsed, parse_lem}
use reddit_puzzle_system_des.Framing.Message.{message, parse-message}
use reddit_puzzle_system_des.Framing.Spin.{parse_spins}

abbrev word : ℕ → List ℕ
word n = n ∷ 0 ∷ 0 ∷ 0 ∷ []

-- 32 bytes of control messages and 6 bytes of payload, from port 8080 of 10.0.0.1: one packet info,
-- with the address 127.0.0.1, and a packet for connection 7.
abbrev pub packet : List ℕ
packet =
    word 16
    ++ word 32
    ++ word 6
    ++ word 0
    ++ (2 ∷ 0 ∷ 31 ∷ 144 ∷ 10 ∷ 0 ∷ 0 ∷ 1 ∷ [])
    ++ word 0
    ++ word 0
    ++ word 28
    ++ word 0
    ++ word 0
    ++ word 8
    ++ word 1
    ++ word 0
    ++ (127 ∷ 0 ∷ 0 ∷ 1 ∷ [])
    ++ replicate 36 0
    ++ (7 ∷ 3 ∷ 0 ∷ 4 ∷ 0 ∷ 9 ∷ [])
    ++ replicate 1_946 0

pub packet-SaneControl : SaneControl packet
unfolding read_le
packet-SaneControl controllen at small = info refl refl

parse_lem_example : Parsed packet 4433 6 (parse 9 4433 packet)
unfolding read_le replicate
parse_lem_example = parse_lem packet (omega arith) packet-SaneControl 4433 6 refl

parsed :
    parse 9 4433 packet
    ≡ done (record {
      peer_addr = v4 (10 * 256 ^ 3 + 1) 8080;
      local_addr = v4 localhost 4433;
      payload = 7 ∷ 3 ∷ 0 ∷ 4 ∷ 0 ∷ 9 ∷ [];
    })
unfolding parse read_le read_be replicate
parsed = refl

-- One control message of length 0, of the level of sockets.
abbrev stuck : List ℕ
stuck =
    word 16
    ++ word 16
    ++ word 0
    ++ word 0
    ++ replicate 16 0
    ++ word 0
    ++ word 0
    ++ word 1
    ++ word 1
    ++ replicate 80 0

parse_spins_example : parse 9 4433 stuck ≡ running
unfolding read_le replicate
parse_spins_example =
    parse_spins stuck 1 1 refl refl refl refl 9 4433 16 (omega arith) refl (omega arith)
      (omega arith)

parse-message_example :
    parse 9 4433 (message 167_772_161 8_080 3 167_772_162 2_130_706_433 (7 ∷ 8 ∷ []) (1 ∷ []))
    ≡ done (record {
      peer_addr = v4 167_772_161 8_080;
      local_addr = v4 2_130_706_433 4433;
      payload = 7 ∷ 8 ∷ [];
    })
parse-message_example =
    parse-message 167_772_161 8_080 3 167_772_162 2_130_706_433 (7 ∷ 8 ∷ []) (1 ∷ []) 4433
      (omega arith) (omega arith) (omega arith) (omega arith)
