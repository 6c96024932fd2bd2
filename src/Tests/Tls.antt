-- ===== src/Tests/Tls.antt =====
-- The buffers of the load generator's connections against what the server sends and reads.
use reddit_puzzle_system_des.Base.{◌*◌, ◌≤◌, ◌<◌, some, arith, ◌≡◌, refl}
use reddit_puzzle_system_des.Settings.{broadcast_chunk_size, pixel_datagram_size}
use reddit_puzzle_system_des.Client.Tls.{build_optimized_config}

-- Six chunks of a broadcast fit, a seventh does not; and hundreds of pixels that wait to be sent.
buffers :
    (build_optimized_config.transport_config.datagram_receive_buffer_size ≡ some 8_192)
    × (6 * broadcast_chunk_size ≤ 8_192)
    × (8_192 < 7 * broadcast_chunk_size)
    × (200 * pixel_datagram_size
        ≤ build_optimized_config.transport_config.datagram_send_buffer_size)
unfolding build_optimized_config
buffers = (refl, omega arith, omega arith, omega arith)
