-- ===== src/Settings.antt =====
-- server/src/const_settings.rs: the constants that the other parts use, under their own names, and the
-- memory budget. The ones that are derived by a computation are functions of what they are derived
-- from, applied to the configured value. The initial capacity of a vector stays out.
pub mod Depth
mod Tests
use reddit_puzzle_system_des.Base.{
  ℕ, zero, suc, ◌+◌, ◌-◌, ◌*◌, ◌/◌, ◌%◌, ◌^◌, ltb, ◌==◌, if◌then◌else◌, Option, none, some,
}

-- Network and transport.
abbrev pub server_port : ℕ
server_port = 4433

abbrev pub pkt_buf_size : ℕ
pkt_buf_size = 2048

abbrev pub dgram_max_send_size : ℕ
dgram_max_send_size = 1500

abbrev pub socket_recv_buf_size : ℕ
socket_recv_buf_size = 32 * 1024 * 1024

abbrev pub socket_send_buf_size : ℕ
socket_send_buf_size = 32 * 1024 * 1024

-- Connections of one worker.
abbrev pub max_connections_per_worker : ℕ
max_connections_per_worker = 65_536

abbrev pub pixel_datagram_size : ℕ
pixel_datagram_size = 5

abbrev pub diff_entry_size : ℕ
diff_entry_size = 5

-- Broadcasting.
abbrev pub broadcast_chunk_size : ℕ
broadcast_chunk_size = 1200

abbrev pub broadcast_interval_ms : ℕ
broadcast_interval_ms = 100

abbrev pub full_broadcast_interval : ℕ
full_broadcast_interval = 60

-- `size_of::<u64>() * 8`.
abbrev pub bits_per_cooldown_chunk : ℕ
bits_per_cooldown_chunk = 8 * 8

abbrev pub cooldown_array_len : ℕ
cooldown_array_len = max_connections_per_worker / bits_per_cooldown_chunk

abbrev pub timing_wheel_ticks : ℕ
timing_wheel_ticks = 300

-- io_uring. The number of buffers is capped at `u16::MAX`.
pub num_buffers : ℕ → ℕ → ℕ
num_buffers recv_buf_size buf_size =
    let derived = recv_buf_size / buf_size in if ltb 65_535 derived then 65_535 else derived

abbrev pub io_uring_num_buffers : ℕ
unfolding num_buffers
io_uring_num_buffers = num_buffers socket_recv_buf_size pkt_buf_size

-- `leading_zeros` of a word of `w` bits.
pub leading_zeros : ℕ → ℕ → ℕ
leading_zeros zero x = 0
leading_zeros (suc w) x = if x / 2 ^ w == 0 then suc (leading_zeros w x) else 0

-- `1u32 << (u32::BITS - ((target as u32) - 1).leading_zeros())`: the cast keeps the low 32 bits, and
-- `none` is the overflow of the subtraction or of the shift.
pub next_power_of_two : ℕ → Option ℕ
unfolding leading_zeros
next_power_of_two target =
    let word = target % 2 ^ 32 in
    let shift = 32 - leading_zeros 32 (word - 1) in
    if word == 0 then none else if ltb shift 32 then some (2 ^ shift) else none

pub io_uring_sq_depth : Option ℕ
unfolding next_power_of_two
io_uring_sq_depth = next_power_of_two (max_connections_per_worker / 2)

abbrev pub io_uring_bgid : ℕ
io_uring_bgid = 0

abbrev pub tag_incoming_udp : ℕ
tag_incoming_udp = 1

abbrev pub tag_outgoing_udp : ℕ
tag_outgoing_udp = 2

abbrev pub tx_capacity : ℕ
tx_capacity = max_connections_per_worker

abbrev pub msg_control_len : ℕ
msg_control_len = 64

-- What a received packet takes of its buffer, by an estimate.
abbrev pub est_quic_overhead : ℕ
est_quic_overhead = 40

abbrev pub est_incoming_buf_usage : ℕ
est_incoming_buf_usage = 16 + 16 + msg_control_len + est_quic_overhead + pixel_datagram_size

-- Canvas.
abbrev pub canvas_width : ℕ
canvas_width = 1000

abbrev pub canvas_height : ℕ
canvas_height = 1000

abbrev pub canvas_size : ℕ
canvas_size = canvas_width * canvas_height

abbrev pub canvas_buffer_pool_size : ℕ
canvas_buffer_pool_size = 16

abbrev pub canvas_buffer_pool_mask : ℕ
canvas_buffer_pool_mask = canvas_buffer_pool_size - 1

-- The queue from a worker to the master.
abbrev pub spsc_capacity : ℕ
spsc_capacity = 65_536

abbrev pub master_batch_drain : ℕ
master_batch_drain = 4096

-- QUIC.
abbrev pub quic_initial_max_data : ℕ
quic_initial_max_data = 10_000_000

abbrev pub quic_initial_max_stream_data_bidi_local : ℕ
quic_initial_max_stream_data_bidi_local = 1_000_000

abbrev pub quic_initial_max_stream_data_bidi_remote : ℕ
quic_initial_max_stream_data_bidi_remote = 1_000_000

abbrev pub quic_initial_max_stream_data_uni : ℕ
quic_initial_max_stream_data_uni = 1_000_000

abbrev pub quic_initial_max_streams_bidi : ℕ
quic_initial_max_streams_bidi = 100

abbrev pub quic_initial_max_streams_uni : ℕ
quic_initial_max_streams_uni = 100

abbrev pub quic_dgram_queue_len : ℕ
quic_dgram_queue_len = 1000

abbrev pub conn_timeout_throttle_ms : ℕ
conn_timeout_throttle_ms = 20

-- The memory budget.
abbrev pub mem_buffer_slab : ℕ
unfolding num_buffers
mem_buffer_slab = io_uring_num_buffers * pkt_buf_size

abbrev pub mem_tx_items : ℕ
mem_tx_items = tx_capacity * (dgram_max_send_size + 88)

abbrev pub mem_cooldown : ℕ
mem_cooldown = cooldown_array_len * 8

abbrev pub mem_timing_wheel : ℕ
mem_timing_wheel = timing_wheel_ticks * mem_cooldown

abbrev pub mem_canvas_copy : ℕ
mem_canvas_copy = canvas_size

pub mem_per_worker : ℕ
unfolding num_buffers
mem_per_worker = mem_buffer_slab + mem_tx_items + mem_cooldown + mem_timing_wheel + mem_canvas_copy

abbrev pub mem_canvas_pool : ℕ
mem_canvas_pool = canvas_buffer_pool_size * canvas_size * 3

-- The total that `print_mem_footprint` reports.
pub total_est : ℕ → ℕ
total_est num_workers = mem_per_worker * num_workers + mem_canvas_pool
