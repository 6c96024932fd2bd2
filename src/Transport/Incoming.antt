-- ===== src/Transport/Incoming.antt =====
-- What comes in over the connections of server/src/transport.rs: `handle_incoming` and
-- `cleanup_connections` as wholes.
use reddit_puzzle_system_des.Base.{
  ℕ, zero, suc, ◌≤◌, ◌<◌, Bool-cases, inl, inr, ◌⊎◌, Option, Option-cases, none, some, List, [],
  ◌∷◌, ◌++◌, ◌≡◌, ◌≢◌, refl, arith,
}
use reddit_puzzle_system_des.Settings.{
  dgram_max_send_size, max_connections_per_worker, quic_dgram_queue_len,
}
use reddit_puzzle_system_des.HashMap.{get, insert}
use reddit_puzzle_system_des.Quiche.{Quiche, SocketAddr}
use reddit_puzzle_system_des.Transport.{
  PixelDatagram, Entry, TransportState, parse_pixel, answer, resolve_connection_id, receive_loop,
  process_datagrams_internal, handle_incoming, retain, cleanup_connections,
}
use reddit_puzzle_system_des.Transport.Ids.{
  occurrences-append, live-insert_same, live-get, live-retain,
}
use reddit_puzzle_system_des.Transport.Users.{IsShared, resolve_lem}

-- What the server relies on: a connection's queue of received datagrams is bounded by what the server
-- configured, and a datagram that was read is off it.
pub record Drains (q : Quiche) : Type 0 where
  pub pending : q.Connection → ℕ
  pub bounded : (conn : q.Connection) → pending conn ≤ quic_dgram_queue_len
  pub taken :
      (size : ℕ) (conn : q.Connection) (dgram : List ℕ)
      → (q.dgram_recv size conn).1 ≡ some dgram
      → pending (q.dgram_recv size conn).0 < pending conn

module _ (q : Quiche) where
  open q use {Connection, header, is_established, dgram_recv, recv}

  receive_loop_lem :
      (d : Drains q) (fuel : ℕ) (conn : Connection) (scratch : List PixelDatagram)
      → d.pending conn < fuel
      → (done : Connection × List PixelDatagram) × (receive_loop q fuel conn scratch ≡ some done)
  unfolding receive_loop
  receive_loop_lem d zero conn scratch enough = absurd (omega arith)
  receive_loop_lem d (suc fuel) conn scratch enough =
      elim (Option-cases (dgram_recv dgram_max_send_size conn).1) [
        | inl empty ↦
            (((dgram_recv dgram_max_send_size conn).0, scratch), rw (receive_loop, empty) refl)
        | inr (dgram, got) ↦ elim (Option-cases (parse_pixel dgram)) [
          | inl size ↦
              let (done, e) =
                receive_loop_lem d fuel (dgram_recv dgram_max_send_size conn).0 scratch
                  (omega (arith, d.taken dgram_max_send_size conn dgram got)) in
              (done, rw (receive_loop, got, size) e)
          | inr (p, pixel) ↦
              let (done, e) =
                receive_loop_lem d fuel (dgram_recv dgram_max_send_size conn).0 (scratch ++ p ∷ [])
                  (omega (arith, d.taken dgram_max_send_size conn dgram got)) in
              (done, rw (receive_loop, got, pixel) e)
        ]
      ]

  process_datagrams_lem :
      (d : Drains q) (conn : Connection)
      → (done : Connection × List PixelDatagram) × (process_datagrams_internal q conn ≡ some done)
  unfolding process_datagrams_internal
  process_datagrams_lem d conn = elim (Bool-cases (is_established conn)) [
    | inl established ↦
        let (done, e) =
          receive_loop_lem d (suc quic_dgram_queue_len) conn [] (omega (arith, d.bounded conn)) in
        (done, rw (process_datagrams_internal, established) e)
    | inr early ↦ ((conn, []), rw (process_datagrams_internal, early) refl)
  ]

  -- What a packet comes to: an intact state and nothing, or pixels of a user with a valid id.
  abbrev pub Handled : TransportState Connection × Option (ℕ × List PixelDatagram) → Type 0
  Handled r =
      IsShared (r.0)
      × ((r.1 ≡ none)
          ⊎ ((user : ℕ) × (pixels : List PixelDatagram) × (r.1 ≡ some (user, pixels))
              × (user < max_connections_per_worker)
              × (pixels ≢ [])))

  user-known :
      {t : TransportState Connection}
      → IsShared t
      → (key : List ℕ) (v : Entry Connection) → get key t.connections ≡ some v
      → v.user_id < max_connections_per_worker
  user-known {t} shared key v found =
      ground (arith, shared.once v.user_id, live-get key v t.connections found)

  answer_lem :
      (user : ℕ) (pixels : List PixelDatagram)
      → (answer user pixels ≡ none) ⊎ ((answer user pixels ≡ some (user, pixels)) × (pixels ≢ []))
  answer_lem user [] = inl refl
  answer_lem user (p ∷ ps) = inr (refl, λ e. ground arith)

  abbrev Returns : Option (TransportState Connection × Option (ℕ × List PixelDatagram)) → Type 0
  Returns result =
      (r : TransportState Connection × Option (ℕ × List PixelDatagram)) × (result ≡ some r)
      × Handled r

  -- The part of `handle_incoming` behind the lookup of the connection.
  receive_lem :
      {t : TransportState Connection} (key : List ℕ) (v : Entry Connection) (conn : Connection)
      (pixels : List PixelDatagram)
      → IsShared t
      → get key t.connections ≡ some v
      → Handled (
        record t {
          connections = insert key (record v { conn = conn }) t.connections;
          pixels_scratch = pixels;
        },
        answer v.user_id pixels,
      )
  receive_lem {t} key v conn pixels shared found = (
    record {
      once = λ id. omega (
        arith,
        shared.once id,
        live-insert_same id key (record v { conn = conn }) v t.connections found refl,
      );
    },
    elim (answer_lem v.user_id pixels) [
      | inl nothing ↦ inl nothing
      | inr (e, some_pixels) ↦
          inr (v.user_id, pixels, e, user-known shared key v found, some_pixels)
    ],
  )

  -- With a QUIC library that keeps the bound on a connection's received datagrams, when every user id
  -- below the limit is either free or that of exactly one connection, and the random id that is drawn
  -- is not that of a connection: whatever packet arrives, handling it returns; afterwards every user id
  -- below the limit is still either free or that of exactly one connection, and pixels that come out of
  -- it belong to a user with such an id.
  pub handle_incoming_lem :
      (d : Drains q) (scid buf : List ℕ) (peer local : SocketAddr) {t : TransportState Connection}
      → IsShared t
      → get scid t.connections ≡ none
      → (r : TransportState Connection × Option (ℕ × List PixelDatagram)) × (handle_incoming q scid
            buf peer local t
          ≡ some r)
        × Handled r
  unfolding handle_incoming
  handle_incoming_lem d scid buf peer local {t} shared fresh = elim (Option-cases (header buf)) [
    | inl bad ↦ ((t, none), rw (handle_incoming, bad) refl, (shared, inl refl))
    | inr (hdr, good) ↦
        let (shared', outcome) = resolve_lem q scid hdr.dcid hdr.ty local peer shared fresh in
        elim outcome [
          | inl nobody ↦ (
            ((resolve_connection_id q scid hdr.dcid hdr.ty local peer t).0, none),
            rw (handle_incoming, good, nobody) refl,
            (shared', inl refl),
          )
          | inr (key, resolved, at, (v, found)) ↦
              let (done, e) = process_datagrams_lem d (recv v.conn buf peer local) in
              (
                _,
                rw (handle_incoming, good, resolved, found, e) refl,
                receive_lem key v done.0 (done.1) shared' found,
              )
        ]
  ]

  -- Closing connections gives their ids back.
  pub cleanup_lem :
      {t : TransportState Connection} → IsShared t → IsShared (cleanup_connections q t)
  unfolding cleanup_connections
  cleanup_lem {t} shared = record {
    once = λ id. omega (
      arith,
      shared.once id,
      live-retain q id t.connections,
      occurrences-append id t.free_user_ids (retain q t.connections).1.0,
    );
  }
