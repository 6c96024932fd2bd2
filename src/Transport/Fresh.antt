-- ===== src/Transport/Fresh.antt =====
-- Connection ids that nobody has stay free in server/src/transport.rs, but for the new random one.
use reddit_puzzle_system_des.Base.{
  ℕ, Bool-cases, false, inl, inr, Option, Option-cases, none, some, List, [], ◌∷◌, ◌≡◌, refl, arith,
}
use reddit_puzzle_system_des.HashMap.{
  same_bytes, same_bytes_eq, get, contains_key, get-insert_other,
}
use reddit_puzzle_system_des.Quiche.{Quiche, SocketAddr, PacketType, initial, other}
use reddit_puzzle_system_des.Transport.{
  PixelDatagram, Entry, TransportState, pop_last, process_id, accept_connection,
  resolve_connection_id, process_datagrams_internal, handle_incoming, retain, cleanup_connections,
}

-- A key that is taken is not one that is free.
taken-free :
    {V : Type 0} (key j : List ℕ) (v : V) (m : List (List ℕ × V))
    → get key m ≡ some v
    → get j m ≡ none
    → same_bytes key j ≡ false
taken-free key j v m taken free = elim (Bool-cases (same_bytes key j)) [
  | inl hit ↦ cc (same_bytes_eq key j hit)
  | inr miss ↦ miss
]

module _ (q : Quiche) where
  open q use {Connection, header, accept, recv}

  module _ (scid j : List ℕ) (apart : same_bytes scid j ≡ false) (t : TransportState Connection)
      (free : get j t.connections ≡ none) where
    accept-free :
        (dcid : List ℕ) (odcid : Option (List ℕ)) (local peer : SocketAddr)
        (t' : TransportState Connection)
        → accept_connection q scid dcid odcid local peer t ≡ some t'
        → get j t'.connections ≡ none
    unfolding accept_connection
    accept-free dcid odcid local peer t' e = elim (Option-cases (pop_last t.free_user_ids)) [
      | inl full ↦ ground (arith, e, full)
      | inr (top, popped) ↦ elim (Option-cases (accept scid odcid local peer)) [
        | inl failed ↦ ground (arith, e, popped, failed)
        | inr (conn, accepted) ↦
            let entry : Entry Connection = record { user_id = top.0; conn = conn; dcid = dcid } in
            ground (arith, e, popped, accepted, get-insert_other scid j entry t.connections)
      ]
    ]

    resolve-free :
        (dcid : List ℕ) (ty : PacketType) (local peer : SocketAddr)
        → get j (resolve_connection_id q scid dcid ty local peer t).0.connections ≡ none
    unfolding resolve_connection_id
    resolve-free dcid ty local peer =
        elim (Bool-cases (contains_key (process_id dcid t) t.connections)) [
          | inl known ↦ ground (arith, known)
          | inr new ↦
              elim ty
                as (λ k.
                  get j (resolve_connection_id q scid dcid k local peer t).0.connections ≡ none) [
                    | other ↦ ground (arith, new)
                    | initial ↦
                        elim (Option-cases (accept_connection q scid dcid none local peer t)) [
                          | inl refused ↦ ground (arith, new, refused)
                          | inr (t', accepted) ↦
                              ground
                                (arith, new, accepted, accept-free dcid none local peer t' accepted)
                        ]
                  ]
        ]

    pub handle_incoming-free :
        (buf : List ℕ) (peer local : SocketAddr)
        (r : TransportState Connection × Option (ℕ × List PixelDatagram))
        → handle_incoming q scid buf peer local t ≡ some r
        → get j r.0.connections ≡ none
    unfolding handle_incoming
    handle_incoming-free buf peer local r e = elim (Option-cases (header buf)) [
      | inl bad ↦ ground (arith, e, bad)
      | inr (hdr, good) ↦
          let resolved = resolve_connection_id q scid hdr.dcid hdr.ty local peer t in
          let still = resolve-free hdr.dcid hdr.ty local peer in
          elim (Option-cases (resolved.1)) [
            | inl nobody ↦ ground (arith, e, good, nobody, still)
            | inr (key, at) ↦ elim (Option-cases (get key resolved.0.connections)) [
              | inl lost ↦ ground (arith, e, good, at, lost, still)
              | inr (v, found) ↦
                  elim (Option-cases (process_datagrams_internal q (recv v.conn buf peer local))) [
                    | inl stuck ↦ ground (arith, e, good, at, found, stuck)
                    | inr (end, processed) ↦ ground (
                      arith,
                      e,
                      good,
                      at,
                      found,
                      processed,
                      get-insert_other key j (record v { conn = end.0 }) resolved.0.connections
                          (taken-free key j v resolved.0.connections found still) still,
                    )
                  ]
            ]
          ]
    ]

  retain-free :
      (j : List ℕ) (m : List (List ℕ × Entry Connection))
      → get j m ≡ none
      → get j (retain q m).0 ≡ none
  unfolding get retain
  retain-free j [] free = refl
  retain-free j ((key, entry) ∷ m) free =
      ground (arith, Bool-cases (same_bytes key j), retain-free j m)

  pub cleanup-free :
      (j : List ℕ) (t : TransportState Connection)
      → get j t.connections ≡ none
      → get j (cleanup_connections q t).connections ≡ none
  unfolding cleanup_connections
  cleanup-free j t free = retain-free j t.connections free
