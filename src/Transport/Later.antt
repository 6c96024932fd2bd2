-- ===== src/Transport/Later.antt =====
-- The packets of a client of server/src/transport.rs find its connection again.
use reddit_puzzle_system_des.Base.{
  ℕ, Bool-cases, inl, inr, Option, Option-cases, none, some, List, ◌≡◌, ◌≢◌, ◌⊎◌, ◌∙◌, sym, ap,
  subst, refl, arith, true, false,
}
use reddit_puzzle_system_des.HashMap.{
  same_bytes, same_bytes_eq, get, contains_key, insert, get-insert, get-insert_ne,
}
use reddit_puzzle_system_des.Quiche.{Quiche, SocketAddr, PacketType, initial, other}
use reddit_puzzle_system_des.Transport.{
  PixelDatagram, Entry, TransportState, pop_last, accept_connection, process_id,
  resolve_connection_id, process_datagrams_internal, handle_incoming,
}

-- The destination id stands for the key of a connection, which is that of the user.
pub record Assigned {C : Type 0} (dcid key : List ℕ) (user : ℕ) (t : TransportState C)
    : Type 0 where
  pub at : process_id dcid t ≡ key
  pub entry : Entry C
  pub found : get key t.connections ≡ some entry
  pub same_user : entry.user_id ≡ user

same_bytes_ne : (xs ys : List ℕ) → xs ≢ ys → same_bytes xs ys ≡ false
same_bytes_ne xs ys ne = elim (Bool-cases (same_bytes xs ys)) [
  | inl same ↦ absurd (ne (same_bytes_eq xs ys same))
  | inr apart ↦ apart
]

some_injective : {A : Type 0} (a b : A) → some a ≡ some b → a ≡ b
some_injective a b e = cc

-- A new value of a key of the same user.
insert-Assigned :
    {C : Type 0} (dcid key : List ℕ) (user : ℕ) (t : TransportState C) (k : List ℕ) (v w : Entry C)
    (pixels : List PixelDatagram)
    → Assigned dcid key user t
    → get k t.connections ≡ some v
    → w.user_id ≡ v.user_id
    → Assigned dcid key user
        (record t { connections = insert k w t.connections; pixels_scratch = pixels })
unfolding process_id
insert-Assigned {C = C} dcid key user t k v w pixels a known same =
    elim (Bool-cases (same_bytes k key)) [
      | inl hit ↦
          let e = same_bytes_eq k key hit in
          let v-eq : v ≡ a.entry =
            some_injective v a.entry (sym known ∙ ap (λ j. get j t.connections) e ∙ a.found) in
          record {
            at = a.at;
            entry = w;
            found =
                subst (λ j. get j (insert k w t.connections) ≡ some w) e
                  (get-insert k w t.connections);
            same_user = same ∙ ap (λ (u : Entry C). u.user_id) v-eq ∙ a.same_user;
          }
      | inr miss ↦ record {
        at = a.at;
        entry = a.entry;
        found = get-insert_ne k key w t.connections miss ∙ a.found;
        same_user = a.same_user;
      }
    ]

-- A new connection under a new key, for another destination id.
accepted-Assigned :
    {C : Type 0} (dcid key : List ℕ) (user : ℕ) (t : TransportState C) (scid other_dcid : List ℕ)
    (v : Entry C) (ids : List ℕ)
    → Assigned dcid key user t
    → get scid t.connections ≡ none
    → same_bytes other_dcid dcid ≡ false
    → Assigned dcid key user (record t {
      connections = insert scid v t.connections;
      cid_map = insert other_dcid scid t.cid_map;
      free_user_ids = ids;
    })
unfolding process_id
accepted-Assigned dcid key user t scid other_dcid v ids a fresh apart =
    let free : scid ≢ key =
      λ e. absurd (ground (arith, fresh, ap (λ j. get j t.connections) e, a.found)) in
    record {
      at = rw (process_id, get-insert_ne other_dcid dcid scid t.cid_map apart) a.at;
      entry = a.entry;
      found = get-insert_ne scid key v t.connections (same_bytes_ne scid key free) ∙ a.found;
      same_user = a.same_user;
    }

module _ (q : Quiche) where
  open q use {Connection, header, accept, recv}

  -- The state with a new connection.
  abbrev with_new :
      List ℕ
      → List ℕ
      → Entry Connection
      → List ℕ
      → TransportState Connection
      → TransportState Connection
  with_new scid dcid v ids t = record t {
    connections = insert scid v t.connections;
    cid_map = insert dcid scid t.cid_map;
    free_user_ids = ids;
  }

  -- What resolving comes to: a known connection, nothing, or a new connection.
  abbrev Resolves :
      List ℕ
      → List ℕ
      → TransportState Connection
      → TransportState Connection × Option (List ℕ)
      → Type 0
  Resolves scid dcid t r =
      ((v : Entry Connection) × (get (process_id dcid t) t.connections ≡ some v)
        × (r ≡ (t, some (process_id dcid t))))
      ⊎ ((r ≡ (t, none))
          ⊎ ((v : Entry Connection) × (ids : List ℕ) × (get (process_id dcid t) t.connections
                ≡ none)
              × (r ≡ (with_new scid dcid v ids t, some scid))))

  resolve-Resolves :
      (scid dcid : List ℕ) (ty : PacketType) (local peer : SocketAddr)
      (t : TransportState Connection)
      → Resolves scid dcid t (resolve_connection_id q scid dcid ty local peer t)
  unfolding resolve_connection_id contains_key accept_connection
  resolve-Resolves scid dcid ty local peer t =
      elim (Option-cases (get (process_id dcid t) t.connections)) [
        | inr (v, found) ↦ inl (v, found, rw (resolve_connection_id, contains_key, found) refl)
        | inl missing ↦
            elim ty
              as (λ k. Resolves scid dcid t (resolve_connection_id q scid dcid k local peer t)) [
                | other ↦ inr (inl (rw (resolve_connection_id, contains_key, missing) refl))
                | initial ↦ elim (Option-cases (pop_last t.free_user_ids)) [
                  | inl full ↦ inr (
                      inl (
                        rw (resolve_connection_id, contains_key, missing, accept_connection, full)
                          refl))
                  | inr (top, free) ↦ elim (Option-cases (accept scid none local peer)) [
                    | inl failed ↦ inr (
                        inl (
                          rw
                            (
                              resolve_connection_id, contains_key, missing, accept_connection, free,
                              failed,
                            )
                            refl))
                    | inr (conn, taken) ↦ inr (
                        inr (
                          record { user_id = top.0; conn = conn; dcid = dcid },
                          top.1,
                          missing,
                          rw
                              (
                                resolve_connection_id, contains_key, missing, accept_connection,
                                free, taken,
                              )
                              refl,
                        ))
                  ]
                ]
              ]
      ]

  -- Resolving any packet keeps the assignment.
  resolve-Assigned :
      (dcid key : List ℕ) (user : ℕ) (scid dcid' : List ℕ) (ty : PacketType)
      (local peer : SocketAddr) (t : TransportState Connection)
      → Assigned dcid key user t
      → get scid t.connections ≡ none
      → Assigned dcid key user (resolve_connection_id q scid dcid' ty local peer t).0
  resolve-Assigned dcid key user scid dcid' ty local peer t a fresh =
      elim (resolve-Resolves scid dcid' ty local peer t) [
        | inl (v, found, e) ↦ subst (λ r. Assigned dcid key user (r.0)) (sym e) a
        | inr (inl e) ↦ subst (λ r. Assigned dcid key user (r.0)) (sym e) a
        | inr (inr (v, ids, missing, e)) ↦ elim (Bool-cases (same_bytes dcid' dcid)) [
          | inl same ↦
              let there : get (process_id dcid' t) t.connections ≡ some a.entry =
                ap (λ d. get (process_id d t) t.connections) (same_bytes_eq dcid' dcid same)
                ∙ ap (λ k. get k t.connections) a.at
                ∙ a.found in
              absurd (ground (arith, there, missing))
          | inr apart ↦
              subst (λ r. Assigned dcid key user (r.0)) (sym e)
                (accepted-Assigned dcid key user t scid dcid' v ids a fresh apart)
        ]
      ]

  -- Handling any packet keeps the assignment.
  Keeps :
      List ℕ
      → List ℕ
      → ℕ
      → Option (TransportState Connection × Option (ℕ × List PixelDatagram))
      → Type 0
  Keeps dcid key user none = Unit
  Keeps dcid key user (some r) = Assigned dcid key user (r.0)

  handle_incoming-Keeps :
      (dcid key : List ℕ) (user : ℕ) (scid buf : List ℕ) (peer local : SocketAddr)
      (t : TransportState Connection)
      → Assigned dcid key user t
      → get scid t.connections ≡ none
      → Keeps dcid key user (handle_incoming q scid buf peer local t)
  unfolding handle_incoming Keeps
  handle_incoming-Keeps dcid key user scid buf peer local t a fresh =
      elim (Option-cases (header buf)) [
        | inl bad ↦ rw (handle_incoming, bad) a
        | inr (hdr, good) ↦
            let r = resolve_connection_id q scid hdr.dcid hdr.ty local peer t in
            let kept : Assigned dcid key user (r.0) =
              resolve-Assigned dcid key user scid hdr.dcid hdr.ty local peer t a fresh in
            elim (Option-cases r.1) [
              | inl nobody ↦ rw (handle_incoming, good, nobody) kept
              | inr (k, resolved) ↦ elim (Option-cases (get k r.0.connections)) [
                | inl lost ↦ rw (handle_incoming, good, resolved, lost) kept
                | inr (v, found) ↦
                    elim (Option-cases
                      (process_datagrams_internal q (recv v.conn buf peer local))) [
                        | inl endless ↦ rw (handle_incoming, good, resolved, found, endless) tt
                        | inr (done, e) ↦
                            rw (handle_incoming, good, resolved, found, e)
                              (insert-Assigned dcid key user r.0 k v (record v { conn = done.0 })
                                done.1 kept found refl)
                      ]
              ]
            ]
      ]

  -- The transport handles packets one after the other, and the random id that is drawn for each is
  -- not that of a connection.
  pub data Handles (t : TransportState Connection) : TransportState Connection → Type 0 where
    here : Handles t t
    packet :
        {u v : TransportState Connection} (scid buf : List ℕ) (peer local : SocketAddr)
        (pixels : Option (ℕ × List PixelDatagram))
        → Handles t u
        → get scid u.connections ≡ none
        → handle_incoming q scid buf peer local u ≡ some (v, pixels)
        → Handles t v

  Handles-Assigned :
      (dcid key : List ℕ) (user : ℕ) {t u : TransportState Connection}
      → Assigned dcid key user t
      → Handles t u
      → Assigned dcid key user u
  unfolding Keeps
  Handles-Assigned dcid key user a here = a
  Handles-Assigned dcid key user a (packet {u = u} scid buf peer local pixels before fresh e) =
      subst (Keeps dcid key user) e (
        handle_incoming-Keeps dcid key user scid buf peer local u
          (Handles-Assigned dcid key user a before) fresh)

  -- The connection that resolving gives is there.
  Gives : List ℕ → TransportState Connection × Option (List ℕ) → Type 0
  Gives dcid (t, none) = Unit
  Gives dcid (t, some key) = (user : ℕ) × Assigned dcid key user t

  resolve-Gives :
      (scid dcid : List ℕ) (ty : PacketType) (local peer : SocketAddr)
      (t : TransportState Connection)
      → Gives dcid (resolve_connection_id q scid dcid ty local peer t)
  unfolding Gives process_id
  resolve-Gives scid dcid ty local peer t = elim (resolve-Resolves scid dcid ty local peer t) [
    | inl (v, found, e) ↦
        subst (Gives dcid) (sym e)
          (v.user_id, record { at = refl; entry = v; found = found; same_user = refl })
    | inr (inl e) ↦ subst (Gives dcid) (sym e) tt
    | inr (inr (v, ids, missing, e)) ↦ subst (Gives dcid) (sym e) (
      v.user_id,
      record {
        at = rw (process_id, get-insert dcid scid t.cid_map) refl;
        entry = v;
        found = get-insert scid v t.connections;
        same_user = refl;
      },
    )
  ]

  found_again :
      (scid dcid key : List ℕ) (ty : PacketType) (local peer : SocketAddr) (user : ℕ)
      (u : TransportState Connection)
      → Assigned dcid key user u
      → resolve_connection_id q scid dcid ty local peer u ≡ (u, some key)
  unfolding resolve_connection_id contains_key
  found_again scid dcid key ty local peer user u b =
      let present : contains_key key u.connections ≡ true = rw (contains_key, b.found) refl in
      rw (resolve_connection_id, b.at, present) refl

  -- Once a packet was assigned to a connection, and when after that the transport has handled nothing
  -- but packets, any number of this client and of others, the random id drawn for each not being that
  -- of a connection: a packet with the same destination id, of any kind and with any random id, is
  -- assigned to the same connection, which still has the same user id, and leaves the state as it is.
  pub resolve_again :
      (t t' u : TransportState Connection) (scid scid' dcid key : List ℕ) (ty ty' : PacketType)
      (local peer local' peer' : SocketAddr)
      → resolve_connection_id q scid dcid ty local peer t ≡ (t', some key)
      → Handles t' u
      → (resolve_connection_id q scid' dcid ty' local' peer' u ≡ (u, some key))
        × ((v w : Entry Connection) × (get key t'.connections ≡ some v)
            × (get key u.connections ≡ some w)
            × (w.user_id ≡ v.user_id))
  unfolding Gives
  resolve_again t t' u scid scid' dcid key ty ty' local peer local' peer' e meanwhile =
      let (user, a) : (user : ℕ) × Assigned dcid key user t' =
        subst (Gives dcid) e (resolve-Gives scid dcid ty local peer t) in
      let b = Handles-Assigned dcid key user a meanwhile in
      (
        found_again scid' dcid key ty' local' peer' user u b,
        (a.entry, b.entry, a.found, b.found, b.same_user ∙ sym a.same_user),
      )
