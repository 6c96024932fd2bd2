-- ===== src/Transport/Users.antt =====
-- The user ids that server/src/transport.rs hands out: every id is free or belongs to exactly one
-- connection.
use reddit_puzzle_system_des.Base.{
  ℕ, ◌+◌, ltb, if◌then◌else◌, inl, inr, ◌⊎◌, Option, Option-cases, none, some, List, ◌≡◌, sym,
  subst, refl, arith,
}
use reddit_puzzle_system_des.Settings.{max_connections_per_worker}
use reddit_puzzle_system_des.HashMap.{get, contains_key, insert, get-insert}
use reddit_puzzle_system_des.Quiche.{Quiche, SocketAddr, PacketType, initial, other}
use reddit_puzzle_system_des.Transport.{
  Entry, TransportState, new, pop_last, accept_connection, process_id, resolve_connection_id,
}
use reddit_puzzle_system_des.Transport.Ids.{
  occurrences, live, occurrences-range, occurrences-pop_last, live-insert_fresh,
}

-- Each id below the limit is once on the free stack or in the map, and no other id is in either.
pub record IsShared {C : Type 0} (t : TransportState C) : Type 0 where
  pub once :
      (id : ℕ)
      → occurrences id t.free_user_ids + live id t.connections
        ≡ (if ltb id max_connections_per_worker then 1 else 0)

pub new-IsShared : (C : Type 0) → IsShared (new C)
unfolding new
new-IsShared C = record {
  once = λ id. omega (arith, occurrences-range id max_connections_per_worker);
}

module _ (q : Quiche) where
  open q use {Connection, header, accept, is_established, dgram_recv, recv}

  -- What accepting comes to: an error when no id is free or the library refuses, or a new entry.
  abbrev pub Accepted :
      List ℕ → TransportState Connection → Option (TransportState Connection) → Type 0
  Accepted scid t result =
      (result ≡ none)
      ⊎ ((t' : TransportState Connection) × (result ≡ some t')
          × IsShared t'
          × ((v : Entry Connection) × (get scid t'.connections ≡ some v)))

  pub accept_lem :
      (scid dcid : List ℕ) (odcid : Option (List ℕ)) (local peer : SocketAddr)
      {t : TransportState Connection}
      → IsShared t
      → get scid t.connections ≡ none
      → Accepted scid t (accept_connection q scid dcid odcid local peer t)
  unfolding accept_connection
  accept_lem scid dcid odcid local peer {t} shared fresh =
      elim (Option-cases (pop_last t.free_user_ids)) [
        | inl full ↦ inl (rw (accept_connection, full) refl)
        | inr (top, free) ↦ elim (Option-cases (accept scid odcid local peer)) [
          | inl failed ↦ inl (rw (accept_connection, free, failed) refl)
          | inr (conn, accepted) ↦ inr (
            record t {
              free_user_ids = top.1;
              connections =
                  insert scid (record { user_id = top.0; conn = conn; dcid = dcid }) t.connections;
            },
            rw (accept_connection, free, accepted) refl,
            record {
              once = λ id. omega (
                arith,
                shared.once id,
                occurrences-pop_last id t.free_user_ids top free,
                live-insert_fresh id scid (record { user_id = top.0; conn = conn; dcid = dcid })
                    t.connections fresh,
              );
            },
            (
              record { user_id = top.0; conn = conn; dcid = dcid },
              get-insert scid (record { user_id = top.0; conn = conn; dcid = dcid }) t.connections,
            ),
          )
        ]
      ]

  -- After resolving, the id that was found is that of a connection, and the ids are still shared out.
  abbrev pub Resolved : List ℕ → TransportState Connection × Option (List ℕ) → Type 0
  Resolved dcid r =
      IsShared (r.0)
      × ((r.1 ≡ none)
          ⊎ ((key : List ℕ) × (r.1 ≡ some key)
              × (process_id dcid (r.0) ≡ key)
              × ((v : Entry Connection) × (get key r.0.connections ≡ some v))))

  process_id-insert :
      (dcid scid : List ℕ) (t : TransportState Connection)
      → process_id dcid (record t { cid_map = insert dcid scid t.cid_map }) ≡ scid
  unfolding process_id
  process_id-insert dcid scid t = rw (process_id, get-insert dcid scid t.cid_map) refl

  pub resolve_lem :
      (scid dcid : List ℕ) (ty : PacketType) (local peer : SocketAddr)
      {t : TransportState Connection}
      → IsShared t
      → get scid t.connections ≡ none
      → Resolved dcid (resolve_connection_id q scid dcid ty local peer t)
  unfolding resolve_connection_id contains_key
  resolve_lem scid dcid ty local peer {t} shared fresh =
      elim (Option-cases (get (process_id dcid t) t.connections)) [
        | inr (v, found) ↦
            let e : resolve_connection_id q scid dcid ty local peer t
                ≡ (t, some (process_id dcid t)) =
              rw (resolve_connection_id, contains_key, found) refl in
            subst (Resolved dcid) (sym e) (shared, inr (process_id dcid t, refl, refl, (v, found)))
        | inl missing ↦
            elim ty as (λ k. Resolved dcid (resolve_connection_id q scid dcid k local peer t)) [
              | other ↦
                  let e : resolve_connection_id q scid dcid other local peer t ≡ (t, none) =
                    rw (resolve_connection_id, contains_key, missing) refl in
                  subst (Resolved dcid) (sym e) (shared, inl refl)
              | initial ↦ elim (accept_lem scid dcid none local peer shared fresh) [
                | inl refused ↦
                    let e : resolve_connection_id q scid dcid initial local peer t ≡ (t, none) =
                      rw (resolve_connection_id, contains_key, missing, refused) refl in
                    subst (Resolved dcid) (sym e) (shared, inl refl)
                | inr (t', accepted, shared', known) ↦
                    let e : resolve_connection_id q scid dcid initial local peer t
                        ≡ (record t' { cid_map = insert dcid scid t'.cid_map }, some scid) =
                      rw (resolve_connection_id, contains_key, missing, accepted) refl in
                    subst (Resolved dcid) (sym e) (
                      record { once = shared'.once },
                      inr (scid, refl, process_id-insert dcid scid t', known),
                    )
              ]
            ]
      ]
