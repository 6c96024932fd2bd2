-- ===== src/Transmit/Slots.antt =====
-- The slots of server/src/worker.rs: each is free or in flight, and one in flight is left alone.
use reddit_puzzle_system_des.Base.{
  ℕ, zero, suc, ◌+◌, ◌*◌, ◌%◌, ◌^◌, ◌≤◌, ◌<◌, ltb, if◌then◌else◌, inl, inr, Option, Option-cases,
  some, List, [], ◌∷◌, length, get_or, set, length-set, length-replicate, length-append,
  get_or-set_ne, get_elem?-eq-get_or, bit_or-shifted, All, ◌≡◌, ◌∙◌, ap, refl, arith,
}
use reddit_puzzle_system_des.Settings.{dgram_max_send_size, tx_capacity}
use reddit_puzzle_system_des.Quiche.{Quiche, SocketAddr, v4, v6}
use reddit_puzzle_system_des.Transport.{pop_last}
use reddit_puzzle_system_des.Transport.Ids.{
  one_if, occurrences, occurrences-append, occurrences-range, occurrences-pop_last,
}
use reddit_puzzle_system_des.Transmit.{
  TxItem, Transmitter, empty_item, new, user_data, give_back, submit, flush_one, flush_outgoing,
}

pub user_data-eq : (idx : ℕ) → idx < tx_capacity → user_data idx ≡ 2 + idx * 256
user_data-eq idx small =
    let fits : idx * 2 ^ 8 % 2 ^ 64 ≡ idx * 2 ^ 8 = omega arith in
    rw fits (bit_or-shifted 8 2 idx (omega arith))

-- Each slot is free or in flight, once, and the ring holds nothing else of the sends.
pub record IsPool (x : Transmitter) : Type 0 where
  pub items : length x.tx_items ≡ tx_capacity
  pub once :
      (id : ℕ)
      → occurrences id x.tx_free_indices + occurrences (2 + id * 256) x.in_flight
        ≡ (if ltb id tx_capacity then 1 else 0)

pub new-IsPool : IsPool new
unfolding new
new-IsPool = record {
  items = length-replicate tx_capacity empty_item;
  once = λ id. omega (arith, occurrences-range id tx_capacity);
}

-- What is in flight in `x` is in flight in `x'`, with the same item.
pub record Keeps (x x' : Transmitter) : Type 0 where
  pub same_item :
      (id : ℕ) (item : TxItem)
      → 1 ≤ occurrences (2 + id * 256) x.in_flight
      → get_or x'.tx_items id item ≡ get_or x.tx_items id item
  pub still : (id : ℕ) → occurrences id x.in_flight ≤ occurrences id x'.in_flight
  pub counted : length x'.in_flight + x.sqes_added ≡ length x.in_flight + x'.sqes_added

Keeps-refl : (x : Transmitter) → Keeps x x
Keeps-refl x = record {
  same_item = λ id item busy. refl;
  still = λ id. omega arith;
  counted = refl;
}

Keeps-trans : {x y z : Transmitter} → Keeps x y → Keeps y z → Keeps x z
Keeps-trans k l = record {
  same_item = λ id item busy.
      l.same_item id item (omega (arith, k.still (2 + id * 256))) ∙ k.same_item id item busy;
  still = λ id. omega (arith, k.still id, l.still id);
  counted = omega (arith, k.counted, l.counted);
}

module _ {x : Transmitter} (pool : IsPool x) (top : ℕ × List ℕ)
    (free : pop_last x.tx_free_indices ≡ some top) where
  taken : (id : ℕ) → occurrences id x.tx_free_indices ≡ occurrences id (top.1) + one_if (top.0) id
  taken id = occurrences-pop_last id x.tx_free_indices top free

  -- The slot on the top of the stack is not in flight.
  top_idle : (top.0 < tx_capacity) × (occurrences (2 + top.0 * 256) x.in_flight ≡ 0)
  top_idle = (
    ground (arith, pool.once (top.0), taken (top.0)),
    ground (arith, pool.once (top.0), taken (top.0)),
  )

  -- Another item in that slot leaves those in flight alone.
  other_item :
      (new : TxItem) (id : ℕ) (item : TxItem)
      → 1 ≤ occurrences (2 + id * 256) x.in_flight
      → get_or (set x.tx_items (top.0) new) id item ≡ get_or x.tx_items id item
  other_item new id item busy =
      let idle = top_idle.1 in
      get_or-set_ne x.tx_items (top.0) id new item (λ same.
        omega (arith, busy, idle, ap (λ (k : ℕ). occurrences (2 + k * 256) x.in_flight) same))

  give_back_lem :
      (item : TxItem)
      → IsPool (give_back (top.1) (top.0) item x) × Keeps x (give_back (top.1) (top.0) item x)
  give_back_lem item = (
    record {
      items = length-set x.tx_items (top.0) item ∙ pool.items;
      once =
          λ id. omega (arith, pool.once id, taken id, occurrences-append id (top.1) (top.0 ∷ []));
    },
    record { same_item = other_item item; still = λ id. omega arith; counted = refl },
  )

  submit_lem :
      (item : TxItem)
      → IsPool (submit (top.1) (top.0) item x) × Keeps x (submit (top.1) (top.0) item x)
  submit_lem item = (
    record {
      items = length-set x.tx_items (top.0) item ∙ pool.items;
      once = λ id. ground (
        arith,
        pool.once id,
        taken id,
        user_data-eq (top.0) top_idle.0,
        occurrences-append (2 + id * 256) x.in_flight (user_data (top.0) ∷ []),
      );
    },
    record {
      same_item = other_item item;
      still = λ id. omega (arith, occurrences-append id x.in_flight (user_data (top.0) ∷ []));
      counted = omega (arith, length-append x.in_flight (user_data (top.0) ∷ []));
    },
  )

-- What the server relies on: every packet that a connection hands out is one less to send.
pub record Sends (q : Quiche) : Type 0 where
  pub outgoing : q.Connection → ℕ
  pub sent :
      (size : ℕ) (conn : q.Connection) (packet : List ℕ × SocketAddr)
      → (q.send size conn).1 ≡ some packet
      → outgoing (q.send size conn).0 < outgoing conn

module _ (q : Quiche) (s : Sends q) where
  open q use {Connection, send}

  abbrev pub Flushed : {R : Type 0} → Transmitter → Option (R × Transmitter) → Type 0
  Flushed {R} x result =
      (r : R) × (x' : Transmitter) × (result ≡ some (r, x')) × IsPool x' × Keeps x x'

  abbrev after : Connection → Connection
  after conn = (send dgram_max_send_size conn).0

  -- One more step before a flush.
  step_before :
      {R : Type 0} {x y : Transmitter} {result result' : Option (R × Transmitter)}
      → Keeps x y
      → result' ≡ result
      → Flushed y result
      → Flushed x result'
  step_before k same (r, x', e, pool, k') = (r, x', same ∙ e, pool, Keeps-trans k k')

  flush_one_lem :
      (fuel : ℕ) (conn : Connection) {x : Transmitter}
      → IsPool x
      → s.outgoing conn < fuel
      → Flushed x (flush_one q fuel conn x)
  unfolding flush_one
  flush_one_lem zero conn pool enough = absurd (omega arith)
  flush_one_lem (suc fuel) conn {x} pool enough = elim (Option-cases (pop_last x.tx_free_indices)) [
    | inl used ↦ (conn, x, rw (flush_one, used) refl, pool, Keeps-refl x)
    | inr (top, free) ↦
        let at =
          get_elem?-eq-get_or x.tx_items (top.0) empty_item
            (omega (arith, pool.items, (top_idle pool top free).0)) in
        elim (Option-cases (send dgram_max_send_size conn).1) [
          | inl done ↦
              let (pool', k) = give_back_lem pool top free (get_or x.tx_items (top.0) empty_item) in
              (after conn, _, rw (flush_one, free, at, done) refl, pool', k)
          | inr ((bytes, v6), packet) ↦
              let item = record (get_or x.tx_items (top.0) empty_item) { buf = bytes } in
              let (pool', k) = give_back_lem pool top free item in
              step_before k (rw (flush_one, free, at, packet) refl) (
                flush_one_lem fuel (after conn) pool'
                  (omega (arith, enough, s.sent dgram_max_send_size conn (bytes, v6) packet)))
          | inr ((bytes, v4 ip port), packet) ↦
              let (pool', k) =
                submit_lem pool top free (record { buf = bytes; ip = ip; port = port }) in
              step_before k (rw (flush_one, free, at, packet) refl) (
                flush_one_lem fuel (after conn) pool' (
                  omega
                    (arith, enough, s.sent dgram_max_send_size conn (bytes, v4 ip port) packet)))
        ]
  ]

  -- Flushing returns, given more fuel than any connection has packets to send; every slot is still
  -- either free or in flight; what was in flight still is, in an item that was not overwritten; and
  -- the returned count is the number of new submissions.
  pub flush_outgoing_lem :
      (fuel : ℕ) (conns : List Connection) {x : Transmitter}
      → IsPool x
      → All (λ conn. s.outgoing conn < fuel) conns
      → Flushed x (flush_outgoing q fuel conns x)
  unfolding flush_outgoing
  flush_outgoing_lem fuel [] {x} pool enough = ([], x, refl, pool, Keeps-refl x)
  flush_outgoing_lem fuel (conn ∷ conns) {x} pool (first, others) =
      let (conn', x₁, e, pool₁, k) = flush_one_lem fuel conn pool first in
      let (conns', x₂, e', pool₂, k') = flush_outgoing_lem fuel conns pool₁ others in
      (conn' ∷ conns', x₂, rw (e, e') refl, pool₂, Keeps-trans k k')
