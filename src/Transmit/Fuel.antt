-- ===== src/Transmit/Fuel.antt =====
-- More fuel does not change what `flush_outgoing` of server/src/worker.rs returns.
use reddit_puzzle_system_des.Base.{
  ℕ, zero, suc, ◌≤◌, Option-cases, some, inl, inr, List, [], ◌∷◌, get_elem?, ◌≡◌, arith,
}
use reddit_puzzle_system_des.Settings.{dgram_max_send_size}
use reddit_puzzle_system_des.Quiche.{Quiche, v4, v6}
use reddit_puzzle_system_des.Transport.{pop_last}
use reddit_puzzle_system_des.Transmit.{Transmitter, give_back, submit, flush_one, flush_outgoing}

module _ (q : Quiche) where
  open q use {Connection, send}

  flush_one_more :
      (fuel fuel' : ℕ) (conn : Connection) (x : Transmitter) (r : Connection × Transmitter)
      → fuel ≤ fuel'
      → flush_one q fuel conn x ≡ some r
      → flush_one q fuel' conn x ≡ some r
  unfolding flush_one
  flush_one_more zero fuel' conn x r more e = cc
  flush_one_more (suc fuel) zero conn x r more e = absurd (omega (arith, more))
  flush_one_more (suc fuel) (suc fuel') conn x r more e =
      elim (Option-cases (pop_last x.tx_free_indices)) [
        | inl used ↦ ground (arith, e, used)
        | inr (top, free) ↦ elim (Option-cases (get_elem? x.tx_items (top.0))) [
          | inl out ↦ ground (arith, e, free, out)
          | inr (item, at) ↦ elim (Option-cases (send dgram_max_send_size conn).1) [
            | inl nothing ↦ ground (arith, e, free, at, nothing)
            | inr ((bytes, v6), packet) ↦ ground (
              arith,
              e,
              free,
              at,
              packet,
              flush_one_more fuel fuel' (send dgram_max_send_size conn).0
                  (give_back (top.1) (top.0) (record item { buf = bytes }) x) r
                  (omega (arith, more)),
            )
            | inr ((bytes, v4 ip port), packet) ↦ ground (
              arith,
              e,
              free,
              at,
              packet,
              flush_one_more fuel fuel' (send dgram_max_send_size conn).0
                  (submit (top.1) (top.0) (record { buf = bytes; ip = ip; port = port }) x) r
                  (omega (arith, more)),
            )
          ]
        ]
      ]

  pub flush_outgoing_more :
      (fuel fuel' : ℕ) (conns : List Connection) (x : Transmitter)
      (r : List Connection × Transmitter)
      → fuel ≤ fuel'
      → flush_outgoing q fuel conns x ≡ some r
      → flush_outgoing q fuel' conns x ≡ some r
  unfolding flush_outgoing
  flush_outgoing_more fuel fuel' [] x r more e = e
  flush_outgoing_more fuel fuel' (conn ∷ conns) x r more e =
      elim (Option-cases (flush_one q fuel conn x)) [
        | inl stuck ↦ ground (arith, e, stuck)
        | inr ((conn', x₁), first) ↦ elim (Option-cases (flush_outgoing q fuel conns x₁)) [
          | inl stuck ↦ ground (arith, e, first, stuck)
          | inr ((conns', x₂), rest) ↦ ground (
            arith,
            e,
            first,
            rest,
            flush_one_more fuel fuel' conn x (conn', x₁) more first,
            flush_outgoing_more fuel fuel' conns x₁ (conns', x₂) more rest,
          )
        ]
      ]
