-- ===== src/EventLoop/Pushes.antt =====
-- The ring buffer of a worker over a turn of the loop of `run_linux` in server/src/worker.rs.
use reddit_puzzle_system_des.Base.{
  ℕ, leb, ◌==◌, ltb, ◌^◌, Bool-cases, inl, inr, ◌⊎◌, Option, Option-cases, none, some, List, [],
  ◌∷◌, take, bit_and, ◌≡◌, ◌∙◌, ap, sym, subst, refl, arith, ◌-◌, ◌+◌, ◌*◌, ◌%◌,
}
use reddit_puzzle_system_des.Settings.{
  pkt_buf_size, tag_incoming_udp, tag_outgoing_udp, conn_timeout_throttle_ms,
}
use reddit_puzzle_system_des.Outcome.{Outcome, done, panic, running}
use reddit_puzzle_system_des.Canvas.{Statics}
use reddit_puzzle_system_des.Quiche.{Quiche}
use reddit_puzzle_system_des.Framing.{parse}
use reddit_puzzle_system_des.Transport.{PixelDatagram, handle_incoming}
use reddit_puzzle_system_des.Worker.{Admitter, handle_tick}
use reddit_puzzle_system_des.Broadcast.{handle_broadcast}
use reddit_puzzle_system_des.Transmit.{flush_outgoing}
use reddit_puzzle_system_des.EventLoop.Connections.{conns_of}
use reddit_puzzle_system_des.EventLoop.{
  Cqueue, Cqe, WorkerCore, slice, ended, admit_answer, parse_fuel, rearm, handle_incoming_cqe,
  process_one, process_pending_cqes, maintain_connections, broadcast_turn, flush_turn, tick_turn,
  run_turn,
}
use reddit_puzzle_system_des.EventLoop.Grows.{
  Pushes, Grows-same, Grows-trans, admit-Pushes, handle_tick-Pushes,
}

Outcome-cases {ℓ} :
    {A : Type ℓ} (o : Outcome A) → ((a : A) × (o ≡ done a)) ⊎ ((o ≡ panic) ⊎ (o ≡ running))
Outcome-cases (done a) = inl (a, refl)
Outcome-cases panic = inr (inl refl)
Outcome-cases running = inr (inr refl)

answer-Pushes :
    (answer : Option (ℕ × List PixelDatagram)) (a a' : Admitter)
    → admit_answer answer a ≡ some a'
    → Pushes a a'
answer-Pushes none a a' e =
    let same : a ≡ a' = ground (arith, e) in subst (Pushes a) same (Grows-same a.master_queue)
answer-Pushes (some (user, pixels)) a a' e = admit-Pushes user pixels a a' e

module _ (ring : Cqueue) (q : Quiche) (scids : ℕ → List ℕ) where
  open q use {Connection}

  abbrev pub WorkerPushes : WorkerCore Connection → WorkerCore Connection → Type 0
  WorkerPushes w w' = Pushes w.admitter w'.admitter

  same-WorkerPushes : (w w' : WorkerCore Connection) → w.admitter ≡ w'.admitter → WorkerPushes w w'
  same-WorkerPushes w w' e = subst (Pushes w.admitter) e (Grows-same w.admitter.master_queue)

  rearm-admitter :
      (flags : ℕ) (w : WorkerCore Connection) → (rearm ring q scids flags w).admitter ≡ w.admitter
  rearm-admitter flags w = elim (Bool-cases (ring.more flags)) [
    | inl more ↦ rw more refl
    | inr ended ↦ rw ended refl
  ]

  tick_turn-Pushes :
      (now_sec : ℕ) (w w' : WorkerCore Connection)
      → tick_turn ring q scids now_sec w ≡ done w'
      → WorkerPushes w w'
  unfolding tick_turn
  tick_turn-Pushes now_sec w w' e = elim (Option-cases (handle_tick now_sec w.admitter)) [
    | inl stuck ↦ absurd (ground (arith, e, stuck))
    | inr (a, ticked) ↦
        let same : a ≡ w'.admitter = ground (arith, e, ticked) in
        subst (Pushes w.admitter) same (handle_tick-Pushes now_sec w.admitter a ticked)
  ]

  broadcast_turn-Pushes :
      (statics : Statics) (w w' : WorkerCore Connection)
      → broadcast_turn ring q scids statics w ≡ done w'
      → WorkerPushes w w'
  unfolding broadcast_turn
  broadcast_turn-Pushes statics w w' e =
      elim (Option-cases
        (handle_broadcast q statics w.broadcaster (conns_of w.transport.connections))) [
          | inl stuck ↦ absurd (ground (arith, e, stuck))
          | inr (sent, h) ↦ same-WorkerPushes w w' (ground (arith, e, h))
        ]

  flush_turn-Pushes :
      (fuel : ℕ) (w w' : WorkerCore Connection)
      → flush_turn ring q scids fuel w ≡ done w'
      → WorkerPushes w w'
  unfolding flush_turn
  flush_turn-Pushes fuel w w' e =
      elim (Option-cases (
        flush_outgoing q fuel (conns_of w.transport.connections)
          (record (w.transmitter) { sqes_added = 0 }))) [
            | inl stuck ↦ absurd (ground (arith, e, stuck))
            | inr (flushed, h) ↦ same-WorkerPushes w w' (ground (arith, e, h))
          ]

  maintain-admitter :
      (now_ms : ℕ) (w : WorkerCore Connection)
      → w.admitter ≡ (maintain_connections ring q scids now_ms w).admitter
  unfolding maintain_connections
  maintain-admitter now_ms w =
      elim (Bool-cases
        (leb conn_timeout_throttle_ms ((now_ms + 2 ^ 128 - w.last_timeout_ms) % 2 ^ 128))) [
          | inl due ↦ rw due refl
          | inr early ↦ rw early refl
        ]

  handle_incoming_cqe-Pushes :
      (flags : ℕ) (w w' : WorkerCore Connection)
      → handle_incoming_cqe ring q scids flags w ≡ done w'
      → WorkerPushes w w'
  unfolding handle_incoming_cqe
  handle_incoming_cqe-Pushes flags w w' e = elim (Option-cases (ring.buffer_select flags)) [
    | inl no_buffer ↦ same-WorkerPushes w w' (ground (arith, e, no_buffer))
    | inr (id, selected) ↦
        elim (Option-cases (slice w.buffer_slab (id * pkt_buf_size) pkt_buf_size)) [
          | inl stuck ↦ absurd (ground (arith, e, selected, stuck))
          | inr (buf, cut) ↦ elim (Outcome-cases (parse parse_fuel w.port buf)) [
            | inr (inl stuck) ↦ absurd (ground (arith, e, selected, cut, stuck))
            | inr (inr stuck) ↦ absurd (ground (arith, e, selected, cut, stuck))
            | inl (frame, parsed) ↦
                elim (Option-cases (
                  handle_incoming q (scids w.draws) frame.payload frame.peer_addr frame.local_addr
                    w.transport)) [
                      | inl stuck ↦ absurd (ground (arith, e, selected, cut, parsed, stuck))
                      | inr (handled, came) ↦
                          elim (Option-cases (admit_answer handled.1 w.admitter)) [
                            | inl stuck ↦
                                absurd (ground (arith, e, selected, cut, parsed, came, stuck))
                            | inr (a, admitted) ↦
                                let same : a ≡ w'.admitter = elim (Bool-cases (ring.more flags)) [
                                  | inl more ↦
                                      ground (arith, e, selected, cut, parsed, came, admitted, more)
                                  | inr last ↦
                                      ground (arith, e, selected, cut, parsed, came, admitted, last)
                                ] in
                                subst (Pushes w.admitter) same
                                  (answer-Pushes (handled.1) w.admitter a admitted)
                          ]
                    ]
          ]
        ]
  ]

  process_one-Pushes :
      (cqe : Cqe) (w w' : WorkerCore Connection)
      → process_one ring q scids cqe w ≡ done w'
      → WorkerPushes w w'
  unfolding process_one
  process_one-Pushes cqe w w' e =
      elim (Bool-cases (bit_and cqe.user_data 255 == tag_outgoing_udp)) [
        | inl sent ↦ same-WorkerPushes w w' (ground (arith, e, sent))
        | inr not_sent ↦ elim (Bool-cases (cqe.user_data == tag_incoming_udp)) [
          | inr foreign ↦ same-WorkerPushes w w' (ground (arith, e, not_sent, foreign))
          | inl received ↦ elim (Bool-cases (ltb cqe.result (2 ^ 31))) [
            | inl good ↦
                handle_incoming_cqe-Pushes cqe.flags w w'
                  (ground (arith, e, not_sent, received, good))
            | inr failed ↦
                same-WorkerPushes w w'
                  (sym (rearm-admitter cqe.flags w) ∙ ground (arith, e, not_sent, received, failed))
          ]
        ]
      ]

  process_pending-Pushes :
      (cqes : List Cqe) (w w' : WorkerCore Connection)
      → process_pending_cqes ring q scids cqes w ≡ done w'
      → WorkerPushes w w'
  unfolding process_pending_cqes
  process_pending-Pushes [] w w' e = same-WorkerPushes w w' (ground (arith, e))
  process_pending-Pushes (cqe ∷ cqes) w w' e =
      elim (Outcome-cases (process_one ring q scids cqe w)) [
        | inr (inl stuck) ↦ absurd (ground (arith, e, stuck))
        | inr (inr stuck) ↦ absurd (ground (arith, e, stuck))
        | inl (w₁, first) ↦
            Grows-trans (process_one-Pushes cqe w w₁ first)
              (process_pending-Pushes cqes w₁ w' (ground (arith, e, first)))
      ]

  -- A turn that returns has only pushed into the worker's ring buffer.
  pub run_turn-Pushes :
      (fuel : ℕ) (statics : Statics) (now_sec now_ms : ℕ) (cqes : List Cqe)
      (w w' : WorkerCore Connection)
      → run_turn ring q scids fuel statics now_sec now_ms cqes w ≡ done w'
      → WorkerPushes w w'
  unfolding run_turn
  run_turn-Pushes fuel statics now_sec now_ms cqes w w' e =
      elim (Outcome-cases (tick_turn ring q scids now_sec w)) [
        | inr (inl stuck) ↦ absurd (ground (arith, e, stuck))
        | inr (inr stuck) ↦ absurd (ground (arith, e, stuck))
        | inl (w₁, ticked) ↦ elim (Outcome-cases (broadcast_turn ring q scids statics w₁)) [
          | inr (inl stuck) ↦ absurd (ground (arith, e, ticked, stuck))
          | inr (inr stuck) ↦ absurd (ground (arith, e, ticked, stuck))
          | inl (w₂, told) ↦
              elim (Outcome-cases (process_pending_cqes ring q scids (take 65_535 cqes) w₂)) [
                | inr (inl stuck) ↦ absurd (ground (arith, e, ticked, told, stuck))
                | inr (inr stuck) ↦ absurd (ground (arith, e, ticked, told, stuck))
                | inl (w₃, handled) ↦ elim (Outcome-cases (flush_turn ring q scids fuel w₃)) [
                  | inr (inl stuck) ↦ absurd (ground (arith, e, ticked, told, handled, stuck))
                  | inr (inr stuck) ↦ absurd (ground (arith, e, ticked, told, handled, stuck))
                  | inl (w₄, flushed) ↦
                      let last : maintain_connections ring q scids now_ms w₄ ≡ w' =
                        ground (arith, e, ticked, told, handled, flushed) in
                      Grows-trans (tick_turn-Pushes now_sec w w₁ ticked) (
                        Grows-trans (broadcast_turn-Pushes statics w₁ w₂ told) (
                          Grows-trans (process_pending-Pushes (take 65_535 cqes) w₂ w₃ handled) (
                            Grows-trans (flush_turn-Pushes fuel w₃ w₄ flushed) (
                              same-WorkerPushes w₄ w' (
                                maintain-admitter now_ms w₄
                                ∙ ap (λ (u : WorkerCore Connection). u.admitter) last)))))
                ]
              ]
        ]
      ]
