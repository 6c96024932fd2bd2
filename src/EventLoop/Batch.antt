-- ===== src/EventLoop/Batch.antt =====
-- `process_pending_cqes` of server/src/worker.rs over a batch of completions.
use reddit_puzzle_system_des.Base.{
  ℕ, ◌^◌, ◌≤◌, ltb, ◌==◌, ==_iff, Bool-cases, Option-cases, true, false, inl, inr, List, [], ◌∷◌,
  append-nil, bit_and, bit_and_mask, All, ◌≡◌, sym, subst, refl, arith,
}
use reddit_puzzle_system_des.Settings.{tag_incoming_udp, tag_outgoing_udp}
use reddit_puzzle_system_des.Outcome.{done}
use reddit_puzzle_system_des.Quiche.{Quiche}
use reddit_puzzle_system_des.Transport.Ids.{occurrences}
use reddit_puzzle_system_des.Transport.Incoming.{Drains}
use reddit_puzzle_system_des.EventLoop.{
  Cqueue, Cqe, WorkerCore, rearm, handle_incoming_cqe, process_one, process_pending_cqes,
}
use reddit_puzzle_system_des.EventLoop.Sound.{
  NeverRepeat, IsSound, IsReceive, tags, IsOfSends, given_of, renewed_by, given_back, renewed,
}
use reddit_puzzle_system_des.EventLoop.Progress.{
  Progress, Progress-refl, Progress-trans, foreign_tag, renewal, rearm-Progress,
}
use reddit_puzzle_system_des.EventLoop.Receive.{handle_incoming_cqe_lem}
use reddit_puzzle_system_des.Transmit.Completions.{occurrences-forget, complete_send_lem}
use reddit_puzzle_system_des.Transmit.{complete_send}

module _ (ring : Cqueue) (q : Quiche) (d : Drains q) (scids : ℕ → List ℕ)
    (apart : NeverRepeat scids) where
  open q use {Connection}

  abbrev Steps : Cqe → WorkerCore Connection → Type 0
  Steps cqe w =
      (w' : WorkerCore Connection) × (process_one ring q scids cqe w ≡ done w')
      × Progress ring q scids (cqe.user_data ∷ []) (given_of ring cqe) (renewed_by ring cqe) w w'

  -- A foreign completion does nothing, a send's frees its slot.
  send_step :
      (cqe : Cqe) (w : WorkerCore Connection)
      → IsSound scids w
      → 1 ≤ occurrences cqe.user_data w.transmitter.in_flight
      → (bit_and cqe.user_data 255 == tag_outgoing_udp) ≡ true
      → (cqe.user_data == tag_incoming_udp) ≡ false
      → Steps cqe w
  unfolding process_one
  send_step cqe w s busy of_send not_receive = (
    record w { transmitter = complete_send cqe.user_data w.transmitter },
    rw of_send refl,
    rw not_receive (record {
      sound = record {
        steady = record {
          shared = s.steady.shared;
          unused = s.steady.unused;
          quota = s.steady.quota;
          models = s.steady.models;
          ready = s.steady.ready;
        };
        pool = complete_send_lem w.transmitter cqe.user_data s.pool of_send busy;
        slab = s.slab;
      };
      slab_kept = refl;
      broadcasts = refl;
      buffers = sym (append-nil w.provided);
      receives = omega arith;
      in_flight = λ tagged _.
          omega (arith, occurrences-forget cqe.user_data tagged w.transmitter.in_flight busy);
    }),
  )

  foreign_step :
      (cqe : Cqe) (w : WorkerCore Connection)
      → IsSound scids w
      → (bit_and cqe.user_data 255 == tag_outgoing_udp) ≡ false
      → (cqe.user_data == tag_incoming_udp) ≡ false
      → Steps cqe w
  unfolding process_one
  foreign_step cqe w s not_send not_receive = (
    w,
    rw (not_send, not_receive) refl,
    rw not_receive
        (foreign_tag ring q scids cqe.user_data [] 0 w w not_send (Progress-refl ring q scids w s)),
  )

  -- A step by what it gives back and renews.
  relabel :
      (cqe : Cqe) (given : List ℕ) (n : ℕ) (w w' : WorkerCore Connection)
      → (bit_and cqe.user_data 255 == tag_outgoing_udp) ≡ false
      → given_of ring cqe ≡ given
      → renewed_by ring cqe ≡ n
      → process_one ring q scids cqe w ≡ done w'
      → Progress ring q scids [] given n w w'
      → Steps cqe w
  relabel cqe given n w w' not_send gives renews e p = (
    w',
    e,
    foreign_tag ring q scids cqe.user_data _ _ w w' not_send (
        subst (λ g. Progress ring q scids [] g (renewed_by ring cqe) w w') (sym gives)
          (subst (λ k. Progress ring q scids [] given k w w') (sym renews) p)),
  )

  -- A receive that failed, one without a buffer, and one with.
  receive_step :
      (cqe : Cqe) (w : WorkerCore Connection)
      → IsSound scids w
      → IsReceive ring w.buffer_slab cqe
      → (bit_and cqe.user_data 255 == tag_outgoing_udp) ≡ false
      → (cqe.user_data == tag_incoming_udp) ≡ true
      → Steps cqe w
  unfolding process_one handle_incoming_cqe
  receive_step cqe w s kernel not_send receive = elim (Bool-cases (ltb cqe.result (2 ^ 31))) [
    | inr failed ↦
        relabel cqe [] (renewal ring q scids cqe.flags) w (rearm ring q scids cqe.flags w) not_send
          (rw (receive, failed) refl)
          (elim (Bool-cases (ring.more cqe.flags)) [
            | inl on ↦ rw (receive, on) refl
            | inr off ↦ rw (receive, off, failed) refl
          ])
          (rw (not_send, receive, failed) refl) (rearm-Progress ring q scids cqe.flags w s)
    | inl succeeded ↦ elim (Option-cases (ring.buffer_select cqe.flags)) [
      | inl bare ↦
          relabel cqe [] 0 w w not_send (rw (receive, succeeded, bare) refl)
            (elim (Bool-cases (ring.more cqe.flags)) [
              | inl on ↦ rw (receive, on) refl
              | inr off ↦ rw (receive, off, succeeded, bare) refl
            ])
            (rw (not_send, receive, succeeded) (rw (handle_incoming_cqe, bare) refl))
            (Progress-refl ring q scids w s)
      | inr (id, selected) ↦
          let tag : cqe.user_data ≡ tag_incoming_udp =
            (==_iff cqe.user_data tag_incoming_udp).0 receive in
          let (known, filled) = kernel id tag (ground arith) selected in
          let (w', e, p) =
            handle_incoming_cqe_lem ring q d scids apart cqe.flags w id s selected known filled in
          relabel cqe (id ∷ []) (renewal ring q scids cqe.flags) w w' not_send
            (rw (receive, succeeded, selected) refl)
            (elim (Bool-cases (ring.more cqe.flags)) [
              | inl on ↦ rw (receive, on) refl
              | inr off ↦ rw (receive, off, succeeded, selected) refl
            ])
            (rw (not_send, receive, succeeded) e) p
    ]
  ]

  pub process_one_lem :
      (cqe : Cqe) (w : WorkerCore Connection)
      → IsSound scids w
      → IsReceive ring w.buffer_slab cqe
      → IsOfSends (cqe ∷ []) w
      → Steps cqe w
  process_one_lem cqe w s kernel sends =
      elim (Bool-cases (bit_and cqe.user_data 255 == tag_outgoing_udp)) [
        | inl of_send ↦
            send_step cqe w s (ground (arith, sends cqe.user_data of_send)) of_send
              (ground (arith, of_send, bit_and_mask 8 cqe.user_data))
        | inr not_send ↦ elim (Bool-cases (cqe.user_data == tag_incoming_udp)) [
          | inl receive ↦ receive_step cqe w s kernel not_send receive
          | inr foreign ↦ foreign_step cqe w s not_send foreign
        ]
      ]

  -- With random ids that do not repeat and a QUIC library that keeps the bound on a connection's
  -- received datagrams, whatever completions come in, in any order, as long as the kernel names
  -- buffers that it has filled and completes sends that are in flight, each once: processing them
  -- ends without a panic in a sound state, hands every filled buffer back to the kernel in order,
  -- renews one receive request for each that the kernel ended, but for successes without a buffer,
  -- and takes exactly the completed sends out of flight.
  pub process_pending_lem :
      (cqes : List Cqe) (w : WorkerCore Connection)
      → IsSound scids w
      → All (IsReceive ring w.buffer_slab) cqes
      → IsOfSends cqes w
      → (w' : WorkerCore Connection) × (process_pending_cqes ring q scids cqes w ≡ done w')
        × Progress ring q scids (tags cqes) (given_back ring cqes) (renewed ring cqes) w w'
  unfolding process_pending_cqes
  process_pending_lem [] w s kernel sends = (w, refl, Progress-refl ring q scids w s)
  process_pending_lem (cqe ∷ cqes) w s (here, later) sends =
      let (w₁, e₁, p₁) =
        process_one_lem cqe w s here (λ tagged of_send. omega (arith, sends tagged of_send)) in
      let (w₂, e₂, p₂) =
        process_pending_lem cqes w₁ p₁.sound
          (subst (λ slab. All (IsReceive ring slab) cqes) (sym p₁.slab_kept) later)
          (λ tagged of_send. omega (arith, sends tagged of_send, p₁.in_flight tagged of_send)) in
      (
        w₂,
        rw e₁ e₂,
        Progress-trans ring q scids (cqe.user_data ∷ []) (tags cqes) (given_of ring cqe)
            (given_back ring cqes) (renewed_by ring cqe) (renewed ring cqes) w w₁ w₂ p₁ p₂,
      )
