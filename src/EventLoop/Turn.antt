-- ===== src/EventLoop/Turn.antt =====
-- One turn of the loop of `run_linux` in server/src/worker.rs.
use reddit_puzzle_system_des.Base.{
  ℕ, ◌+◌, ◌≤◌, ◌==◌, true, List, ◌++◌, length, take, take_all, bit_and, All, ◌≡◌, ◌≢◌, ◌∙◌, sym, ap,
  subst, refl, arith,
}
use reddit_puzzle_system_des.Settings.{tag_outgoing_udp}
use reddit_puzzle_system_des.Outcome.{done}
use reddit_puzzle_system_des.Canvas.{Canvas, Statics}
use reddit_puzzle_system_des.Canvas.Pixels.{IsWhole}
use reddit_puzzle_system_des.Master.Publish.{IsValid}
use reddit_puzzle_system_des.Master.Snapshot.{Shows}
use reddit_puzzle_system_des.Quiche.{Quiche}
use reddit_puzzle_system_des.Transport.Ids.{occurrences}
use reddit_puzzle_system_des.Transport.Incoming.{Drains}
use reddit_puzzle_system_des.Transmit.{Transmitter}
use reddit_puzzle_system_des.Transmit.Slots.{Sends}
use reddit_puzzle_system_des.EventLoop.{
  Cqueue, Cqe, WorkerCore, tick_turn, broadcast_turn, flush_turn, maintain_connections,
  process_pending_cqes, run_turn,
}
use reddit_puzzle_system_des.EventLoop.Connections.{conns_of}
use reddit_puzzle_system_des.EventLoop.Sound.{
  NeverRepeat, IsSound, IsReceive, tags, IsOfSends, given_back, renewed,
}
use reddit_puzzle_system_des.EventLoop.Steps.{tick_turn_lem, maintain_lem, maintain-broadcaster}
use reddit_puzzle_system_des.EventLoop.Output.{
  Tells, Tells-trans, broadcast_turn_lem, rounds, flush_turn_lem,
}
use reddit_puzzle_system_des.EventLoop.Batch.{process_pending_lem}

module _ (ring : Cqueue) (q : Quiche) (scids : ℕ → List ℕ) where
  open q use {Connection}

  -- What a turn comes to.
  pub record Turned (c : Canvas) (statics : Statics) (cqes : List Cqe)
      (w w' : WorkerCore Connection) : Type 0 where
    pub sound : IsSound scids w'
    pub slab : w'.buffer_slab ≡ w.buffer_slab
    pub provided : w'.provided ≡ w.provided ++ given_back ring cqes
    pub armed : w'.armed ≡ w.armed + renewed ring cqes
    pub tells : Tells ring q scids c statics w.broadcaster w'.broadcaster
    pub in_flight :
        (tagged : ℕ)
        → (bit_and tagged 255 == tag_outgoing_udp) ≡ true
        → occurrences tagged w.transmitter.in_flight
          ≤ occurrences tagged w'.transmitter.in_flight + occurrences tagged (tags cqes)

  -- The turn ends in `w'`, given fuel enough.
  abbrev pub Ends :
      Statics → ℕ → ℕ → List Cqe → WorkerCore Connection → WorkerCore Connection → Type 0
  Ends statics now_sec now_ms cqes w w' =
      (enough : ℕ) × ((fuel : ℕ)
        → enough ≤ fuel
        → run_turn ring q scids fuel statics now_sec now_ms cqes w ≡ done w')

  done_injective : (a b : WorkerCore Connection) → done a ≡ done b → a ≡ b
  done_injective a b e = cc

  pub Ends-unique :
      (statics : Statics) (now_sec now_ms : ℕ) (cqes : List Cqe) (w a b : WorkerCore Connection)
      → Ends statics now_sec now_ms cqes w a
      → Ends statics now_sec now_ms cqes w b
      → a ≡ b
  Ends-unique statics now_sec now_ms cqes w a b (m, to_a) (n, to_b) =
      done_injective a b (sym (to_a (m + n) (omega arith)) ∙ to_b (m + n) (omega arith))

  run_turn-eq :
      (fuel : ℕ) (statics : Statics) (now_sec now_ms : ℕ) (cqes : List Cqe)
      (w w₁ w₂ w₃ w₄ : WorkerCore Connection)
      → take 65_535 cqes ≡ cqes
      → tick_turn ring q scids now_sec w ≡ done w₁
      → broadcast_turn ring q scids statics w₁ ≡ done w₂
      → process_pending_cqes ring q scids cqes w₂ ≡ done w₃
      → flush_turn ring q scids fuel w₃ ≡ done w₄
      → run_turn ring q scids fuel statics now_sec now_ms cqes w
        ≡ done (maintain_connections ring q scids now_ms w₄)
  unfolding run_turn
  run_turn-eq fuel statics now_sec now_ms cqes w w₁ w₂ w₃ w₄ all e₁ e₂ e₃ e₄ =
      rw (e₁, e₂, all, e₃, e₄) refl

module _ (ring : Cqueue) (q : Quiche) (scids : ℕ → List ℕ) (d : Drains q) (sends : Sends q)
    (apart : NeverRepeat scids) where
  open q use {Connection}

  -- With random ids that do not repeat, and a QUIC library that keeps the bound on a connection's
  -- received datagrams and has one packet less to send after each: while the kernel names buffers
  -- that it has filled and completes sends that are in flight, each once, with at most 65535
  -- completions and well-formed statics whose active slot shows the whole canvas `c`, unless the
  -- worker has sent that slot already, a turn of the loop of a sound worker returns, with the same
  -- result for all fuel that is enough for what there is to send, and never panics, whatever the
  -- packets hold. The worker is sound again; the filled buffers are back with the kernel, receiving
  -- goes on as far as `renewed` says, no send is forgotten, and the canvas that was sent last is `c`
  -- if the active slot was a new one.
  pub run_turn_lem :
      {c : Canvas} {statics : Statics} (now_sec now_ms : ℕ) (cqes : List Cqe)
      (w : WorkerCore Connection)
      → IsValid statics
      → IsWhole c
      → (statics.active_index ≢ w.broadcaster.last_broadcast_index → Shows c statics)
      → IsSound scids w
      → length cqes ≤ 65_535
      → All (IsReceive ring w.buffer_slab) cqes
      → IsOfSends cqes w
      → (w' : WorkerCore Connection) × Ends ring q scids statics now_sec now_ms cqes w w'
        × Turned ring q scids c statics cqes w w'
  run_turn_lem {c} {statics} now_sec now_ms cqes w valid whole shows s few received kernel =
      let (w₁, e₁, calm₁, told₁) = tick_turn_lem ring q scids now_sec w s in
      let (w₂, e₂, calm₂, tells) =
        broadcast_turn_lem ring q scids {c = c} w₁ valid whole
          (subst (λ b. statics.active_index ≢ b.last_broadcast_index → Shows c statics) (sym told₁)
            shows)
          calm₁.sound in
      let transmitter = calm₂.transmitter ∙ calm₁.transmitter in
      let (w₃, e₃, p) =
        process_pending_lem ring q d scids apart cqes w₂ calm₂.sound
          (subst (λ slab. All (IsReceive ring slab) cqes) (sym (calm₂.slab ∙ calm₁.slab)) received)
          (λ tagged of_send.
            subst (λ x. occurrences tagged (tags cqes) ≤ occurrences tagged x.in_flight)
              (sym transmitter) (kernel tagged of_send)) in
      let (w₄, e₄, s₄, slab₄, provided₄, armed₄, told₄, still) =
        flush_turn_lem ring q scids sends w₃ p.sound in
      let calm₅ = maintain_lem ring q scids now_ms w₄ s₄ in
      (
        _,
        (
          rounds ring q scids sends (conns_of w₃.transport.connections),
          λ fuel more.
              run_turn-eq ring q scids fuel statics now_sec now_ms cqes w w₁ w₂ w₃ w₄
                (take_all 65_535 cqes few) e₁ e₂ e₃ (e₄ fuel more),
        ),
        record {
          sound = calm₅.sound;
          slab = calm₅.slab ∙ slab₄ ∙ p.slab_kept ∙ calm₂.slab ∙ calm₁.slab;
          provided =
              calm₅.provided
              ∙ provided₄
              ∙ p.buffers
              ∙ ap (λ xs. xs ++ given_back ring cqes) (calm₂.provided ∙ calm₁.provided);
          armed = omega (arith, calm₅.armed, armed₄, p.receives, calm₂.armed, calm₁.armed);
          tells =
              Tells-trans ring q scids c statics told₁ tells
                (maintain-broadcaster ring q scids now_ms w₄ ∙ told₄ ∙ p.broadcasts);
          in_flight = λ tagged of_send. omega (
            arith,
            still tagged,
            p.in_flight tagged of_send,
            ap (λ (x : Transmitter). occurrences tagged x.in_flight) transmitter,
            ap (λ (x : Transmitter). occurrences tagged x.in_flight) calm₅.transmitter,
          );
        },
      )
