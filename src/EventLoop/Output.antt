-- ===== src/EventLoop/Output.antt =====
-- What a turn of the loop of `run_linux` in server/src/worker.rs sends: the broadcast and the flush.
use reddit_puzzle_system_des.Base.{
  ℕ, ◌+◌, ◌≤◌, ◌<◌, ◌==◌, ==_iff, Bool-cases, some, inl, inr, List, [], ◌∷◌, All, ◌≡◌, ◌≢◌, ◌∙◌,
  sym, ap, subst, refl, arith,
}
use reddit_puzzle_system_des.Outcome.{done}
use reddit_puzzle_system_des.Canvas.{Canvas, Statics}
use reddit_puzzle_system_des.Canvas.Pixels.{IsWhole}
use reddit_puzzle_system_des.Master.Publish.{IsValid}
use reddit_puzzle_system_des.Master.Snapshot.{Shows}
use reddit_puzzle_system_des.Quiche.{Quiche}
use reddit_puzzle_system_des.Transport.Ids.{occurrences}
use reddit_puzzle_system_des.Broadcast.{Broadcaster, handle_broadcast}
use reddit_puzzle_system_des.Broadcast.Handle.{handle_broadcast_lem}
use reddit_puzzle_system_des.Transmit.{Transmitter, flush_outgoing}
use reddit_puzzle_system_des.Transmit.Slots.{IsPool, Sends, flush_outgoing_lem}
use reddit_puzzle_system_des.Transmit.Fuel.{flush_outgoing_more}
use reddit_puzzle_system_des.EventLoop.Connections.{conns_of}
use reddit_puzzle_system_des.EventLoop.{Cqueue, WorkerCore, broadcast_turn, flush_turn}
use reddit_puzzle_system_des.EventLoop.Sound.{IsSound}
use reddit_puzzle_system_des.EventLoop.Steps.{worked, worked-IsShared, worked-free, Calm}

module _ (ring : Cqueue) (q : Quiche) (scids : ℕ → List ℕ) where
  open q use {Connection, on_timeout}

  -- What the worker shows its receivers: the active canvas, if it has not yet.
  abbrev pub Tells : Canvas → Statics → Broadcaster → Broadcaster → Type 0
  Tells c statics b b' =
      (b'.last_broadcast_index ≡ statics.active_index)
      × (statics.active_index ≢ b.last_broadcast_index → b'.last_sent_canvas ≡ c.pixels)
      × (statics.active_index ≡ b.last_broadcast_index → b' ≡ b)

  pub Tells-trans :
      (c : Canvas) (statics : Statics) {b b₁ b₂ b' : Broadcaster}
      → b₁ ≡ b
      → Tells c statics b₁ b₂
      → b' ≡ b₂
      → Tells c statics b b'
  Tells-trans c statics {b} {b₁} {b₂} {b'} before told behind =
      subst (λ x. Tells c statics b x) (sym behind) (subst (λ x. Tells c statics x b₂) before told)

  broadcast_turn-eq :
      (statics : Statics) (w : WorkerCore Connection) (b : Broadcaster) (conns : List Connection)
      → handle_broadcast q statics w.broadcaster (conns_of w.transport.connections)
        ≡ some (b, conns)
      → broadcast_turn ring q scids statics w
        ≡ done (record w { broadcaster = b; transport = worked ring q scids conns w })
  unfolding broadcast_turn
  broadcast_turn-eq statics w b conns e = rw e refl

  pub broadcast_turn_lem :
      {c : Canvas} {statics : Statics} (w : WorkerCore Connection)
      → IsValid statics
      → IsWhole c
      → (statics.active_index ≢ w.broadcaster.last_broadcast_index → Shows c statics)
      → IsSound scids w
      → (w' : WorkerCore Connection) × (broadcast_turn ring q scids statics w ≡ done w')
        × Calm ring q scids w w'
        × Tells c statics w.broadcaster w'.broadcaster
  broadcast_turn_lem {c} {statics} w valid whole shows s =
      let (b, conns, e, ready, same, new) =
        handle_broadcast_lem q valid whole shows s.steady.ready
          (conns_of w.transport.connections) in
      (
        _,
        broadcast_turn-eq statics w b conns e,
        record {
          sound = record {
            steady = record {
              shared = worked-IsShared ring q scids conns w s;
              unused = worked-free ring q scids conns w s;
              quota = s.steady.quota;
              models = s.steady.models;
              ready = ready;
            };
            pool = s.pool;
            slab = s.slab;
          };
          slab = refl;
          provided = refl;
          armed = refl;
          transmitter = refl;
        },
        (
          elim (Bool-cases (statics.active_index == w.broadcaster.last_broadcast_index)) [
            | inl agrees ↦
                let e' =
                  (==_iff statics.active_index w.broadcaster.last_broadcast_index).0 agrees in
                ap (λ (b' : Broadcaster). b'.last_broadcast_index) (same e').0 ∙ sym e'
            | inr differs ↦ (new (λ e'. ground (arith, differs, e'))).index
          ],
          (λ differs. (new differs).last_sent),
          (λ agrees. (same agrees).0),
        ),
      )

  flush_turn-eq :
      (fuel : ℕ) (w : WorkerCore Connection) (conns : List Connection) (x : Transmitter)
      → flush_outgoing q fuel
          (conns_of w.transport.connections)
          (record (w.transmitter) { sqes_added = 0 })
        ≡ some (conns, x)
      → flush_turn ring q scids fuel w
        ≡ done (record w { transmitter = x; transport = worked ring q scids conns w })
  unfolding flush_turn
  flush_turn-eq fuel w conns x e = rw e refl

  -- More rounds than any of the connections has packets.
  abbrev pub rounds : Sends q → List Connection → ℕ
  rounds sends [] = 1
  rounds sends (conn ∷ conns) = sends.outgoing conn + rounds sends conns

  rounds_mono :
      (sends : Sends q) (fuel fuel' : ℕ) (conns : List Connection)
      → fuel' ≤ fuel
      → All (λ conn. sends.outgoing conn < fuel') conns
      → All (λ conn. sends.outgoing conn < fuel) conns
  rounds_mono sends fuel fuel' [] more all = tt
  rounds_mono sends fuel fuel' (conn ∷ conns) more (first, others) =
      (omega (arith, more, first), rounds_mono sends fuel fuel' conns more others)

  rounds-positive : (sends : Sends q) (conns : List Connection) → 1 ≤ rounds sends conns
  rounds-positive sends [] = omega arith
  rounds-positive sends (conn ∷ conns) = omega (arith, rounds-positive sends conns)

  rounds_enough :
      (sends : Sends q) (conns : List Connection)
      → All (λ conn. sends.outgoing conn < rounds sends conns) conns
  rounds_enough sends [] = tt
  rounds_enough sends (conn ∷ conns) = (
    omega (arith, rounds-positive sends conns),
    rounds_mono sends (rounds sends (conn ∷ conns)) (rounds sends conns) conns (omega arith)
        (rounds_enough sends conns),
  )

  pub flush_turn_lem :
      (sends : Sends q) (w : WorkerCore Connection)
      → IsSound scids w
      → (w' : WorkerCore Connection) × ((fuel : ℕ)
          → rounds sends (conns_of w.transport.connections) ≤ fuel
          → flush_turn ring q scids fuel w ≡ done w')
        × IsSound scids w'
        × (w'.buffer_slab ≡ w.buffer_slab)
        × (w'.provided ≡ w.provided)
        × (w'.armed ≡ w.armed)
        × (w'.broadcaster ≡ w.broadcaster)
        × ((tagged : ℕ)
            → occurrences tagged w.transmitter.in_flight
              ≤ occurrences tagged w'.transmitter.in_flight)
  flush_turn_lem sends w s =
      let conns₀ = conns_of w.transport.connections in
      let fresh_pool : IsPool (record (w.transmitter) { sqes_added = 0 }) = record {
        items = s.pool.items;
        once = s.pool.once;
      } in
      let (conns, x, e, pool, keeps) =
        flush_outgoing_lem q sends (rounds sends conns₀) conns₀ fresh_pool
          (rounds_enough sends conns₀) in
      (
        _,
        (λ fuel enough. flush_turn-eq fuel w conns x (
            flush_outgoing_more q (rounds sends conns₀) fuel conns₀
              (record (w.transmitter) { sqes_added = 0 }) (conns, x) enough e)),
        record {
          steady = record {
            shared = worked-IsShared ring q scids conns w s;
            unused = worked-free ring q scids conns w s;
            quota = s.steady.quota;
            models = s.steady.models;
            ready = s.steady.ready;
          };
          pool = pool;
          slab = s.slab;
        },
        refl,
        refl,
        refl,
        refl,
        keeps.still,
      )
