-- ===== src/EventLoop/Steps.antt =====
-- The steps of one turn of the loop of `run_linux` in server/src/worker.rs.
use reddit_puzzle_system_des.Base.{
  ℕ, ◌+◌, ◌-◌, ◌%◌, ◌^◌, ◌≤◌, leb, Bool-cases, Option, none, inl, inr, List, map, ◌≡◌, ap, refl,
  arith,
}
use reddit_puzzle_system_des.Settings.{conn_timeout_throttle_ms}
use reddit_puzzle_system_des.Outcome.{done, ◌>>=◌, need}
use reddit_puzzle_system_des.HashMap.{get}
use reddit_puzzle_system_des.Quiche.{Quiche}
use reddit_puzzle_system_des.Transport.{TransportState, cleanup_connections}
use reddit_puzzle_system_des.Transport.Users.{IsShared}
use reddit_puzzle_system_des.Transport.Incoming.{cleanup_lem}
use reddit_puzzle_system_des.Transport.Fresh.{cleanup-free}
use reddit_puzzle_system_des.Worker.{Admitter}
use reddit_puzzle_system_des.Worker.Admission.{handle_tick_lem}
use reddit_puzzle_system_des.EventLoop.Connections.{
  conns_of, put_conns, live-put_conns, put_conns-free,
}
use reddit_puzzle_system_des.EventLoop.{Cqueue, WorkerCore, tick_turn, maintain_connections}
use reddit_puzzle_system_des.EventLoop.Sound.{IsSound}

module _ (ring : Cqueue) (q : Quiche) (scids : ℕ → List ℕ) where
  open q use {Connection, on_timeout}

  -- Another map of the connections.
  with_transport :
      (w : WorkerCore Connection) (t : TransportState Connection)
      → IsSound scids w
      → IsShared t
      → ((i : ℕ) → w.draws ≤ i → get (scids i) t.connections ≡ none)
      → IsSound scids (record w { transport = t })
  with_transport w t s shared unused = record {
    steady = record {
      shared = shared;
      unused = unused;
      quota = s.steady.quota;
      models = s.steady.models;
      ready = s.steady.ready;
    };
    pool = s.pool;
    slab = s.slab;
  }

  -- The map after its connections were worked on.
  abbrev pub worked : List Connection → WorkerCore Connection → TransportState Connection
  worked conns w = record (w.transport) { connections = put_conns conns w.transport.connections }

  pub worked-IsShared :
      (conns : List Connection) (w : WorkerCore Connection)
      → IsSound scids w
      → IsShared (worked conns w)
  worked-IsShared conns w s = record {
    once = λ id.
        omega (arith, s.steady.shared.once id, live-put_conns id conns w.transport.connections);
  }

  pub worked-free :
      (conns : List Connection) (w : WorkerCore Connection)
      → IsSound scids w
      → (i : ℕ) → w.draws ≤ i
      → get (scids i) (worked conns w).connections ≡ none
  worked-free conns w s i later =
      put_conns-free (scids i) conns w.transport.connections (s.steady.unused i later)

  -- A step leaves the buffers, the receive requests and the sends in flight alone.
  pub record Calm (w w' : WorkerCore Connection) : Type 0 where
    pub sound : IsSound scids w'
    pub slab : w'.buffer_slab ≡ w.buffer_slab
    pub provided : w'.provided ≡ w.provided
    pub armed : w'.armed ≡ w.armed
    pub transmitter : w'.transmitter ≡ w.transmitter

  pub tick_turn_lem :
      (now_sec : ℕ) (w : WorkerCore Connection)
      → IsSound scids w
      → (w' : WorkerCore Connection) × (tick_turn ring q scids now_sec w ≡ done w')
        × Calm w w'
        × (w'.broadcaster ≡ w.broadcaster)
  unfolding tick_turn
  tick_turn_lem now_sec w s =
      let (a, e, m) = handle_tick_lem now_sec s.steady.models in
      (
        record w { admitter = a },
        ap (λ (result : Option Admitter). need result >>= (λ a'. done (record w { admitter = a' })))
            e,
        record {
          sound = record {
            steady = record {
              shared = s.steady.shared;
              unused = s.steady.unused;
              quota = _;
              models = m;
              ready = s.steady.ready;
            };
            pool = s.pool;
            slab = s.slab;
          };
          slab = refl;
          provided = refl;
          armed = refl;
          transmitter = refl;
        },
        refl,
      )

  cleaned :
      (now_ms : ℕ) (w : WorkerCore Connection)
      → IsSound scids w
      → Calm w (record w {
        transport =
            cleanup_connections q (worked (map on_timeout (conns_of w.transport.connections)) w);
        last_timeout_ms = now_ms;
      })
  cleaned now_ms w s =
      let conns = map on_timeout (conns_of w.transport.connections) in
      let s' =
        with_transport w (cleanup_connections q (worked conns w)) s
          (cleanup_lem q (worked-IsShared conns w s))
          (λ i later. cleanup-free q (scids i) (worked conns w) (worked-free conns w s i later)) in
      record {
        sound = record {
          steady = record {
            shared = s'.steady.shared;
            unused = s'.steady.unused;
            quota = s'.steady.quota;
            models = s'.steady.models;
            ready = s'.steady.ready;
          };
          pool = s.pool;
          slab = s.slab;
        };
        slab = refl;
        provided = refl;
        armed = refl;
        transmitter = refl;
      }

  -- The clock going back makes the difference wrap, which counts as time passed.
  pub maintain_lem :
      (now_ms : ℕ) (w : WorkerCore Connection)
      → IsSound scids w
      → Calm w (maintain_connections ring q scids now_ms w)
  unfolding maintain_connections
  maintain_lem now_ms w s =
      elim (Bool-cases
        (leb conn_timeout_throttle_ms ((now_ms + 2 ^ 128 - w.last_timeout_ms) % 2 ^ 128))) [
          | inl due ↦ rw due (cleaned now_ms w s)
          | inr early ↦
              rw early (record {
                sound = s;
                slab = refl;
                provided = refl;
                armed = refl;
                transmitter = refl;
              })
        ]

  pub maintain-broadcaster :
      (now_ms : ℕ) (w : WorkerCore Connection)
      → (maintain_connections ring q scids now_ms w).broadcaster ≡ w.broadcaster
  unfolding maintain_connections
  maintain-broadcaster now_ms w =
      elim (Bool-cases
        (leb conn_timeout_throttle_ms ((now_ms + 2 ^ 128 - w.last_timeout_ms) % 2 ^ 128))) [
          | inl due ↦ rw due refl
          | inr early ↦ rw early refl
        ]
