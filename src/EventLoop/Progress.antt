-- ===== src/EventLoop/Progress.antt =====
-- What processing completions changes in the worker of server/src/worker.rs.
use reddit_puzzle_system_des.Base.{
  ℕ, ◌+◌, ◌==◌, ==_iff, if◌then◌else◌, Bool-cases, true, false, inl, inr, List, [], ◌∷◌, ◌++◌,
  append-nil, append_assoc, bit_and, ◌≡◌, ◌∙◌, sym, ap, refl, arith,
}
use reddit_puzzle_system_des.Settings.{tag_outgoing_udp}
use reddit_puzzle_system_des.Quiche.{Quiche}
use reddit_puzzle_system_des.Transport.Ids.{occurrences, occurrences-append}
use reddit_puzzle_system_des.EventLoop.{Cqueue, WorkerCore, rearm}
use reddit_puzzle_system_des.EventLoop.Sound.{IsSound}

module _ (ring : Cqueue) (q : Quiche) (scids : ℕ → List ℕ) where
  open q use {Connection}

  -- What completions with the user data `tags` leave, when they give the buffers `given` back and renew
  -- `renewals` receive requests.
  pub record Progress (tags given : List ℕ) (renewals : ℕ) (w w' : WorkerCore Connection)
      : Type 0 where
    pub sound : IsSound scids w'
    pub slab_kept : w'.buffer_slab ≡ w.buffer_slab
    pub broadcasts : w'.broadcaster ≡ w.broadcaster
    pub buffers : w'.provided ≡ w.provided ++ given
    pub receives : w'.armed ≡ w.armed + renewals
    pub in_flight :
        (tagged : ℕ)
        → (bit_and tagged 255 == tag_outgoing_udp) ≡ true
        → occurrences tagged w'.transmitter.in_flight + occurrences tagged tags
          ≡ occurrences tagged w.transmitter.in_flight

  pub Progress-refl : (w : WorkerCore Connection) → IsSound scids w → Progress [] [] 0 w w
  Progress-refl w s = record {
    sound = s;
    slab_kept = refl;
    broadcasts = refl;
    buffers = sym (append-nil w.provided);
    receives = omega arith;
    in_flight = λ tagged of_send. omega arith;
  }

  pub Progress-trans :
      (tags tags' given given' : List ℕ) (n n' : ℕ) (w w₁ w₂ : WorkerCore Connection)
      → Progress tags given n w w₁
      → Progress tags' given' n' w₁ w₂
      → Progress (tags ++ tags') (given ++ given') (n + n') w w₂
  Progress-trans tags tags' given given' n n' w w₁ w₂ p p' = record {
    sound = p'.sound;
    slab_kept = p'.slab_kept ∙ p.slab_kept;
    broadcasts = p'.broadcasts ∙ p.broadcasts;
    buffers = p'.buffers ∙ ap (λ xs. xs ++ given') p.buffers ∙ append_assoc w.provided given given';
    receives = omega (arith, p.receives, p'.receives);
    in_flight = λ tagged of_send. omega (
      arith,
      p.in_flight tagged of_send,
      p'.in_flight tagged of_send,
      occurrences-append tagged tags tags',
    );
  }

  -- A completion that is not of a send, by what it does otherwise.
  pub foreign_tag :
      (tag : ℕ) (given : List ℕ) (n : ℕ) (w w' : WorkerCore Connection)
      → (bit_and tag 255 == tag_outgoing_udp) ≡ false
      → Progress [] given n w w'
      → Progress (tag ∷ []) given n w w'
  foreign_tag tag given n w w' foreign p = record {
    sound = p.sound;
    slab_kept = p.slab_kept;
    broadcasts = p.broadcasts;
    buffers = p.buffers;
    receives = p.receives;
    in_flight = λ tagged of_send. elim (Bool-cases (tag == tagged)) [
      | inl same ↦ absurd (cc ((==_iff tag tagged).0 same))
      | inr apart' ↦ ground (arith, apart', p.in_flight tagged of_send)
    ];
  }

  abbrev pub renewal : ℕ → ℕ
  renewal flags = if ring.more flags then 0 else 1

  pub rearm-Progress :
      (flags : ℕ) (w : WorkerCore Connection)
      → IsSound scids w
      → Progress [] [] (renewal flags) w (rearm ring q scids flags w)
  rearm-Progress flags w s = elim (Bool-cases (ring.more flags)) [
    | inl on ↦ rw on (Progress-refl w s)
    | inr off ↦ rw off (record {
      sound = record {
        steady = record {
          shared = s.steady.shared;
          unused = s.steady.unused;
          quota = s.steady.quota;
          models = s.steady.models;
          ready = s.steady.ready;
        };
        pool = s.pool;
        slab = s.slab;
      };
      slab_kept = refl;
      broadcasts = refl;
      buffers = sym (append-nil w.provided);
      receives = refl;
      in_flight = λ tagged of_send. omega arith;
    })
  ]

  -- A receive request is renewed behind other work.
  pub rearm_after :
      (flags : ℕ) (given : List ℕ) (w w' : WorkerCore Connection)
      → Progress [] given 0 w w'
      → Progress [] given (renewal flags) w (rearm ring q scids flags w')
  rearm_after flags given w w' p =
      let p' = rearm-Progress flags w' p.sound in
      record {
        sound = p'.sound;
        slab_kept = p'.slab_kept ∙ p.slab_kept;
        broadcasts = p'.broadcasts ∙ p.broadcasts;
        buffers = p'.buffers ∙ append-nil w'.provided ∙ p.buffers;
        receives = omega (arith, p.receives, p'.receives);
        in_flight = λ tagged of_send.
            omega (arith, p.in_flight tagged of_send, p'.in_flight tagged of_send);
      }
