-- ===== src/Master/Snapshot.antt =====
-- What a publication of server/src/master.rs promises the workers.
use reddit_puzzle_system_des.Base.{
  ℕ, ◌+◌, ◌*◌, ◌%◌, ◌≤◌, ◌<◌, Option, some, List, [], ◌∷◌, length, take, drop, take-length-append,
  ◌≡◌, ◌≢◌, ◌∙◌, sym, refl, arith, ◌>>=◌,
}
use reddit_puzzle_system_des.Settings.{canvas_size, canvas_buffer_pool_size}
use reddit_puzzle_system_des.Canvas.{Canvas, Statics}
use reddit_puzzle_system_des.Canvas.Pixels.{IsWhole}
use reddit_puzzle_system_des.Rle.{Cpu, rle_decompress}
use reddit_puzzle_system_des.Rle.RoundTrip.{rle_decompress-expand}
use reddit_puzzle_system_des.Master.{publish}
use reddit_puzzle_system_des.Master.Publish.{
  IsValid, slot, compressed_slot, announced, next_slot, SameSlot, published, publish-eq,
  published-SameSlot, slot-published, compressed-published, announced-published, published-IsValid,
}

-- The active slot holds the canvas, plain and compressed: a client that decompresses the announced
-- bytes has it.
pub record Shows (c : Canvas) (s : Statics) : Type 0 where
  pub plain : slot s s.active_index ≡ c.pixels
  pub bounded : announced s s.active_index ≤ canvas_size * 2
  pub restores :
      (seen : List ℕ)
      → length seen ≡ canvas_size
      → rle_decompress (take (announced s s.active_index) (compressed_slot s s.active_index)) seen
        ≡ (c.pixels, canvas_size)

-- On every target a publication of a whole canvas into well-formed statics succeeds and keeps them
-- well formed; it moves the active index to the next slot, cyclically and never to the slot that was
-- active; that slot then shows the canvas, plain and compressed; and every other slot is untouched.
pub publish_lem :
    (cpu : Cpu) (c : Canvas) {s : Statics}
    → IsValid s
    → IsWhole c
    → (s' : Statics) × (publish cpu c s ≡ some s')
      × IsValid s'
      × (s'.active_index ≡ (s.active_index + 1) % canvas_buffer_pool_size)
      × (s'.active_index ≢ s.active_index)
      × Shows c s'
      × ((i : ℕ) → s'.active_index ≢ i → SameSlot i s s')
publish_lem cpu c {s} v whole =
    let (out, e, same, runs, short) = publish-eq cpu c v whole in
    (
      published c s out,
      e,
      published-IsValid c out v whole short,
      refl,
      (λ same_slot. omega (arith, v.active)),
      record {
        plain = slot-published c out v whole short;
        bounded = omega (arith, announced-published c out v whole short);
        restores = λ seen size.
            rw
              (
                announced-published c out v whole short,
                compressed-published c out v whole short,
                take-length-append out (drop (length out) (compressed_slot s (next_slot s))),
                ← whole,
              )
              (rle_decompress-expand out c.pixels seen same (size ∙ sym whole));
      },
      published-SameSlot c s out,
    )

-- One publication for each canvas of the list.
pub publish_each : Cpu → List Canvas → Statics → Option Statics
publish_each cpu [] s = some s
publish_each cpu (c ∷ cs) s = publish cpu c s >>= λ s'. publish_each cpu cs s'

abbrev pub AllWhole : List Canvas → Type 0
AllWhole [] = Unit
AllWhole (c ∷ cs) = IsWhole c × AllWhole cs

publish_each-SameSlot :
    (cpu : Cpu) (cs : List Canvas) (i k : ℕ) {s : Statics}
    → IsValid s
    → AllWhole cs
    → i < canvas_buffer_pool_size
    → s.active_index ≡ (i + k) % canvas_buffer_pool_size
    → k + length cs < canvas_buffer_pool_size
    → (s' : Statics) × (publish_each cpu cs s ≡ some s')
      × SameSlot i s s'
      × (s'.active_index ≡ (i + (k + length cs)) % canvas_buffer_pool_size)
unfolding publish_each
publish_each-SameSlot cpu [] i k {s} v wholes low at few =
    (s, refl, (refl, refl, refl), omega arith)
publish_each-SameSlot cpu (c ∷ cs) i k {s} v wholes low at few =
    let (s₁, e, v₁, step, ne, shows, same) = publish_lem cpu c v wholes.0 in
    let (s₂, e', same', at') =
      publish_each-SameSlot cpu cs i (k + 1) v₁ wholes.1 low (omega (arith, step)) (omega arith) in
    let kept = same i (λ hit. omega (arith, step, hit)) in
    (s₂, rw e e', (same'.0 ∙ kept.0, same'.1 ∙ kept.1, same'.2 ∙ kept.2), omega (arith, at'))

-- A worker that has loaded the active index reads an unchanged snapshot, compressed copy and length
-- as long as the master makes fewer than 16 publications meanwhile, whatever it publishes.
pub active_slot_stable :
    (cpu : Cpu) (cs : List Canvas) {s : Statics}
    → IsValid s
    → AllWhole cs
    → length cs < canvas_buffer_pool_size
    → (s' : Statics) × (publish_each cpu cs s ≡ some s') × SameSlot s.active_index s s'
active_slot_stable cpu cs {s} v wholes few =
    let (s', e, same, at) =
      publish_each-SameSlot cpu cs s.active_index 0 v wholes v.active (omega (arith, v.active))
        (omega arith) in
    (s', e, same)
