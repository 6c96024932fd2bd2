-- ===== src/Master/Publish.antt =====
-- The publication of a snapshot in server/src/master.rs.
use reddit_puzzle_system_des.Base.{
  ℕ, ◌+◌, ◌*◌, ◌%◌, ◌≤◌, ◌<◌, some, List, ◌++◌, length, length-set, length-append, length-drop,
  length-replicate, drop, get_or, get_or-set_self, get_or-set_ne, get_or-replicate, store-eq-set,
  get_elem?-set_self, get_elem?-eq-get_or, set, bit_and_mask, ◌≡◌, ◌≢◌, ◌∙◌, ap, refl, arith,
}
use native.Mathlib.Decide.{ℕ_discrete}
use reddit_puzzle_system_des.Settings.{canvas_size, canvas_buffer_pool_size}
use reddit_puzzle_system_des.Canvas.{
  Canvas, CanvasBuffer, CompressedBuffer, Statics, snapshot_to_pool, initial_statics,
  empty_canvas_buffer, empty_compressed_buffer,
}
use reddit_puzzle_system_des.Canvas.Pixels.{IsWhole}
use reddit_puzzle_system_des.Rle.{Cpu}
use reddit_puzzle_system_des.Rle.Compress.{expand, IsRuns, rle_compress_lem}
use reddit_puzzle_system_des.Master.{publish}

abbrev pub slot : Statics → ℕ → List ℕ
slot s i = (get_or s.buffer_pool i empty_canvas_buffer).bytes

abbrev pub compressed_slot : Statics → ℕ → List ℕ
compressed_slot s i = (get_or s.compressed_buffer_pool i empty_compressed_buffer).bytes

abbrev pub announced : Statics → ℕ → ℕ
announced s i = get_or s.compressed_lens i 0

-- The sizes of the static arrays.
pub record IsValid (s : Statics) : Type 0 where
  pub pool : length s.buffer_pool ≡ canvas_buffer_pool_size
  pub compressed : length s.compressed_buffer_pool ≡ canvas_buffer_pool_size
  pub lens : length s.compressed_lens ≡ canvas_buffer_pool_size
  pub active : s.active_index < canvas_buffer_pool_size
  pub bytes : (i : ℕ) → i < canvas_buffer_pool_size → length (slot s i) ≡ canvas_size
  pub room : (i : ℕ) → i < canvas_buffer_pool_size → length (compressed_slot s i) ≡ canvas_size * 2

pub initial_statics-IsValid : IsValid initial_statics
unfolding initial_statics empty_canvas_buffer empty_compressed_buffer
initial_statics-IsValid = record {
  pool = length-replicate canvas_buffer_pool_size empty_canvas_buffer;
  compressed = length-replicate canvas_buffer_pool_size empty_compressed_buffer;
  lens = length-replicate {A = ℕ} canvas_buffer_pool_size 0;
  active = omega arith;
  bytes = λ i h.
      ap (λ (b : CanvasBuffer). length b.bytes)
        (get_or-replicate canvas_buffer_pool_size i empty_canvas_buffer)
      ∙ length-replicate {A = ℕ} canvas_size 0;
  room = λ i h.
      ap (λ (b : CompressedBuffer). length b.bytes)
        (get_or-replicate canvas_buffer_pool_size i empty_compressed_buffer)
      ∙ length-replicate {A = ℕ} (canvas_size * 2) 0;
}

abbrev pub next_slot : Statics → ℕ
next_slot s = (s.active_index + 1) % canvas_buffer_pool_size

-- The statics after a publication that wrote `out` in front of the slot's old bytes.
abbrev pub published : Canvas → Statics → List ℕ → Statics
published c s out = record {
  buffer_pool = set s.buffer_pool (next_slot s) (record { bytes = c.pixels });
  compressed_buffer_pool =
      set s.compressed_buffer_pool (next_slot s)
        (record { bytes = out ++ drop (length out) (compressed_slot s (next_slot s)) });
  compressed_lens = set s.compressed_lens (next_slot s) (length out);
  active_index = next_slot s;
}

pub publish-eq :
    (cpu : Cpu) (c : Canvas) {s : Statics}
    → IsValid s
    → IsWhole c
    → (out : List ℕ) × (publish cpu c s ≡ some (published c s out))
      × (expand out ≡ c.pixels)
      × IsRuns out
      × (length out ≤ 2 * canvas_size)
unfolding publish snapshot_to_pool
publish-eq cpu c {s} v whole =
    let next : next_slot s < canvas_buffer_pool_size = omega arith in
    let (out, e, same, runs, short) =
      rle_compress_lem cpu c.pixels (compressed_slot s (next_slot s))
        (omega (arith, whole, v.room (next_slot s) next)) in
    (
      out,
      rw
          (
            bit_and_mask 4 (s.active_index + 1),
            store-eq-set s.buffer_pool (next_slot s) (record { bytes = c.pixels })
                (omega (arith, v.pool)),
            get_elem?-set_self s.buffer_pool (next_slot s) (record { bytes = c.pixels })
                (omega (arith, v.pool)),
            get_elem?-eq-get_or s.compressed_buffer_pool (next_slot s) empty_compressed_buffer
                (omega (arith, v.compressed)),
            e,
            store-eq-set s.compressed_buffer_pool (next_slot s) _ (omega (arith, v.compressed)),
            store-eq-set s.compressed_lens (next_slot s) (length out) (omega (arith, v.lens)),
          )
          refl,
      same,
      runs,
      omega (arith, whole),
    )

-- The slot `i` of two states holds the same snapshot, compressed bytes and length.
abbrev pub SameSlot : ℕ → Statics → Statics → Type 0
SameSlot i s s' =
    (slot s' i ≡ slot s i)
    × (compressed_slot s' i ≡ compressed_slot s i)
    × (announced s' i ≡ announced s i)

pub published-SameSlot :
    (c : Canvas) (s : Statics) (out : List ℕ) (i : ℕ)
    → next_slot s ≢ i
    → SameSlot i s (published c s out)
published-SameSlot c s out i ne = (
  ap (λ (b : CanvasBuffer). b.bytes) (get_or-set_ne s.buffer_pool (next_slot s) i _ _ ne),
  ap (λ (b : CompressedBuffer). b.bytes)
      (get_or-set_ne s.compressed_buffer_pool (next_slot s) i _ _ ne),
  get_or-set_ne s.compressed_lens (next_slot s) i _ 0 ne,
)

module _ (c : Canvas) {s : Statics} (out : List ℕ) (v : IsValid s) (whole : IsWhole c)
    (short : length out ≤ 2 * canvas_size) where
  next_in_range : next_slot s < canvas_buffer_pool_size
  next_in_range = omega arith

  pub slot-published : slot (published c s out) (next_slot s) ≡ c.pixels
  slot-published =
      ap (λ (b : CanvasBuffer). b.bytes)
        (get_or-set_self s.buffer_pool (next_slot s) _ _ (omega (arith, v.pool)))

  pub compressed-published :
      compressed_slot (published c s out) (next_slot s)
      ≡ out ++ drop (length out) (compressed_slot s (next_slot s))
  compressed-published =
      ap (λ (b : CompressedBuffer). b.bytes)
        (get_or-set_self s.compressed_buffer_pool (next_slot s) _ _ (omega (arith, v.compressed)))

  pub announced-published : announced (published c s out) (next_slot s) ≡ length out
  announced-published = get_or-set_self s.compressed_lens (next_slot s) _ 0 (omega (arith, v.lens))

  pub published-IsValid : IsValid (published c s out)
  published-IsValid = record {
    pool = length-set s.buffer_pool (next_slot s) _ ∙ v.pool;
    compressed = length-set s.compressed_buffer_pool (next_slot s) _ ∙ v.compressed;
    lens = length-set s.compressed_lens (next_slot s) _ ∙ v.lens;
    active = next_in_range;
    bytes = λ i h. elim (ℕ_discrete (next_slot s) i) [
      | yes e ↦ rw (← e) (ap length slot-published ∙ whole)
      | no ne ↦ ap length (published-SameSlot c s out i ne).0 ∙ v.bytes i h
    ];
    room = λ i h. elim (ℕ_discrete (next_slot s) i) [
      | yes e ↦ rw (← e) (ap length compressed-published ∙ size)
      | no ne ↦ ap length (published-SameSlot c s out i ne).1 ∙ v.room i h
    ];
  }
    where
      size : length (out ++ drop (length out) (compressed_slot s (next_slot s))) ≡ canvas_size * 2
      size = omega (
        arith,
        length-append out (drop (length out) (compressed_slot s (next_slot s))),
        length-drop (length out) (compressed_slot s (next_slot s)),
        v.room (next_slot s) next_in_range,
      )
