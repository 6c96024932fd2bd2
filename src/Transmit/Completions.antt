-- ===== src/Transmit/Completions.antt =====
-- The completions of sends in server/src/worker.rs.
use reddit_puzzle_system_des.Base.{
  ℕ, ◌+◌, ◌*◌, ◌/◌, ◌^◌, ◌≤◌, ◌<◌, ◌==◌, true, false, inl, inr, ◌⊎◌, List, [], ◌∷◌, ◌++◌, bit_and,
  bit_and_mask, All, ◌≡◌, ◌∙◌, arith,
}
use reddit_puzzle_system_des.Settings.{tx_capacity, tag_outgoing_udp}
use reddit_puzzle_system_des.Transport.Ids.{one_if, occurrences, occurrences-append}
use reddit_puzzle_system_des.Transmit.{Transmitter, user_data, recycle, forget, complete_send}
use reddit_puzzle_system_des.Transmit.Slots.{user_data-eq, IsPool}

-- A completion is that of a send from a slot, or carries another tag.
abbrev pub IsCompletion : ℕ → Type 0
IsCompletion tagged =
    ((bit_and tagged 255 == tag_outgoing_udp) ≡ false)
    ⊎ ((idx : ℕ) × (idx < tx_capacity) × (tagged ≡ user_data idx))

recycle-occurrences :
    (id : ℕ) (completed free : List ℕ)
    → All IsCompletion completed
    → occurrences id (recycle completed free)
      ≡ occurrences id free + occurrences (2 + id * 256) completed
unfolding recycle
recycle-occurrences id [] free ok = omega arith
recycle-occurrences id (tagged ∷ completed) free (inl foreign, ok) =
    ground (arith, foreign, bit_and_mask 8 tagged, recycle-occurrences id completed free ok)
recycle-occurrences id (tagged ∷ completed) free (inr (idx, known, e), ok) =
    let value : tagged ≡ 2 + idx * 256 = e ∙ user_data-eq idx known in
    let low : bit_and tagged 255 ≡ 2 = omega (arith, value, bit_and_mask 8 tagged) in
    let slot : tagged / 2 ^ 8 ≡ idx = omega (arith, value) in
    rw (low, slot)
      (ground (
        arith,
        value,
        recycle-occurrences id completed (free ++ idx ∷ []) ok,
        occurrences-append id free (idx ∷ []),
      ))

-- The kernel completes each send at most once: `rest` is what is in flight behind these completions.
abbrev pub Completes : Transmitter → List ℕ → List ℕ → Type 0
Completes x completed rest =
    (tagged : ℕ)
    → (bit_and tagged 255 == tag_outgoing_udp) ≡ true
    → occurrences tagged completed + occurrences tagged rest ≡ occurrences tagged x.in_flight

-- Taking the completions of a turn back makes their slots free again: every slot is still either
-- free or in flight, once, whatever completions of other tags are among them.
pub recycle_lem :
    {x : Transmitter} (completed rest : List ℕ)
    → IsPool x
    → All IsCompletion completed
    → Completes x completed rest
    → IsPool (record x { tx_free_indices = recycle completed x.tx_free_indices; in_flight = rest })
recycle_lem {x} completed rest pool ok kernel = record {
  items = pool.items;
  once = λ id.
      let of_send : (bit_and (2 + id * 256) 255 == tag_outgoing_udp) ≡ true =
        ground (arith, bit_and_mask 8 (2 + id * 256)) in
      omega (
        arith,
        pool.once id,
        kernel (2 + id * 256) of_send,
        recycle-occurrences id completed x.tx_free_indices ok,
      );
}

pub occurrences-forget :
    (tagged id : ℕ) (xs : List ℕ)
    → 1 ≤ occurrences tagged xs
    → occurrences id (forget tagged xs) + one_if tagged id ≡ occurrences id xs
unfolding forget
occurrences-forget tagged id [] some_one = absurd (omega (arith, some_one))
occurrences-forget tagged id (x ∷ xs) some_one =
    ground (arith, some_one, occurrences-forget tagged id xs)

-- A completion of a send in flight makes its slot free.
pub complete_send_lem :
    (x : Transmitter) (tagged : ℕ)
    → IsPool x
    → (bit_and tagged 255 == tag_outgoing_udp) ≡ true
    → 1 ≤ occurrences tagged x.in_flight
    → IsPool (complete_send tagged x)
complete_send_lem x tagged pool of_send busy = record {
  items = pool.items;
  once = λ id.
      let value : tagged ≡ 2 + (tagged / 2 ^ 8) * 256 =
        ground (arith, of_send, bit_and_mask 8 tagged) in
      ground (
        arith,
        value,
        pool.once id,
        occurrences-append id x.tx_free_indices ((tagged / 2 ^ 8) ∷ []),
        occurrences-forget tagged (2 + id * 256) x.in_flight busy,
      );
}
