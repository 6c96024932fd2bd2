-- ===== src/Broadcast/Diff.antt =====
-- The diff broadcasts of server/src/worker.rs bring a receiver's canvas up to date.
use reddit_puzzle_system_des.Base.{
  ℕ, ◌+◌, ◌*◌, ◌%◌, ◌^◌, ◌≤◌, ◌<◌, ◌==◌, Bool-cases, inl, inr, List, [], ◌∷◌, ◌++◌, append_assoc,
  length, length-append, length-set, set, set-append, All, ◌≡◌, ◌↔◌, ==_iff, ◌∙◌, ap, sym, refl,
  arith,
}
use reddit_puzzle_system_des.Settings.{broadcast_chunk_size}
use reddit_puzzle_system_des.Broadcast.{chunks, diff_loop, to_le_bytes}
use reddit_puzzle_system_des.Broadcast.Chunks.{flat, IsPiece, chunks_lem, entries-Cuts}

-- The wire format that the source states, `[u32 index, u8 color]`, read by a receiver.
pub apply_diff : List ℕ → List ℕ → List ℕ
apply_diff (a ∷ b ∷ c ∷ d ∷ color ∷ rest) canvas =
    apply_diff rest (set canvas (a + 256 * b + 65_536 * c + 16_777_216 * d) color)
apply_diff _ canvas = canvas

-- A receiver takes the datagrams one after the other.
abbrev pub apply_each : List (List ℕ) → List ℕ → List ℕ
apply_each [] canvas = canvas
apply_each (c ∷ cs) canvas = apply_each cs (apply_diff c canvas)

apply_diff-append :
    (xs ys canvas : List ℕ)
    → length xs % 5 ≡ 0
    → apply_diff (xs ++ ys) canvas ≡ apply_diff ys (apply_diff xs canvas)
unfolding apply_diff
apply_diff-append [] ys canvas whole = refl
apply_diff-append (a ∷ []) ys canvas whole = absurd (omega arith)
apply_diff-append (a ∷ b ∷ []) ys canvas whole = absurd (omega arith)
apply_diff-append (a ∷ b ∷ c ∷ []) ys canvas whole = absurd (omega arith)
apply_diff-append (a ∷ b ∷ c ∷ d ∷ []) ys canvas whole = absurd (omega arith)
apply_diff-append (a ∷ b ∷ c ∷ d ∷ color ∷ xs) ys canvas whole =
    apply_diff-append xs ys _ (omega arith)

pub length-apply_diff : (xs canvas : List ℕ) → length (apply_diff xs canvas) ≡ length canvas
unfolding apply_diff
length-apply_diff [] canvas = refl
length-apply_diff (a ∷ []) canvas = refl
length-apply_diff (a ∷ b ∷ []) canvas = refl
length-apply_diff (a ∷ b ∷ c ∷ []) canvas = refl
length-apply_diff (a ∷ b ∷ c ∷ d ∷ []) canvas = refl
length-apply_diff (a ∷ b ∷ c ∷ d ∷ color ∷ rest) canvas =
    length-apply_diff rest (set canvas (a + 256 * b + 65_536 * c + 16_777_216 * d) color)
    ∙ length-set canvas _ color

apply_each-flat :
    (cs : List (List ℕ)) (canvas : List ℕ)
    → All (IsPiece 5) cs
    → apply_each cs canvas ≡ apply_diff (flat cs) canvas
apply_each-flat [] canvas pieces = unfold apply_diff in refl
apply_each-flat (c ∷ cs) canvas (piece, pieces) =
    apply_each-flat cs (apply_diff c canvas) pieces
    ∙ sym (apply_diff-append c (flat cs) canvas piece.1)

length-diff_loop : (i : ℕ) (news olds : List ℕ) → length (diff_loop i news olds).0 % 5 ≡ 0
unfolding diff_loop
length-diff_loop i [] olds = refl
length-diff_loop i (n ∷ news) [] = refl
length-diff_loop i (n ∷ news) (o ∷ olds) = ground (arith, length-diff_loop (i + 1) news olds)

-- The loop leaves the new pixels in the last sent canvas.
diff_loop-last_sent :
    (i : ℕ) (news olds : List ℕ) → length news ≡ length olds → (diff_loop i news olds).1 ≡ news
unfolding diff_loop
diff_loop-last_sent i [] [] same = refl
diff_loop-last_sent i [] (o ∷ olds) same = absurd (omega arith)
diff_loop-last_sent i (n ∷ news) [] same = absurd (omega arith)
diff_loop-last_sent i (n ∷ news) (o ∷ olds) same =
    ground (arith, diff_loop-last_sent (i + 1) news olds (omega arith))

-- The entry of index `i` names that index.
apply_entry :
    (i color : ℕ) (rest canvas : List ℕ)
    → i < 2 ^ 32
    → apply_diff (to_le_bytes i ++ (color ∷ rest)) canvas ≡ apply_diff rest (set canvas i color)
unfolding apply_diff
apply_entry i color rest canvas small = ap (λ k. apply_diff rest (set canvas k color)) (omega arith)

past :
    (v : ℕ) (pre olds news entries : List ℕ)
    → apply_diff entries ((pre ++ v ∷ []) ++ olds) ≡ (pre ++ v ∷ []) ++ news
    → apply_diff entries (pre ++ v ∷ olds) ≡ pre ++ v ∷ news
past v pre olds news entries h =
    ap (apply_diff entries) (sym (append_assoc pre (v ∷ []) olds))
    ∙ h
    ∙ append_assoc pre (v ∷ []) news

apply_diff-diff_loop :
    (i : ℕ) (news olds pre : List ℕ)
    → length news ≡ length olds
    → i ≡ length pre
    → i + length news ≤ 2 ^ 32
    → apply_diff (diff_loop i news olds).0 (pre ++ olds) ≡ pre ++ news
unfolding diff_loop
apply_diff-diff_loop i [] [] pre same at small = unfold apply_diff in refl
apply_diff-diff_loop i [] (o ∷ olds) pre same at small = absurd (omega arith)
apply_diff-diff_loop i (n ∷ news) [] pre same at small = absurd (omega arith)
apply_diff-diff_loop i (n ∷ news) (o ∷ olds) pre same at small =
    let rest = λ (v : ℕ). past v pre olds news (diff_loop (i + 1) news olds).0 (
      apply_diff-diff_loop (i + 1) news olds (pre ++ v ∷ []) (omega arith)
        (omega (arith, at, length-append pre (v ∷ []))) (omega arith)) in
    elim (Bool-cases (o == n)) [
      | inl equal ↦ rw equal (rw (← (==_iff o n).0 equal) (rest o))
      | inr changed ↦
          rw (changed, apply_entry i n _ (pre ++ (o ∷ olds)) (omega arith))
            (rw (ap (λ k. set (pre ++ (o ∷ olds)) k n) at ∙ set-append pre olds o n) (rest n))
    ]

-- A receiver whose canvas is the one sent last, and who gets the chunks of a diff in order, has the
-- new canvas; every chunk holds whole entries and fits the chunk size; and the worker's copy of what
-- it sent last is the new canvas.
pub diff_broadcast_lem :
    (news olds : List ℕ)
    → length news ≡ length olds
    → length news ≤ 2 ^ 32
    → let changes = diff_loop 0 news olds in
      (apply_each (chunks broadcast_chunk_size changes.0) olds ≡ news)
      × All (IsPiece 5) (chunks broadcast_chunk_size changes.0)
      × (changes.1 ≡ news)
diff_broadcast_lem news olds same small =
    let (whole, pieces) =
      chunks_lem 5 entries-Cuts (diff_loop 0 news olds).0 (length-diff_loop 0 news olds) in
    (
      apply_each-flat (chunks broadcast_chunk_size (diff_loop 0 news olds).0) olds pieces
          ∙ ap (λ l. apply_diff l olds) whole
          ∙ apply_diff-diff_loop 0 news olds [] same refl (omega arith),
      pieces,
      diff_loop-last_sent 0 news olds same,
    )

-- An unchanged canvas gives an empty diff, and only then is nothing sent.
pub diff_loop-nil_iff :
    (i : ℕ) (news olds : List ℕ)
    → length news ≡ length olds
    → ((diff_loop i news olds).0 ≡ []) ↔ (news ≡ olds)
unfolding diff_loop
diff_loop-nil_iff i [] [] same = ((λ _. refl), (λ _. refl))
diff_loop-nil_iff i [] (o ∷ olds) same = absurd (omega arith)
diff_loop-nil_iff i (n ∷ news) [] same = absurd (omega arith)
diff_loop-nil_iff i (n ∷ news) (o ∷ olds) same =
    ground (arith, diff_loop-nil_iff (i + 1) news olds (omega arith))
