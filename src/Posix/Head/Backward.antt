-- ===== src/Posix/Head/Backward.antt =====
-- libmesabox/src/posix/head.rs: `write_lines_backward` writes all but the last lines.
use native.Mathlib.Decide.{dec_le}
use mesabox.Common.{
  ℕ, zero, suc, ◌-◌, ◌≤◌, ◌<◌, ◌≡◌, refl, ap, ◌∙◌, none, some, List, [], ◌∷◌, ◌++◌, append-nil,
  append_assoc, length, length-append, length-drop, take-append-drop, concat, take, drop, ◌>>=◌,
  arith,
}
use mesabox.Common.Bytes.{Bytes}
use mesabox.Posix.Head.Defs.{read_until, fill, drain, after_fill, write_lines_backward}
use mesabox.Posix.Head.Lines.{split_lines, split_lines-read_until, length-read_until}

fill_step :
    (n b : ℕ) (store : List Bytes) (input : Bytes)
    → fill (suc n) store (b ∷ input)
      ≡ fill n (store ++ (read_until (b ∷ input)).0 ∷ []) (read_until (b ∷ input)).1
unfolding fill
fill_step n b store input = ground (arith, length-read_until b input)

-- With enough lines, the first ones are stored, and the others are left.
fill_enough :
    (n : ℕ) (store : List Bytes) (input : Bytes)
    → n ≤ length (split_lines input)
    → (rest : Bytes) × (fill n store input ≡ some (store ++ take n (split_lines input), rest))
      × (split_lines rest ≡ drop n (split_lines input))
fill_enough zero store input h = (input, unfold fill in rw append-nil, refl)
fill_enough (suc n) store [] h = absurd (unfold split_lines in omega arith)
fill_enough (suc n) store (b ∷ input) h =
    let line = (read_until (b ∷ input)).0 in
    let later = (read_until (b ∷ input)).1 in
    let (rest, filled, lines) =
      fill_enough n (store ++ line ∷ []) later
        (omega (arith, ap length (split_lines-read_until b input))) in
    (
      rest,
      rw (fill_step, split_lines-read_until) (filled ∙ rw append_assoc),
      rw split_lines-read_until lines,
    )

fill_short :
    (n : ℕ) (store : List Bytes) (input : Bytes)
    → length (split_lines input) < n
    → fill n store input ≡ none
fill_short zero store input h = absurd (omega arith)
fill_short (suc n) store [] h = unfold fill read_until in refl
fill_short (suc n) store (b ∷ input) h = rw fill_step (
    fill_short n _ (read_until (b ∷ input)).1
      (omega (arith, ap length (split_lines-read_until b input))))

drain_step :
    (fuel b : ℕ) (oldest : Bytes) (store : List Bytes) (input : Bytes)
    → drain (suc fuel) (oldest ∷ store) (b ∷ input) ≡ (
        drain fuel (store ++ (read_until (b ∷ input)).0 ∷ []) (read_until (b ∷ input)).1 >>= λ out.
        some (oldest ++ out))
unfolding drain
drain_step fuel b oldest store input = ground (arith, length-read_until b input)

-- Each round writes the oldest stored line; as many stay in the store as were put there.
drain-lines :
    (fuel : ℕ) (store : List Bytes) (input : Bytes)
    → 0 < length store
    → length input < fuel
    → drain fuel store input
      ≡ some (concat (take (suc (length (split_lines input))) (store ++ split_lines input)))
drain-lines zero store input hs hf = absurd (omega arith)
drain-lines (suc fuel) [] input hs hf = absurd (omega arith)
drain-lines (suc fuel) (oldest ∷ store) [] hs hf =
    unfold drain read_until split_lines in rw append-nil
drain-lines (suc fuel) (oldest ∷ store) (b ∷ input) hs hf =
    let line = (read_until (b ∷ input)).0 in
    let rest = (read_until (b ∷ input)).1 in
    rw (
      drain_step fuel b oldest store input,
      split_lines-read_until b input,
      drain-lines fuel (store ++ line ∷ []) rest (omega (arith, length-append store (line ∷ [])))
          (omega (arith, length-read_until b input)),
      append_assoc store (line ∷ []) (split_lines rest),
    )

after_fill_step :
    (store : List Bytes) (b : ℕ) (input : Bytes)
    → after_fill store (b ∷ input)
      ≡ drain
          (suc (length (b ∷ input)))
          (store ++ (read_until (b ∷ input)).0 ∷ [])
          (read_until (b ∷ input)).1
unfolding after_fill
after_fill_step store b input = ground (arith, length-read_until b input)

after_fill-lines :
    (store : List Bytes) (input : Bytes)
    → after_fill store input
      ≡ some (concat (take (length (split_lines input)) (store ++ split_lines input)))
after_fill-lines store [] = unfold after_fill read_until split_lines in refl
after_fill-lines store (b ∷ input) =
    let line = (read_until (b ∷ input)).0 in
    let rest = (read_until (b ∷ input)).1 in
    rw (
      after_fill_step store b input,
      split_lines-read_until b input,
      drain-lines (suc (length (b ∷ input))) (store ++ line ∷ []) rest
          (omega (arith, length-append store (line ∷ [])))
          (omega (arith, length-read_until b input)),
      append_assoc store (line ∷ []) (split_lines rest),
    )

-- `write_lines_backward` ends, and writes exactly all but the last `n` lines: nothing if there are
-- at most `n`.
pub write_lines_backward_lem :
    (n : ℕ) (input : Bytes)
    → write_lines_backward n input
      ≡ some (concat (take (length (split_lines input) - n) (split_lines input)))
unfolding write_lines_backward
write_lines_backward_lem n input =
    let ls = split_lines input in
    elim (dec_le n (length ls)) [
      | yes enough ↦
          let (rest, filled, others) = fill_enough n [] input enough in
          let left : length (split_lines rest) ≡ length ls - n =
            ap length others ∙ length-drop n ls in
          rw (
            filled,
            write_lines_backward,
            after_fill-lines (take n ls) rest,
            left,
            others,
            take-append-drop n ls,
          )
      | no short ↦
          let missing : length ls - n ≡ 0 = omega arith in
          rw (fill_short n [] input (omega arith), write_lines_backward, missing)
    ]
