-- ===== src/Posix/Head/Forward.antt =====
-- libmesabox/src/posix/head.rs: `write_lines_forward`.
use mesabox.Common.{ℕ, zero, suc, ◌≡◌, refl, [], ◌∷◌, ◌++◌, concat, take, drop, arith}
use mesabox.Common.Bytes.{Bytes}
use mesabox.Posix.Head.Defs.{read_until, write_lines_forward}
use mesabox.Posix.Head.Lines.{
  split_lines, concat-split_lines, split_lines-read_until, length-read_until,
}

forward_step :
    (n b : ℕ) (input : Bytes)
    → write_lines_forward (suc n) (b ∷ input) ≡ (
      (read_until (b ∷ input)).0 ++ (write_lines_forward n (read_until (b ∷ input)).1).0,
      (write_lines_forward n (read_until (b ∷ input)).1).1,
    )
unfolding write_lines_forward
forward_step n b input = ground (arith, length-read_until b input)

-- `write_lines_forward` writes exactly the first `n` lines, or all of them if there are fewer, and
-- leaves the other lines unread.
pub write_lines_forward_lem :
    (n : ℕ) (input : Bytes)
    → write_lines_forward n input
      ≡ (concat (take n (split_lines input)), concat (drop n (split_lines input)))
write_lines_forward_lem zero input = unfold write_lines_forward in rw (concat-split_lines input)
write_lines_forward_lem (suc n) [] = unfold write_lines_forward read_until split_lines in refl
write_lines_forward_lem (suc n) (b ∷ input) = rw (
  forward_step n b input,
  split_lines-read_until b input,
  write_lines_forward_lem n (read_until (b ∷ input)).1,
)
