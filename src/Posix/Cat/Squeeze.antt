-- ===== src/Posix/Cat/Squeeze.antt =====
-- libmesabox/src/posix/cat.rs: with `-s`, a line that is cut before its newline.
use mesabox.Common.{ℕ, ◌≡◌, true, false, some, [], ◌∷◌, ◌==◌, arith}
use mesabox.Posix.Cat.Defs.{
  newline, OutputOptions, OutputState, number_none, write_file_lines, chunk_loop, blank, write_line,
}

abbrev pub squeezing : OutputOptions
squeezing = record {
  number = number_none;
  squeeze_blank = true;
  show_ends = false;
  show_tabs = false;
  tab = 9 ∷ [];
  end_of_line = newline ∷ [];
  show_nonprint = false;
}

abbrev pub at_start : ℕ → OutputState
at_start n = record { line_number = n; at_line_start = true }

-- With `-s`, a byte and two newlines are a line and a blank line. The blank line is written if they
-- are read at once, and is lost if a read ends behind the byte.
pub write_file_lines-cut :
    (b n : ℕ)
    → (b == newline) ≡ false
    → (write_file_lines squeezing (at_start n) ((b ∷ newline ∷ newline ∷ []) ∷ [])
        ≡ some (b ∷ newline ∷ newline ∷ [], at_start n))
      × (write_file_lines squeezing (at_start n) ((b ∷ []) ∷ (newline ∷ newline ∷ []) ∷ [])
          ≡ some (b ∷ newline ∷ [], at_start n))
unfolding write_file_lines chunk_loop blank write_line
write_file_lines-cut b n h = (ground (arith, h), ground (arith, h))
