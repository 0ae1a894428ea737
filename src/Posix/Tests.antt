-- ===== src/Posix/Tests.antt =====
-- Examples for the theorems on libmesabox/src/posix.
use mesabox.Common.{
  List, none, ◌-◌, ◌≡◌, refl, some, true, false, [], ◌∷◌, ◌++◌, arith, concat, take, length,
}
use mesabox.Common.Bytes.{Bytes, codes}
use mesabox.Posix.Head.{
  write_lines_forward, write_lines_backward, write_bytes_backward, bytes, lines, handle_data,
}
use mesabox.Posix.Echo.Defs.{backslash, newline, write_str, execute, finished}
use mesabox.Posix.Echo.Escapes.{
  IsPlain, joined, stopped, tab, execute-plain, execute-stop, write_str-pair,
}
use mesabox.Posix.Cat.Defs.{
  OutputOptions, OutputState, number_all, write_file_lines, write_lines, can_write_fast, with_texts,
  chunk_loop, blank, number_text, write_line,
}
use mesabox.Posix.Cat.PerByte.{write_bytes}
use mesabox.Posix.Cat.Chunks.{write_file_lines-bytes}
use mesabox.Posix.Cat.Fast.{write_file_lines-fast}
use mesabox.Posix.Cat.Squeeze.{squeezing, at_start, write_file_lines-cut}
use mesabox.Posix.Head.Files.{
  file, standard_input, Input, opened, all_open, execute_files, shows_names, files_loop,
  execute_files-ends,
}
use mesabox.Posix.Head.Lines.{split_lines}
use mesabox.Posix.Head.Backward.{write_lines_backward_lem}
use mesabox.Posix.Head.BytesBackward.{write_bytes_backward_lem}

head_two_lines : write_lines_forward 2 (codes "a\nb\nc\n") ≡ (codes "a\nb\n", codes "c\n")
unfolding write_lines_forward
head_two_lines = refl

head_all_but_one : write_lines_backward 1 (codes "a\nb\nc") ≡ some (codes "a\nb\n")
unfolding write_lines_backward
head_all_but_one = refl

head_verbose :
    handle_data
      (codes "xyz")
      (some (codes "f"))
      (record { method = bytes 2 true; previous_printed = false })
    ≡ some (
      codes "==> f <==\nxy",
      codes "z",
      record { method = bytes 2 true; previous_printed = true },
    )
unfolding handle_data
head_verbose = refl

write_lines_backward_lem_example :
    write_lines_backward 1 (codes "a\nb")
    ≡ some (concat (take (length (split_lines (codes "a\nb")) - 1) (split_lines (codes "a\nb"))))
write_lines_backward_lem_example = write_lines_backward_lem 1 (codes "a\nb")

write_bytes_backward_lem_example :
    write_bytes_backward 1 (codes "abc") ≡ some (take (length (codes "abc") - 1) (codes "abc"))
write_bytes_backward_lem_example = write_bytes_backward_lem 1 (codes "abc")

-- echo
IsPlain-x : IsPlain (codes "x")
IsPlain-x = ((λ e. ground (arith, e)), tt)

execute-plain_example :
    execute (codes "x" ∷ codes "x" ∷ []) ≡ (codes "x" ++ joined (codes "x" ∷ []), true)
execute-plain_example = execute-plain (codes "x") (codes "x" ∷ []) IsPlain-x (IsPlain-x, tt)

execute-stop_example :
    execute
      (codes "x" ∷ (codes "x" ++ stopped ((tab, codes "x") ∷ []) (codes "y")) ∷ codes "z" ∷ [])
    ≡ (codes "x x\tx", true)
execute-stop_example =
    execute-stop (codes "x" ∷ []) (codes "x") ((tab, codes "x") ∷ []) (codes "y") (codes "z" ∷ [])
      (IsPlain-x, tt) IsPlain-x (IsPlain-x, tt)

write_str-pair_example :
    write_str (codes "x" ++ backslash ∷ backslash ∷ b'n' ∷ codes "x")
    ≡ (codes "x" ++ backslash ∷ newline ∷ codes "x", finished)
write_str-pair_example = write_str-pair (codes "x") (codes "x") IsPlain-x IsPlain-x

-- cat
abbrev plain_options : OutputOptions
plain_options = record squeezing { squeeze_blank = false }

write_file_lines-bytes_example :
    write_file_lines plain_options (at_start 1) (codes "a\nb" ∷ codes "\n" ∷ [])
    ≡ some (write_bytes plain_options (at_start 1) (concat (codes "a\nb" ∷ codes "\n" ∷ [])))
write_file_lines-bytes_example =
    write_file_lines-bytes plain_options (at_start 1) (codes "a\nb" ∷ codes "\n" ∷ []) refl

plain_options_fast : can_write_fast plain_options ≡ true
unfolding can_write_fast
plain_options_fast = refl

write_file_lines-fast_example :
    (st' : OutputState) × (write_file_lines
        (with_texts plain_options)
        (at_start 1)
        (codes "a\nb" ∷ codes "\n" ∷ [])
      ≡ some (concat (codes "a\nb" ∷ codes "\n" ∷ []), st'))
write_file_lines-fast_example =
    write_file_lines-fast plain_options (at_start 1) (codes "a\nb" ∷ codes "\n" ∷ [])
      plain_options_fast

write_file_lines-cut_example :
    (write_file_lines squeezing (at_start 1) ((b'a' ∷ newline ∷ newline ∷ []) ∷ [])
      ≡ some (b'a' ∷ newline ∷ newline ∷ [], at_start 1))
    × (write_file_lines squeezing (at_start 1) ((b'a' ∷ []) ∷ (newline ∷ newline ∷ []) ∷ [])
        ≡ some (b'a' ∷ newline ∷ [], at_start 1))
write_file_lines-cut_example = write_file_lines-cut b'a' 1 refl

cat_numbers :
    write_lines
      (record plain_options { number = number_all })
      ((codes "a\n\n" ∷ []) ∷ (codes "b\n" ∷ []) ∷ [])
    ≡ some (codes "     1\ta\n     2\t\n     3\tb\n")
unfolding write_lines chunk_loop blank write_line number_text
cat_numbers = refl

abbrev three_inputs : List Input
three_inputs =
    file (codes "f") (some (codes "a\nb\n")) ∷ file (codes "g") none ∷ standard_input ∷ []

execute_files-ends_example :
    (out : Bytes) × (files_loop
        (shows_names three_inputs false false)
        (opened three_inputs)
        (codes "c")
        (record { method = lines 1 true; previous_printed = false })
      ≡ some (out, true))
    × (execute_files three_inputs false false (codes "c") (lines 1 true)
        ≡ some (out, all_open three_inputs))
execute_files-ends_example = execute_files-ends three_inputs false false (codes "c") (lines 1 true)

head_three :
    execute_files three_inputs false false (codes "c") (lines 1 true)
    ≡ some (codes "==> f <==\na\n\n==> standard input <==\nc", false)
unfolding execute_files shows_names files_loop handle_data
head_three = refl
