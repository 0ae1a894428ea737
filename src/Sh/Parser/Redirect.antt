-- ===== src/Sh/Parser/Redirect.antt =====
-- libmesabox/src/posix/sh/parser.rs: redirections. `word` is the parser of words.
use mesabox.Common.{
  ℕ, zero, suc, Bool, true, false, none, some, List, [], ◌∷◌, ◌++◌, length, get_elem?,
}
use mesabox.Common.Bytes.{Bytes, codes}
use mesabox.Sh.Ast.Redirects.{
  IoRedirectKind, input, dup_input, output, dup_output, read_write, append, clobber, IoRedirectFile,
  IoRedirect, file, heredoc,
}
use mesabox.Sh.Parser.Defs.{no_fuel, Parsed, ok, err, panic, endless, is_next, is_one_of}
use mesabox.Sh.Parser.Defs
use mesabox.Sh.Parser.Space.{ignore}
use mesabox.Sh.Parser.Names.{name, io_number}
use mesabox.Sh.Parser.State.{Parser, Step, attempt, and_then, or_else}

abbrev pub str_table : List Bytes
str_table =
    codes "<&" ∷ codes "<>" ∷ codes "<" ∷ codes ">&" ∷ codes ">>" ∷ codes ">|" ∷ codes ">" ∷ []

abbrev pub kind_table : List IoRedirectKind
kind_table = dup_input ∷ read_write ∷ input ∷ dup_output ∷ append ∷ clobber ∷ output ∷ []

-- The end marker: a name.
unfoldable pub here_end : Bytes → Parsed Bytes
unfolding name
here_end inp = name inp

-- A new here-document, empty until the next newline, and the marker that waits for its text.
unfoldable pub add_heredoc : Bytes → Bool → Parser → Parser
add_heredoc delim dash p = record p {
  heredoc_markers =
      p.heredoc_markers
      ++ (record { marker = delim; strip_tabs = dash; heredoc = length p.heredocs }) ∷ [];
  heredocs = p.heredocs ++ [] ∷ [];
}

unfoldable pub skip_dash : Bytes → Parsed Bool
unfolding is_next
skip_dash inp =
    Defs.or_else (Defs.and_then (is_next (codes "-") inp) λ u rest. ok true rest) (ok false inp)

unfoldable pub io_here : Step ℕ
unfolding is_next skip_dash ignore here_end add_heredoc
io_here p inp =
    and_then (p, is_next (codes "<<") inp)
      λ u p1 i1.
        and_then (p1, skip_dash i1)
          λ dash p2 i2.
            and_then (p2, ignore i2)
              λ u p3 i3.
                and_then (p3, here_end i3)
                  λ delim p4 i4. (add_heredoc delim dash p4, ok (length p4.heredocs) i4)

module _ {W : Type 0} (word : Step W) where
  -- `kind_table[idx]` panics if there is no such kind.
  unfoldable pub io_file : Step (IoRedirectFile W)
  unfolding is_one_of
  io_file p inp =
      and_then (p, is_one_of str_table inp)
        λ idx p1 i1. and_then (word p1 i1) λ w p2 i2. elim (get_elem? kind_table idx) [
          | some k ↦ (p2, ok (record { filename = w; kind = k }) i2)
          | none ↦ (p2, panic)
        ]

  unfoldable pub io_redirect : Step (IoRedirect W)
  unfolding io_number io_file io_here
  io_redirect p inp =
      and_then
        (p, Defs.or_else (Defs.and_then (io_number inp) λ n rest. ok (some n) rest) (ok none inp))
        λ num p1 i1.
          or_else (and_then (io_file p1 i1) λ f p2 i2. (p2, ok (file num f) i2))
            λ p2. and_then (io_here p2 i1) λ h p3 i3. (p3, ok (heredoc num h) i3)

-- The loop of `many_matches1` and `many_matches0`. A match takes a byte at least.
module _ {A : Type 0} (func : Step A) where
  unfoldable pub many_loop : ℕ → List A → Step (List A)
  many_loop zero result p inp = (p, no_fuel)
  many_loop (suc fuel) result p inp =
      attempt (func p inp) (λ value p' rest. many_loop fuel (result ++ value ∷ []) p' rest)
        (λ p'. (p', ok result inp))

  unfoldable pub many_matches0 : Step (List A)
  unfolding many_loop
  many_matches0 p inp = many_loop (suc (length inp)) [] p inp

  unfoldable pub many_matches1 : Step (List A)
  unfolding many_loop
  many_matches1 p inp =
      and_then (func p inp) λ first p' rest. many_loop (suc (length rest)) (first ∷ []) p' rest
