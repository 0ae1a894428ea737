-- ===== src/Sh/Parser/Space.antt =====
-- libmesabox/src/posix/sh/parser.rs: blanks, comments, line continuations and the delimiters of
-- words, with the tokens and keywords that end at them.
use mesabox.Common.{zero, suc, ℕ, List, [], ◌∷◌, length}
use mesabox.Common.Bytes.{Bytes, codes}
use mesabox.Sh.Parser.Defs.{
  no_fuel, Parsed, ok, and_then, or_else, only_kind, is_next, is_one_of, skip_values_many,
  skip_until_matches, token, keyword,
}

unfoldable pub newline : Bytes → Parsed (Unit {0})
unfolding is_next
newline input = is_next (codes "\n") input

abbrev pub blanks : List Bytes
blanks = codes " " ∷ codes "\t" ∷ []

unfoldable pub skip_space0 : Bytes → Bytes
unfolding skip_values_many
skip_space0 input = skip_values_many blanks input

unfoldable pub skip_space1 : Bytes → Parsed (Unit {0})
unfolding is_one_of skip_values_many
skip_space1 input =
    and_then (is_one_of blanks input) λ idx rest. ok tt (skip_values_many blanks rest)

unfoldable pub line_continuation : Bytes → Parsed (Unit {0})
unfolding is_next newline
line_continuation input = and_then (is_next (codes "\\") input) λ u rest. newline rest

unfoldable pub comment : Bytes → Parsed (Unit {0})
unfolding is_next newline skip_until_matches
comment input =
    and_then (is_next (codes "#") input) λ u rest. ok tt (skip_until_matches newline rest)

abbrev pub operators : List Bytes
operators =
    codes "|"
    ∷ codes "&"
    ∷ codes ";"
    ∷ codes "<"
    ∷ codes ">"
    ∷ codes "("
    ∷ codes ")"
    ∷ codes "$"
    ∷ codes "`"
    ∷ codes "\\"
    ∷ codes "\""
    ∷ codes "'"
    ∷ []

-- An operator or a newline, which is not taken from the input.
unfoldable pub op : Bytes → Parsed (Unit {0})
unfolding is_one_of newline
op input =
    or_else (and_then (is_one_of operators input) λ idx rest. ok tt input)
      (and_then (newline input) λ u rest. ok tt input)

-- Each call of itself takes a byte at least, so one call more than there are bytes is enough.
unfoldable pub delimiter_loop : ℕ → Bytes → Parsed (Unit {0})
unfolding skip_space1 line_continuation comment
delimiter_loop fuel [] = ok tt []
delimiter_loop zero (c ∷ input) = no_fuel
delimiter_loop (suc fuel) (c ∷ input) =
    let start = c ∷ input in
    and_then (or_else (skip_space1 start) (or_else (line_continuation start) (comment start)))
      λ u rest. or_else (delimiter_loop fuel rest) (ok tt rest)

unfoldable pub delimiter_no_op : Bytes → Parsed (Unit {0})
unfolding delimiter_loop
delimiter_no_op input = delimiter_loop (suc (length input)) input

unfoldable pub delimiter : Bytes → Parsed (Unit {0})
unfolding delimiter_no_op op
delimiter input = or_else (delimiter_no_op input) (op input)

-- Blanks, then a line continuation and all of this again, or a comment, or nothing.
unfoldable pub ignore_loop : ℕ → Bytes → Parsed (Unit {0})
unfolding skip_space0 line_continuation comment
ignore_loop zero input = no_fuel
ignore_loop (suc fuel) input =
    let start = skip_space0 input in
    or_else (and_then (line_continuation start) λ u rest. ignore_loop fuel rest)
      (or_else (comment start) (ok tt start))

unfoldable pub ignore : Bytes → Parsed (Unit {0})
unfolding ignore_loop
ignore input = ignore_loop (suc (length input)) input

unfoldable pub is_token : Bytes → Bytes → Parsed (Unit {0})
unfolding is_next ignore
is_token tok input = only_kind (token tok) (and_then (is_next tok input) λ u rest. ignore rest)

unfoldable pub is_keyword : Bytes → Bytes → Parsed (Unit {0})
unfolding is_next delimiter
is_keyword word input =
    only_kind (keyword word) (and_then (is_next word input) λ u rest. delimiter rest)
