-- ===== src/Sh/Parser/Quotes.antt =====
-- libmesabox/src/posix/sh/parser.rs: single quotes, and the text between double quotes.
use mesabox.Common.{ℕ, zero, suc, List, [], ◌∷◌, ◌++◌, length}
use mesabox.Common.Bytes.{Bytes, codes}
use mesabox.Sh.Parser.Defs.{
  no_fuel, Parsed, ok, err, panic, endless, and_then, or_else, with_kind, is_next, is_one_of,
  is_not, take_while_matches1, take_until_consuming_value0, in_single_quote,
}

-- The text: `Word::SingleQuote` is put around it by the caller.
unfoldable pub single_quote : Bytes → Parsed Bytes
unfolding is_next take_until_consuming_value0
single_quote input =
    with_kind in_single_quote
      (and_then (is_next (codes "'") input) λ u rest. take_until_consuming_value0 (codes "'") rest)

abbrev pub quote_stops : List Bytes
quote_stops = codes "\"" ∷ codes "$" ∷ codes "`" ∷ codes "\\" ∷ []

unfoldable pub not_stop : Bytes → Parsed (Unit {0})
unfolding is_not is_one_of
not_stop input = is_not (is_one_of quote_stops) input

-- One round: a backslash is `unimplemented!()`.
unfoldable pub text_piece : Bytes → Parsed Bytes
unfolding is_next not_stop take_while_matches1
text_piece input =
    or_else (and_then (is_next (codes "\\") input) λ u rest. panic)
      (take_while_matches1 not_stop input)

-- The rounds behind the first. A round takes a byte at least.
unfoldable pub text_loop : ℕ → Bytes → Bytes → Parsed Bytes
unfolding text_piece
text_loop zero result input = no_fuel
text_loop (suc fuel) result input = elim (text_piece input) [
  | ok s rest ↦ text_loop fuel (result ++ s) rest
  | err e ↦ ok result input
  | panic ↦ panic
  | endless ↦ endless
  | no_fuel ↦ no_fuel
]

unfoldable pub text_or_escape_seq : Bytes → Parsed Bytes
unfolding text_piece text_loop
text_or_escape_seq input =
    and_then (text_piece input) λ s rest. text_loop (suc (length rest)) s rest
