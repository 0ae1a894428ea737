-- ===== src/Sh/Parser/Progress/Matches.antt =====
-- The parsers of libmesabox/src/posix/sh/parser.rs that take another one, and the quotes made of them.
use mesabox.Common.{ℕ, ◌+◌, ◌≤◌, ◌<◌, [], ◌∷◌, ◌++◌, length, zero, suc, refl, arith}
use mesabox.Common.Bytes.{Bytes, codes}
use mesabox.Sh.Parser.Defs
use mesabox.Sh.Parser.Defs.{
  unexpected, in_single_quote, ParserErrorKind, Parsed, ok, err, panic, endless, no_fuel, is_next,
  is_one_of, is_not, take_loop, take_first, take_while_matches1, take_until_loop,
  take_until_consuming_value0,
}
use mesabox.Sh.Parser.Quotes.{
  single_quote, quote_stops, not_stop, text_piece, text_loop, text_or_escape_seq,
}
use mesabox.Sh.Parser.Progress.Base.{
  Within, Left-refl, Left-length, extend-Within, and_then-Within, or_else-Within, map_err-Within,
  weaken-Within,
}
use mesabox.Sh.Parser.Progress.Space.{is_next-Within, is_one_of-Within}

-- The parsers that take another one, `func`, which never lacks fuel.
module _ {R : Type 0} (func : Bytes → Parsed R) (good : (i : Bytes) → Within 0 i (func i)) where
  pub is_not-Within : (input : Bytes) → Within 0 input (is_not func input)
  unfolding is_not
  is_not-Within input = not_step (func input) (good input)
    where
      not_step :
          (r : Parsed R)
          → Within 0 input r
          → Within 0 input (elim r [
            | ok a rest ↦ err (unexpected ∷ [])
            | err e ↦ ok tt input
            | panic ↦ panic
            | endless ↦ endless
            | no_fuel ↦ no_fuel
          ])
      not_step (ok a rest) w = tt
      not_step (err e) w = Left-refl input
      not_step panic w = tt
      not_step endless w = tt
      not_step no_fuel w = w

  take_loop-Within : (buffer input : Bytes) → Within 0 input (take_loop func buffer input)
  unfolding take_loop
  take_loop-Within buffer [] = end_step (func []) (good [])
    where
      end_step :
          (r : Parsed R)
          → Within 0 [] r
          → Within 0 [] (elim r [
            | ok a rest ↦ endless
            | err e ↦ ok buffer []
            | panic ↦ panic
            | endless ↦ endless
            | no_fuel ↦ no_fuel
          ])
      end_step (ok a rest) w = tt
      end_step (err e) w = Left-refl []
      end_step panic w = tt
      end_step endless w = tt
      end_step no_fuel w = w
  take_loop-Within buffer (c ∷ input) = take_step (func (c ∷ input)) (good (c ∷ input)) (
      extend-Within 1 0 0 input (c ∷ input) (take_loop func (buffer ++ c ∷ []) input) (omega arith)
        (c ∷ [], refl, omega arith) (take_loop-Within (buffer ++ c ∷ []) input))
    where
      take_step :
          (r : Parsed R)
          → Within 0 (c ∷ input) r
          → Within 0 (c ∷ input) (take_loop func (buffer ++ c ∷ []) input)
          → Within 0 (c ∷ input) (elim r [
            | ok a rest ↦ take_loop func (buffer ++ c ∷ []) input
            | err e ↦ ok buffer (c ∷ input)
            | panic ↦ panic
            | endless ↦ endless
            | no_fuel ↦ no_fuel
          ])
      take_step (ok a rest) w later = later
      take_step (err e) w later = Left-refl (c ∷ input)
      take_step panic w later = tt
      take_step endless w later = tt
      take_step no_fuel w later = w

  take_first-Within : (input : Bytes) → Within 1 input (take_first func input)
  unfolding take_first
  take_first-Within [] = tt
  take_first-Within (c ∷ input) =
      extend-Within 1 0 1 input (c ∷ input) (take_loop func (c ∷ []) input) (omega arith)
        (c ∷ [], refl, omega arith) (take_loop-Within (c ∷ []) input)

  pub take_while_matches1-Within : (input : Bytes) → Within 1 input (take_while_matches1 func input)
  unfolding take_while_matches1
  take_while_matches1-Within input = while_step (func input) (good input)
    where
      while_step :
          (r : Parsed R)
          → Within 0 input r
          → Within 1 input (Defs.and_then r λ a rest. take_first func input)
      while_step (ok a rest) w = take_first-Within input
      while_step (err e) w = tt
      while_step panic w = tt
      while_step endless w = tt
      while_step no_fuel w = w

  pub take_until_loop-Within :
      (buffer input : Bytes) → Within 0 input (take_until_loop func buffer input)
  unfolding take_until_loop
  take_until_loop-Within buffer [] = end_step (func []) (good [])
    where
      end_step :
          (r : Parsed R)
          → Within 0 [] r
          → Within 0 [] (elim r [
            | ok a rest ↦ ok buffer rest
            | err e ↦ ok buffer []
            | panic ↦ panic
            | endless ↦ endless
            | no_fuel ↦ no_fuel
          ])
      end_step (ok a rest) w = w
      end_step (err e) w = Left-refl []
      end_step panic w = tt
      end_step endless w = tt
      end_step no_fuel w = w
  take_until_loop-Within buffer (c ∷ input) = until_step (func (c ∷ input)) (good (c ∷ input)) (
      extend-Within 1 0 0 input (c ∷ input) (take_until_loop func (buffer ++ c ∷ []) input)
        (omega arith) (c ∷ [], refl, omega arith) (take_until_loop-Within (buffer ++ c ∷ []) input))
    where
      until_step :
          (r : Parsed R)
          → Within 0 (c ∷ input) r
          → Within 0 (c ∷ input) (take_until_loop func (buffer ++ c ∷ []) input)
          → Within 0 (c ∷ input) (elim r [
            | ok a rest ↦ ok buffer rest
            | err e ↦ take_until_loop func (buffer ++ c ∷ []) input
            | panic ↦ panic
            | endless ↦ endless
            | no_fuel ↦ no_fuel
          ])
      until_step (ok a rest) w later = w
      until_step (err e) w later = later
      until_step panic w later = tt
      until_step endless w later = tt
      until_step no_fuel w later = w

pub single_quote-Within : (input : Bytes) → Within 1 input (single_quote input)
unfolding single_quote take_until_consuming_value0
single_quote-Within input =
    map_err-Within 1 input (λ e. e ++ in_single_quote ∷ [])
      (Defs.and_then (is_next (codes "'") input)
        λ u rest. take_until_consuming_value0 (codes "'") rest)
      (and_then-Within 1 0 1 input (is_next (codes "'") input)
        (λ u rest. take_until_consuming_value0 (codes "'") rest) (omega arith)
        (is_next-Within (codes "'") input (omega arith))
        (λ u rest h.
          take_until_loop-Within (is_next (codes "'"))
            (λ i.
              weaken-Within 1 0 i (is_next (codes "'") i) (omega arith)
                (is_next-Within (codes "'") i (omega arith)))
            [] rest))

not_stop-Within : (input : Bytes) → Within 0 input (not_stop input)
unfolding not_stop
not_stop-Within input =
    is_not-Within (is_one_of quote_stops)
      (λ i.
        weaken-Within 1 0 i (is_one_of quote_stops i) (omega arith)
          (is_one_of-Within quote_stops i (omega arith)))
      input

text_piece-Within : (input : Bytes) → Within 1 input (text_piece input)
unfolding text_piece
text_piece-Within input =
    or_else-Within 1 input (Defs.and_then (is_next (codes "\\") input) λ u rest. panic)
      (take_while_matches1 not_stop input)
      (and_then-Within 1 0 1 input (is_next (codes "\\") input) (λ u rest. panic) (omega arith)
        (is_next-Within (codes "\\") input (omega arith)) (λ u rest h. tt))
      (take_while_matches1-Within not_stop not_stop-Within input)

text_loop-Within :
    (fuel : ℕ) (result input : Bytes)
    → length input < fuel
    → Within 0 input (text_loop fuel result input)
unfolding text_loop
text_loop-Within zero result input h = absurd (omega arith)
text_loop-Within (suc fuel) result input h =
    text_step (text_piece input) (text_piece-Within input)
      (λ s rest le. text_loop-Within fuel (result ++ s) rest (omega arith))
  where
    text_step :
        (r : Parsed Bytes)
        → Within 1 input r
        → ((s rest : Bytes)
            → length rest + 1 ≤ length input
            → Within 0 rest (text_loop fuel (result ++ s) rest))
        → Within 0 input (elim r [
          | ok s rest ↦ text_loop fuel (result ++ s) rest
          | err e ↦ ok result input
          | panic ↦ panic
          | endless ↦ endless
          | no_fuel ↦ no_fuel
        ])
    text_step (ok s rest) w later =
        extend-Within 1 0 0 rest input (text_loop fuel (result ++ s) rest) (omega arith) w
          (later s rest (Left-length 1 rest input w))
    text_step (err e) w later = Left-refl input
    text_step panic w later = tt
    text_step endless w later = tt
    text_step no_fuel w later = w

pub text_or_escape_seq-Within : (input : Bytes) → Within 1 input (text_or_escape_seq input)
unfolding text_or_escape_seq
text_or_escape_seq-Within input =
    and_then-Within 1 0 1 input (text_piece input) (λ s rest. text_loop (suc (length rest)) s rest)
      (omega arith) (text_piece-Within input)
      (λ s rest h. text_loop-Within (suc (length rest)) s rest (omega arith))
