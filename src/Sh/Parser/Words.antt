-- ===== src/Sh/Parser/Words.antt =====
-- libmesabox/src/posix/sh/parser.rs: words. `compound_list`, the list of commands in a substitution, is
-- a parameter.
use mesabox.Common.{ℕ, zero, suc, Bool, true, false, Option, none, some, List, [], ◌∷◌, ◌++◌}
use mesabox.Common
use mesabox.Common.Bytes.{Bytes, codes}
use mesabox.Sh.Ast.Words.{
  Word, parameter, command_subst, single_quote, double_quote, simple, complex, to_words,
}
use mesabox.Sh.Parser.Defs.{
  no_fuel, Parsed, ok, err, panic, endless, ParserErrorKind, map_err, is_next, is_not,
  take_while_matches1, in_double_quote, in_word,
}
use mesabox.Sh.Parser.Defs
use mesabox.Sh.Parser.Space.{delimiter, ignore, line_continuation}
use mesabox.Sh.Parser.Names.{param_delimiter}
use mesabox.Sh.Parser.Quotes
use mesabox.Sh.Parser.Quotes.{text_or_escape_seq}
use mesabox.Sh.Parser.Params
use mesabox.Sh.Parser.State.{attempt, Step, and_then, or_else, with_kind}

-- `combine_simple_words`: the new `prev`, and `current` if it stays a part of its own.
unfoldable pub combine_simple_words : {K : Type 0} → Word K → Word K → Word K × Option (Word K)
combine_simple_words (simple cur_text) (simple prev_text) = (simple (prev_text ++ cur_text), none)
combine_simple_words current prev = (prev, some current)

-- The last branch of `word_part`: a backslash with the unit behind it, or the text up to a delimiter.
unfoldable pub escaped_unit : Bytes → Parsed Bytes
escaped_unit [] = ok (b'\\' ∷ []) []
escaped_unit (unit ∷ input) = ok (unit ∷ []) input

unfoldable pub simple_text : (Bytes → Parsed (Unit {0})) → Bytes → Parsed Bytes
unfolding is_not line_continuation is_next escaped_unit take_while_matches1
simple_text delim input = Defs.and_then (is_not line_continuation input) λ u start.
    Defs.or_else (Defs.and_then (is_next (codes "\\") start) λ u' rest. escaped_unit rest)
      (take_while_matches1 (is_not delim) start)

module _ {K : Type 0} (compound_list : Step K) where
  unfoldable pub command_subst_dollar : Step K
  unfolding is_next is_not ignore
  command_subst_dollar p input =
      and_then (p, is_next (codes "$(") input)
        λ u p1 i1.
          and_then (p1, is_not (is_next (codes "(")) i1)
            λ u p2 i2.
              and_then (p2, ignore i2)
                λ u p3 i3.
                  and_then (compound_list p3 i3)
                    λ cmd p4 i4. and_then (p4, is_next (codes ")") i4) λ u p5 i5. (p5, ok cmd i5)

  -- `unimplemented!()`
  unfoldable pub command_subst_backtick : Step K
  unfolding is_next
  command_subst_backtick p input = and_then (p, is_next (codes "`") input) λ u p' rest. (p', panic)

  unfoldable pub substitution : Step K
  unfolding command_subst_dollar command_subst_backtick
  substitution p input =
      or_else (command_subst_dollar p input) λ p'. command_subst_backtick p' input

  module _ (param_word : Step (Word K)) where
    unfoldable pub quoted_part : Step (Word K)
    unfolding Params.dollar substitution text_or_escape_seq
    quoted_part p input =
        or_else
          (and_then (Params.dollar param_word p input) λ e p' rest. (p', ok (parameter e) rest))
          λ p'.
            or_else
              (and_then (substitution p' input) λ c p'' rest. (p'', ok (command_subst c) rest))
              λ p''. (
                p'',
                Defs.and_then (text_or_escape_seq input) λ text rest. ok (single_quote text) rest,
              )

    -- The loop: a part takes a byte at least.
    unfoldable pub quoted_parts : ℕ → List (Word K) → Step (List (Word K))
    unfolding quoted_part
    quoted_parts zero parts p input = (p, no_fuel)
    quoted_parts (suc fuel) parts p input =
        attempt (quoted_part p input)
          (λ part p' rest. quoted_parts fuel (parts ++ part ∷ []) p' rest)
          (λ p'. (p', ok parts input))

    unfoldable pub quoted : Step (Word K)
    unfolding is_next quoted_parts
    quoted p input = with_kind in_double_quote (
        and_then (p, is_next (codes "\"") input)
          λ u p' rest.
            and_then (quoted_parts (suc (Common.length rest)) [] p' rest) λ parts p'' rest'.
              and_then (p'', is_next (codes "\"") rest')
                λ u p4 rest''. (p4, ok (double_quote (to_words parts)) rest''))

    unfoldable pub word_part : (Bytes → Parsed (Unit {0})) → Step (Word K)
    unfolding Quotes.single_quote quoted Params.dollar substitution simple_text
    word_part delim p input =
        or_else
          (p, Defs.and_then (Quotes.single_quote input) λ text rest. ok (single_quote text) rest)
          λ p1. or_else (quoted p1 input) λ p2.
            or_else
              (and_then (Params.dollar param_word p2 input)
                λ e p' rest. (p', ok (parameter e) rest))
              λ p3.
                or_else
                  (and_then (substitution p3 input) λ c p' rest. (p', ok (command_subst c) rest))
                  λ p4.
                    (p4, Defs.and_then (simple_text delim input) λ text rest. ok (simple text) rest)

    -- `next_word_part`: what has become of `prev`, and the next part, if there is one. A part takes a
    -- byte at least.
    unfoldable pub next_word_part :
        (Bytes → Parsed (Unit {0})) → ℕ → Word K → Step (Word K × Option (Word K))
    unfolding word_part combine_simple_words
    next_word_part delim zero prev p input = (p, no_fuel)
    next_word_part delim (suc fuel) prev p input =
        attempt (word_part delim p input)
          (λ part p' rest.
            let (prev', second) = combine_simple_words part prev in
            let later = next_word_part delim fuel prev' p' rest in
            elim second [ none ↦ later | some w ↦ (p', ok (prev', some w) rest) ])
          (λ p'. (p', ok (prev, none) input))

    -- The loop of `word_inner` over the parts behind the second. `complex` is `parts` and `last`. If
    -- there is no further part, the input is left where it was before the call, though `last` may have
    -- grown by text that the call has read.
    unfoldable pub complex_loop :
        (Bytes → Parsed (Unit {0})) → ℕ → List (Word K) → Word K → Step (Word K)
    unfolding next_word_part
    complex_loop delim zero parts last p input = (p, no_fuel)
    complex_loop delim (suc fuel) parts last p input =
        and_then (next_word_part delim (suc (Common.length input)) last p input)
          λ (last', part) p' rest. elim part [
            | some w ↦ complex_loop delim fuel (parts ++ last' ∷ []) w p' rest
            | none ↦ (p', ok (complex (to_words (parts ++ last' ∷ []))) input)
          ]

    unfoldable pub word_inner : (Bytes → Parsed (Unit {0})) → Step (Word K)
    unfolding word_part next_word_part complex_loop ignore
    word_inner delim p input = and_then (word_part delim p input) λ first p1 i1.
        and_then (next_word_part delim (suc (Common.length i1)) first p1 i1)
          λ (first', second) p2 i2.
            and_then
              (elim second [
                | some w ↦ complex_loop delim (suc (Common.length i2)) (first' ∷ []) w p2 i2
                | none ↦ (p2, ok first' i2)
              ])
              λ w p3 i3. (p3, Defs.and_then (ignore i3) λ u i4. ok w i4)

  -- A word stands inside another one only between braces, so the number of bytes is enough for the
  -- depth.
  unfoldable pub general_word : ℕ → (Bytes → Parsed (Unit {0})) → Step (Word K)
  unfolding word_inner param_delimiter
  general_word zero delim p input = (p, no_fuel)
  general_word (suc fuel) delim p input =
      with_kind in_word (word_inner (general_word fuel param_delimiter) delim p input)

  unfoldable pub word : Step (Word K)
  unfolding general_word delimiter
  word p input = general_word (suc (Common.length input)) delimiter p input
