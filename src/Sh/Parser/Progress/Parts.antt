-- ===== src/Sh/Parser/Progress/Parts.antt =====
-- The parts of words of libmesabox/src/posix/sh/parser.rs. The words in braces and the commands of
-- substitutions are shorter than the word that they stand in.
use mesabox.Common.{ℕ, zero, suc, ◌≤◌, ◌<◌, List, [], ◌∷◌, ◌++◌, refl, arith}
use mesabox.Common.{length}
use mesabox.Common.Bytes.{Bytes, codes}
use mesabox.Sh.Ast.Words.{
  Word, parameter, command_subst, single_quote, double_quote, simple, to_words,
}
use mesabox.Sh.Parser.Defs
use mesabox.Sh.Parser.Defs.{
  endless, no_fuel, Parsed, ok, err, panic, in_double_quote, in_word, is_next, is_not,
  take_while_matches1,
}
use mesabox.Sh.Parser.Space.{ignore, line_continuation}
use mesabox.Sh.Parser.Params
use mesabox.Sh.Parser.State
use mesabox.Sh.Parser.State.{Parser, Step}
use mesabox.Sh.Parser.Words.{
  escaped_unit, simple_text, command_subst_dollar, command_subst_backtick, substitution,
  quoted_part, quoted_parts, quoted, word_part,
}
use mesabox.Sh.Parser.Progress.Base.{
  Within, Keeps, Left-refl, and_then-Within, or_else-Within, weaken-Within, and_then-Keeps,
  or_else-Keeps, attempt-Keeps, with_kind-Keeps, lift-Keeps, ok-Keeps,
}
use mesabox.Sh.Parser.Progress.Space.{is_next-Within, ignore-Within, line_continuation-Within}
use mesabox.Sh.Parser.Progress.Matches.{
  is_not-Within, take_while_matches1-Within, single_quote-Within, text_or_escape_seq-Within,
}
use mesabox.Sh.Parser.Progress.Params.{dollar-Keeps}

escaped_unit-Within : (input : Bytes) → Within 0 input (escaped_unit input)
unfolding escaped_unit
escaped_unit-Within [] = Left-refl []
escaped_unit-Within (c ∷ input) = (c ∷ [], refl, omega arith)

abbrev pub IsDelim : (Bytes → Parsed (Unit {0})) → Type 0
IsDelim delim = (i : Bytes) → Within 0 i (delim i)

simple_text-Within :
    (delim : Bytes → Parsed (Unit {0})) (input : Bytes)
    → IsDelim delim
    → Within 1 input (simple_text delim input)
unfolding simple_text
simple_text-Within delim input d =
    and_then-Within 0 1 1 input (is_not line_continuation input) _ (omega arith)
      (is_not-Within line_continuation
        (λ i. weaken-Within 1 0 i (line_continuation i) (omega arith) (line_continuation-Within i))
        input)
      (λ u i1 le1.
        or_else-Within 1 i1 _ _
          (and_then-Within 1 0 1 i1 (is_next (codes "\\") i1) _ (omega arith)
            (is_next-Within (codes "\\") i1 (omega arith)) (λ u' i2 le2. escaped_unit-Within i2))
          (take_while_matches1-Within (is_not delim) (is_not-Within delim d) i1))

module _ {K : Type 0} (compound_list : Step K) (bound : ℕ)
    (lists : (p : Parser) (i : Bytes) → length i < bound → Keeps 0 p i (compound_list p i)) where
  command_subst_dollar-Keeps :
      (p : Parser) (input : Bytes)
      → length input ≤ bound
      → Keeps 1 p input (command_subst_dollar compound_list p input)
  unfolding command_subst_dollar
  command_subst_dollar-Keeps p input h =
      and_then-Keeps 1 0 1 p input (p, is_next (codes "$(") input) _ (omega arith)
        (lift-Keeps 1 p input _ (is_next-Within (codes "$(") input (omega arith)))
        (λ u p1 i1 le1.
          and_then-Keeps 0 0 0 p1 i1 (p1, is_not (is_next (codes "(")) i1) _ (omega arith)
            (lift-Keeps 0 p1 i1 _ (
              is_not-Within (is_next (codes "("))
                (λ i.
                  weaken-Within 1 0 i (is_next (codes "(") i) (omega arith)
                    (is_next-Within (codes "(") i (omega arith)))
                i1))
            (λ u p2 i2 le2.
              and_then-Keeps 0 0 0 p2 i2 (p2, ignore i2) _ (omega arith)
                (lift-Keeps 0 p2 i2 _ (ignore-Within i2))
                (λ u p3 i3 le3.
                  and_then-Keeps 0 0 0 p3 i3 (compound_list p3 i3) _ (omega arith)
                    (lists p3 i3 (omega arith))
                    (λ cmd p4 i4 le4.
                      and_then-Keeps 1 0 0 p4 i4 (p4, is_next (codes ")") i4) _ (omega arith)
                        (lift-Keeps 1 p4 i4 _ (is_next-Within (codes ")") i4 (omega arith)))
                        (λ u p5 i5 le5. ok-Keeps p5 i5 cmd)))))

  substitution-Keeps :
      (p : Parser) (input : Bytes)
      → length input ≤ bound
      → Keeps 1 p input (substitution compound_list p input)
  unfolding substitution command_subst_backtick
  substitution-Keeps p input h =
      or_else-Keeps 1 p input _ _ (command_subst_dollar-Keeps p input h) (λ p'.
        and_then-Keeps 1 0 1 p' input (p', is_next (codes "`") input) _ (omega arith)
          (lift-Keeps 1 p' input _ (is_next-Within (codes "`") input (omega arith)))
          (λ u p'' rest le. lift-Keeps {A = K} 0 p'' rest panic tt))

  module _ (param_word : Step (Word K))
      (shorter : (p : Parser) (i : Bytes) → length i < bound → Keeps 1 p i (param_word p i)) where
    -- An expansion or a substitution as a word.
    dollar_word :
        (p : Parser) (input : Bytes)
        → length input ≤ bound
        → Keeps 1 p input (
            State.and_then
              (Params.dollar param_word p input)
              λ e p' rest. (p', ok (parameter e) rest))
    dollar_word p input h =
        and_then-Keeps 1 0 1 p input _ _ (omega arith)
          (dollar-Keeps param_word bound shorter p input h)
          (λ e p' rest le. ok-Keeps p' rest (parameter e))

    subst_word :
        (p : Parser) (input : Bytes)
        → length input ≤ bound
        → Keeps 1 p input (
            State.and_then
              (substitution compound_list p input)
              λ c p' rest. (p', ok (command_subst c) rest))
    subst_word p input h =
        and_then-Keeps 1 0 1 p input _ _ (omega arith) (substitution-Keeps p input h)
          (λ c p' rest le. ok-Keeps p' rest (command_subst c))

    text_word :
        (f : Bytes → Word K) (p : Parser) (input : Bytes) (r : Parsed Bytes)
        → Within 1 input r
        → Keeps 1 p input (p, Defs.and_then r λ text rest. ok (f text) rest)
    text_word f p input r w =
        lift-Keeps 1 p input _
          (and_then-Within 1 0 1 input r _ (omega arith) w (λ text rest le. Left-refl rest))

    quoted_part-Keeps :
        (p : Parser) (input : Bytes)
        → length input ≤ bound
        → Keeps 1 p input (quoted_part compound_list param_word p input)
    unfolding quoted_part
    quoted_part-Keeps p input h = or_else-Keeps 1 p input _ _ (dollar_word p input h) (λ p1.
        or_else-Keeps 1 p1 input _ _ (subst_word p1 input h)
          (λ p2. text_word single_quote p2 input _ (text_or_escape_seq-Within input)))

    quoted_parts-Keeps :
        (fuel : ℕ) (parts : List (Word K)) (p : Parser) (input : Bytes)
        → length input < fuel
        → length input ≤ bound
        → Keeps 0 p input (quoted_parts compound_list param_word fuel parts p input)
    unfolding quoted_parts
    quoted_parts-Keeps zero parts p input h b = absurd (omega arith)
    quoted_parts-Keeps (suc fuel) parts p input h b =
        attempt-Keeps 1 0 0 p input _ _ _ (omega arith) (quoted_part-Keeps p input b)
          (λ part p1 i1 le.
            quoted_parts-Keeps fuel (parts ++ part ∷ []) p1 i1 (omega arith) (omega arith))
          (λ p1. ok-Keeps p1 input parts)

    quoted-Keeps :
        (p : Parser) (input : Bytes)
        → length input ≤ bound
        → Keeps 1 p input (quoted compound_list param_word p input)
    unfolding quoted
    quoted-Keeps p input h = with_kind-Keeps 1 p input in_double_quote _ (
        and_then-Keeps 1 0 1 p input (p, is_next (codes "\"") input) _ (omega arith)
          (lift-Keeps 1 p input _ (is_next-Within (codes "\"") input (omega arith)))
          (λ u p1 i1 le1.
            and_then-Keeps 0 0 0 p1 i1 _ _ (omega arith)
              (quoted_parts-Keeps (suc (length i1)) [] p1 i1 (omega arith) (omega arith))
              (λ parts p2 i2 le2.
                and_then-Keeps 1 0 0 p2 i2 (p2, is_next (codes "\"") i2) _ (omega arith)
                  (lift-Keeps 1 p2 i2 _ (is_next-Within (codes "\"") i2 (omega arith)))
                  (λ u p3 i3 le3. ok-Keeps p3 i3 (double_quote (to_words parts))))))

    module _ (delim : Bytes → Parsed (Unit {0})) (d : IsDelim delim) where
      pub word_part-Keeps :
          (p : Parser) (input : Bytes)
          → length input ≤ bound
          → Keeps 1 p input (word_part compound_list param_word delim p input)
      unfolding word_part
      word_part-Keeps p input h =
          or_else-Keeps 1 p input _ _ (text_word single_quote p input _ (single_quote-Within input))
            (λ p1. or_else-Keeps 1 p1 input _ _ (quoted-Keeps p1 input h) (λ p2.
              or_else-Keeps 1 p2 input _ _ (dollar_word p2 input h) (λ p3.
                or_else-Keeps 1 p3 input _ _ (subst_word p3 input h)
                  (λ p4. text_word simple p4 input _ (simple_text-Within delim input d)))))
