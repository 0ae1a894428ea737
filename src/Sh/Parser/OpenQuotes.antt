-- ===== src/Sh/Parser/OpenQuotes.antt =====
-- Double quotes that are not closed (libmesabox/src/posix/sh/parser.rs).
use mesabox.Common.{ℕ, Bool, false, ◌||◌, ◌≡◌, refl, ap, ◌∙◌, [], ◌∷◌, ◌++◌, All, ◌==◌, arith}
use mesabox.Common.Bytes.{Bytes, codes}
use mesabox.Sh.Ast.Words.{Word}
use mesabox.Sh.Parser.Defs
use mesabox.Sh.Parser.Defs.{
  is_next, item, in_word, in_double_quote, ParserErrorKind, Parsed, ok, err, panic, endless,
  take_loop,
}
use mesabox.Sh.Parser.Quotes.{not_stop, text_piece, text_or_escape_seq}
use mesabox.Sh.Parser.Params.{dollar}
use mesabox.Sh.Parser.Words.{quoted_part, quoted, substitution}
use mesabox.Sh.Parser.Steps.{
  is_next-ne, bind-err, bind-endless, attempt-endless, then-endless, else-err, kind-endless,
}
use mesabox.Sh.Parser.State.{Parser, Step}

abbrev is_stop : ℕ → Bool
is_stop c = c == b'"' || c == b'$' || c == b'`' || c == b'\\'

abbrev IsPlain : Bytes → Type 0
IsPlain s = All (λ c. is_stop c ≡ false) s

not_stop-plain : (c : ℕ) (s : Bytes) → is_stop c ≡ false → not_stop (c ∷ s) ≡ ok tt (c ∷ s)
unfolding not_stop
not_stop-plain c s h = ground arith

not_stop_end : not_stop [] ≡ ok tt []
unfolding not_stop
not_stop_end = refl

take_loop-endless : (buffer s : Bytes) → IsPlain s → take_loop not_stop buffer s ≡ endless
unfolding take_loop
take_loop-endless buffer [] h = ground (arith, not_stop_end)
take_loop-endless buffer (c ∷ s) h =
    ground (arith, not_stop-plain c s h.0, take_loop-endless (buffer ++ c ∷ []) s h.1)

text_piece-endless : (c : ℕ) (s : Bytes) → IsPlain (c ∷ s) → text_piece (c ∷ s) ≡ endless
unfolding text_piece
text_piece-endless c s h = ground (arith, not_stop-plain c s h.0, take_loop-endless (c ∷ []) s h.1)

text_or_escape_seq-endless :
    (c : ℕ) (s : Bytes) → IsPlain (c ∷ s) → text_or_escape_seq (c ∷ s) ≡ endless
unfolding text_or_escape_seq
text_or_escape_seq-endless c s h = rw (text_piece-endless c s h, Defs.and_then) refl

module _ {K : Type 0} (compound_list : Step K) (param_word : Step (Word K)) (p : Parser) where
  dollar-ne :
      (c : ℕ) (s : Bytes)
      → (c == b'$') ≡ false
      → dollar param_word p (c ∷ s) ≡ (p, err (item (codes "$") ∷ []))
  unfolding dollar
  dollar-ne c s h =
      bind-err p (p, is_next (codes "$") (c ∷ s)) _ _ (ap (λ r. (p, r)) (is_next-ne b'$' [] c s h))

  substitution-ne :
      (c : ℕ) (s : Bytes)
      → (c == b'$') ≡ false
      → (c == b'`') ≡ false
      → substitution compound_list p (c ∷ s) ≡ (p, err (item (codes "`") ∷ []))
  unfolding substitution
  substitution-ne c s h k =
      else-err p _ _ _ (
        bind-err p (p, is_next (codes "$(") (c ∷ s)) _ _
          (ap (λ r. (p, r)) (is_next-ne b'$' (codes "(") c s h)))
      ∙ bind-err p (p, is_next (codes "`") (c ∷ s)) _ _
          (ap (λ r. (p, r)) (is_next-ne b'`' [] c s k))

  quoted_part-endless :
      (c : ℕ) (s : Bytes)
      → IsPlain (c ∷ s)
      → quoted_part compound_list param_word p (c ∷ s) ≡ (p, endless)
  unfolding quoted_part
  quoted_part-endless c s h =
      else-err p _ _ _ (bind-err p (dollar param_word p (c ∷ s)) _ _ (dollar-ne c s (ground arith)))
      ∙ else-err p _ _ _ (
          bind-err p (substitution compound_list p (c ∷ s)) _ _
            (substitution-ne c s (ground arith) (ground arith)))
      ∙ ap (λ r. (p, r))
          (then-endless p (text_or_escape_seq (c ∷ s)) _ (text_or_escape_seq-endless c s h))

  -- A double quote with a text behind it up to the end of the input is never read, if the text is not
  -- empty and has no `"`, `$`, backtick or backslash: the loop over the text does not end.
  pub quoted-open :
      (c : ℕ) (s : Bytes)
      → IsPlain (c ∷ s)
      → quoted compound_list param_word p (b'"' ∷ c ∷ s) ≡ (p, endless)
  unfolding quoted
  quoted-open c s h =
      kind-endless p in_double_quote _
        (bind-endless p _ _ (attempt-endless p _ _ _ (quoted_part-endless c s h)))
