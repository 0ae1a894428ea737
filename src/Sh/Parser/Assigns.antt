-- ===== src/Sh/Parser/Assigns.antt =====
-- Assignments and quoted words of libmesabox/src/posix/sh/parser.rs, from text that is built for them.
use mesabox.Common.{
  Option, none, append-nil, append_assoc, ℕ, suc, true, false, ◌≡◌, refl, ap, sym, ◌∙◌, some, [],
  ◌∷◌, ◌++◌, length, All, ◌==◌, arith,
}
use mesabox.Common.Bytes.{Bytes, codes}
use mesabox.Sh.Ast.Words
use mesabox.Sh.Ast.Words.{Word}
use mesabox.Sh.Parser.Defs
use mesabox.Sh.Parser.Defs.{Parsed, ok, is_next, in_word, take_until_loop, in_single_quote}
use mesabox.Sh.Parser.Space.{delimiter, ignore}
use mesabox.Sh.Parser.Names.{
  param_delimiter, is_name_start, is_name_unit, name_units, general_name, var_name,
}
use mesabox.Sh.Parser.Quotes
use mesabox.Sh.Parser.Words.{next_word_part, word_part, word_inner, general_word, word}
use mesabox.Sh.Parser.Simple.{assignment}
use mesabox.Sh.Parser.Steps.{bind-ok, else-ok, kind-ok}
use mesabox.Sh.Parser.State.{Parser, Step}

-- A text without single quotes, between two of them.
abbrev pub in_quotes : Bytes → Bytes → Bytes
in_quotes s rest = b'\'' ∷ s ++ b'\'' ∷ rest

abbrev pub IsQuotable : Bytes → Type 0
IsQuotable s = All (λ c. (c == b'\'') ≡ false) s

take_until_loop-quoted :
    (buffer s rest : Bytes)
    → IsQuotable s
    → take_until_loop (is_next (codes "'")) buffer (s ++ b'\'' ∷ rest) ≡ ok (buffer ++ s) rest
unfolding take_until_loop is_next
take_until_loop-quoted buffer [] rest h = ap (λ b. ok b rest) (sym (append-nil buffer))
take_until_loop-quoted buffer (c ∷ s) rest h =
    ground
      (arith, take_until_loop-quoted (buffer ++ c ∷ []) s rest h.1, append_assoc buffer (c ∷ []) s)

single_quote-quoted :
    (s rest : Bytes) → IsQuotable s → Quotes.single_quote (in_quotes s rest) ≡ ok s rest
unfolding Quotes.single_quote is_next
single_quote-quoted s rest h =
    ap (Defs.with_kind in_single_quote) (take_until_loop-quoted [] s rest h)

abbrev pub IsName : Bytes → Type 0
IsName s = All (λ c. is_name_unit c ≡ true) s

name_units_all :
    (n : Bytes) (rest : Bytes) → IsName n → name_units (n ++ b'=' ∷ rest) ≡ (n, b'=' ∷ rest)
unfolding name_units
name_units_all [] rest h = refl
name_units_all (c ∷ n) rest h = rw (name_units_all n rest h.1, h.0) refl

var_name_all :
    (c : ℕ) (n rest : Bytes)
    → is_name_start c ≡ true
    → IsName n
    → var_name (c ∷ n ++ b'=' ∷ rest) ≡ ok (c ∷ n) (b'=' ∷ rest)
unfolding var_name general_name
var_name_all c n rest h k = rw (name_units_all n rest k, h) refl

module _ {K : Type 0} (compound_list : Step K) (p : Parser) (s tail : Bytes)
    (h : IsQuotable s) where
  word_part-quoted :
      (param_word : Step (Word K)) (delim : Bytes → Parsed (Unit {0}))
      → word_part compound_list param_word delim p (in_quotes s tail)
        ≡ (p, ok (Words.single_quote s) tail)
  unfolding word_part
  word_part-quoted param_word delim =
      else-ok p
        (
          p,
          Defs.and_then (Quotes.single_quote (in_quotes s tail))
              λ text rest. ok (Words.single_quote text) rest,
        )
        _ _ _
        (ap (λ r. (p, Defs.and_then r λ text rest. ok (Words.single_quote text) rest))
          (single_quote-quoted s tail h))

-- What may stand behind a word.
pub data EndsWord : Bytes → Type 0 where
  end_of_input : EndsWord []
  newline : (s : Bytes) → EndsWord (b'\n' ∷ s)
  semicolon : (s : Bytes) → EndsWord (b';' ∷ s)
  bar : (s : Bytes) → EndsWord (b'|' ∷ s)

module _ {K : Type 0} (compound_list : Step K) (p : Parser) where
  no_word_part :
      (param_word : Step (Word K)) (w : Word K) (e : Bytes)
      → EndsWord e
      → next_word_part compound_list param_word delimiter (suc (length e)) w p e
        ≡ (p, ok (w, none) e)
  unfolding next_word_part
  no_word_part param_word w e end_of_input = refl
  no_word_part param_word w e (newline s) = refl
  no_word_part param_word w e (semicolon s) = refl
  no_word_part param_word w e (bar s) = refl

  ignore_end : (e : Bytes) → EndsWord e → ignore e ≡ ok tt e
  unfolding ignore
  ignore_end e end_of_input = refl
  ignore_end e (newline s) = refl
  ignore_end e (semicolon s) = refl
  ignore_end e (bar s) = refl

module _ {K : Type 0} (compound_list : Step K) (p : Parser) (s e : Bytes) (h : IsQuotable s)
    (k : EndsWord e) where
  word_inner-quoted :
      (param_word : Step (Word K))
      → word_inner compound_list param_word delimiter p (in_quotes s e)
        ≡ (p, ok (Words.single_quote s) e)
  unfolding word_inner
  word_inner-quoted param_word =
      bind-ok p (word_part compound_list param_word delimiter p (in_quotes s e)) _ _ _
        (word_part-quoted compound_list p s e h param_word delimiter)
      ∙ bind-ok p
          (next_word_part compound_list param_word delimiter (suc (length e)) (Words.single_quote s)
            p e)
          _ _ _ (no_word_part compound_list p param_word (Words.single_quote s) e k)
      ∙ ap (λ r. (p, Defs.and_then r λ u i4. ok (Words.single_quote s) i4))
          (ignore_end compound_list p e k)

  pub word-quoted : word compound_list p (in_quotes s e) ≡ (p, ok (Words.single_quote s) e)
  unfolding word general_word
  word-quoted =
      kind-ok p in_word _ _ _
        (word_inner-quoted (general_word compound_list (length (in_quotes s e)) param_delimiter))

  -- A name, an equals sign and a text between single quotes, with an end of a word behind them, are
  -- read as the assignment of that text to that name, if the text has no single quote; and that end is
  -- left.
  pub assignment-quoted :
      (text : Word K → Option Bytes) (c : ℕ) (n : Bytes)
      → is_name_start c ≡ true
      → IsName n
      → assignment (word compound_list) text p (c ∷ n ++ b'=' ∷ in_quotes s e)
        ≡ (p, ok (record { varname = c ∷ n; value = some (Words.single_quote s) }) e)
  unfolding assignment
  assignment-quoted text c n x y =
      bind-ok p (p, var_name (c ∷ n ++ b'=' ∷ in_quotes s e)) _ _ _
        (ap (λ r. (p, r)) (var_name_all c n (in_quotes s e) x y))
      ∙ else-ok p _ _ _ _ (bind-ok p (word compound_list p (in_quotes s e)) _ _ _ word-quoted)
