-- ===== src/Sh/Parser/Separators.antt =====
-- Separators without a command behind them, and digits before redirections, in
-- libmesabox/src/posix/sh/parser.rs.
use mesabox.Common.{none, ℕ, suc, ◌-◌, true, ◌≡◌, refl, ap, ◌∙◌, Option, some, [], ◌∷◌, ◌++◌}
use mesabox.Common.Bytes.{Bytes, codes}
use mesabox.Common.Number.{is_digit}
use mesabox.Sh.Ast.Syntax.{Command, Chain, PostAction}
use mesabox.Sh.Ast.Redirects.{IoRedirect, file, output}
use mesabox.Sh.Ast.Words
use mesabox.Sh.Ast.Words.{Word}
use mesabox.Sh.Parser.Defs
use mesabox.Sh.Parser.Defs.{Errors, is_one_of, ok, err, unexpected, in_word, in_simple_command}
use mesabox.Sh.Parser.State
use mesabox.Sh.Parser.State.{Parser, Step}
use mesabox.Sh.Parser.Steps.{bind-ok, bind-err, else-ok}
use mesabox.Sh.Parser.Names.{io_number}
use mesabox.Sh.Parser.Space.{delimiter, ignore}
use mesabox.Sh.Parser.Lines.{separator_op}
use mesabox.Sh.Parser.Redirect.{io_file, io_redirect}
use mesabox.Sh.Parser.Words.{word}
use mesabox.Sh.Parser.Simple.{post_action}
use mesabox.Sh.Parser.Lists.{list_loop, and_or_chain, list}
use mesabox.Sh.Parser.Grammar.{command}
use mesabox.Sh.Parser.Assigns.{in_quotes, IsQuotable, EndsWord, word-quoted}

-- The separators of lists.
pub data IsSeparator : ℕ → Type 0 where
  semicolon : IsSeparator b';'
  ampersand : IsSeparator b'&'

module _ {W R : Type 0} (command : Step (Command W R)) (p0 p : Parser) where
  list-fails :
      (input rest : Bytes) (sep : ℕ) (c : Chain W R) (e : Errors)
      → IsSeparator sep
      → and_or_chain command p0 input ≡ (p, ok c (sep ∷ b'\n' ∷ rest))
      → and_or_chain command p (b'\n' ∷ rest) ≡ (p, err e)
      → list command p0 input ≡ (p, err e)
  unfolding list list_loop separator_op is_one_of ignore
  list-fails input rest _ c e semicolon h k =
      bind-ok p (and_or_chain command p0 input) _ _ _ h
      ∙ bind-err p _ _ _ (bind-err p (and_or_chain command p (b'\n' ∷ rest)) _ _ k)
  list-fails input rest _ c e ampersand h k =
      bind-ok p (and_or_chain command p0 input) _ _ _ h
      ∙ bind-err p _ _ _ (bind-err p (and_or_chain command p (b'\n' ∷ rest)) _ _ k)

module _ {K : Type 0} (subst : Step K) (fuel : ℕ) (p : Parser) where
  abbrev no_word : {A : Type 0} → Parser × Defs.Parsed A
  no_word = (p, err (unexpected ∷ in_word ∷ in_simple_command ∷ []))

  and_or_chain-newline :
      (rest : Bytes) → and_or_chain (command subst (suc fuel)) p (b'\n' ∷ rest) ≡ no_word
  unfolding and_or_chain command
  and_or_chain-newline rest = refl

  -- A list with a separator and a newline behind its first chain is not parsed: the separator asks for a
  -- command in the same line, so `a;` and `a &` at the end of a line are errors.
  pub list-separator :
      (input rest : Bytes) (sep : ℕ) (p0 : Parser) (c : Chain (Word K) (IoRedirect (Word K)))
      → IsSeparator sep
      → and_or_chain (command subst (suc fuel)) p0 input ≡ (p, ok c (sep ∷ b'\n' ∷ rest))
      → list (command subst (suc fuel)) p0 input ≡ no_word
  list-separator input rest sep p0 c s h =
      list-fails (command subst (suc fuel)) p0 p input rest sep c
        (unexpected ∷ in_word ∷ in_simple_command ∷ []) s h (and_or_chain-newline rest)

module _ {K : Type 0} (compound_list : Step K) (p : Parser) where
  io_number-blank :
      (d : ℕ) (rest : Bytes)
      → is_digit d ≡ true
      → io_number (d ∷ codes " >" ++ rest) ≡ ok (d - b'0') (b'>' ∷ rest)
  unfolding io_number delimiter ignore
  io_number-blank d rest h = rw h refl

  io_file-quoted :
      (s e : Bytes)
      → IsQuotable s
      → EndsWord e
      → io_file (word compound_list) p (b'>' ∷ in_quotes s e)
        ≡ (p, ok (record { filename = Words.single_quote s; kind = output }) e)
  unfolding io_file is_one_of
  io_file-quoted s e h k =
      bind-ok p (word compound_list p (in_quotes s e)) _ _ _ (word-quoted compound_list p s e h k)

  io_redirect-digit :
      (d : ℕ) (s e : Bytes)
      → is_digit d ≡ true
      → IsQuotable s
      → EndsWord e
      → io_redirect (word compound_list) p (d ∷ codes " >" ++ in_quotes s e) ≡ (
        p,
        ok (file (some (d - b'0')) (record { filename = Words.single_quote s; kind = output })) e,
      )
  unfolding io_redirect
  io_redirect-digit d s e h k l =
      bind-ok p
        (
          p,
          Defs.or_else
              (Defs.and_then (io_number (d ∷ codes " >" ++ in_quotes s e))
                λ n rest. ok (some n) rest)
              (ok none (d ∷ codes " >" ++ in_quotes s e)),
        )
        _ _ _
        (ap
          (λ r. (
            p,
            Defs.or_else (Defs.and_then r λ n rest. ok (some n) rest)
                (ok none (d ∷ codes " >" ++ in_quotes s e)),
          ))
          (io_number-blank d (in_quotes s e) h))
      ∙ else-ok p _ _ _ _ (
          bind-ok p (io_file (word compound_list) p (b'>' ∷ in_quotes s e)) _ _ _
            (io_file-quoted s e k l))

  -- Behind the name of a command, a digit, a blank, `>` and a text between single quotes, with an end of
  -- a word behind them, are the redirection of that descriptor to the file of that name, though the digit
  -- stands as a word of its own.
  pub post_action-digit :
      (text : Word K → Option Bytes) (d : ℕ) (s e : Bytes)
      → is_digit d ≡ true
      → IsQuotable s
      → EndsWord e
      → post_action (word compound_list) text p (d ∷ codes " >" ++ in_quotes s e) ≡ (
        p,
        ok
            (PostAction.io_redirect
              (file (some (d - b'0')) (record { filename = Words.single_quote s; kind = output })))
            e,
      )
  unfolding post_action
  post_action-digit text d s e h k l =
      else-ok p
        (State.and_then (io_redirect (word compound_list) p (d ∷ codes " >" ++ in_quotes s e)) _) _
        _ _
        (bind-ok p (io_redirect (word compound_list) p (d ∷ codes " >" ++ in_quotes s e)) _ _ _
          (io_redirect-digit d s e h k l))
