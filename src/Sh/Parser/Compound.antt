-- ===== src/Sh/Parser/Compound.antt =====
-- libmesabox/src/posix/sh/parser.rs: function definitions, and commands of any kind. `word` and
-- `command` are the parsers of words and commands, and `text` the text of a word that is
-- `Word::Simple`. The redirections behind a compound command are read, and not kept: execution ignores
-- them.
use mesabox.Common.{Bool, true, false, not, Option, List, [], ◌∷◌, if◌then◌else◌}
use mesabox.Common.Bytes.{Bytes, codes, bytes_eq}
use mesabox.Sh.Ast.Syntax.{
  Command, ElseClause, no_else, elif_clause, else_clause, CaseList, no_items, item, empty_item,
  SimpleCommand,
}
use mesabox.Sh.Ast.Syntax
use mesabox.Sh.Ast.Redirects.{IoRedirect}
use mesabox.Sh.Parser.Defs.{
  ParserErrorKind, Errors, Parsed, ok, err, panic, endless, is_not, compound_command_keyword, in_if,
  in_case, in_for, in_while, in_function_def,
}
use mesabox.Sh.Parser.Defs
use mesabox.Sh.Parser.Space.{is_token, is_keyword}
use mesabox.Sh.Parser.Names.{fname}
use mesabox.Sh.Parser.Lines.{linebreak}
use mesabox.Sh.Parser.Redirect.{io_redirect, many_matches1}
use mesabox.Sh.Parser.Lists.{subshell, brace_group}
use mesabox.Sh.Parser.Simple.{simple_command}
use mesabox.Sh.Parser.State.{attempt, Parser, Step, and_then, or_else, recover, with_kind}
use mesabox.Sh.Parser.Clauses.{for_clause, case_clause, if_clause, while_clause}

-- `f.last() == Some(&CompoundCommandKeyword)`
abbrev is_keyword_error : ParserErrorKind → Bool
is_keyword_error compound_command_keyword = true
is_keyword_error _ = false

unfoldable pub no_keyword : Errors → Bool
no_keyword [] = false
no_keyword (e ∷ []) = is_keyword_error e
no_keyword (e ∷ f ∷ es) = no_keyword (f ∷ es)

module _ {W : Type 0} (word : Step W) (text : W → Option Bytes) where
  abbrev Cmd : Type 0
  Cmd = Command W (IoRedirect W)

  unfoldable pub redirect_list : Step (List (IoRedirect W))
  unfolding many_matches1 io_redirect
  redirect_list p input = many_matches1 (io_redirect word) p input

  module _ (command : Step Cmd) where
    -- The redirections are read and dropped, since execution does not look at those of a compound command.
    abbrev pub redirected : Parser × Parsed Cmd → Parser × Parsed Cmd
    redirected r = and_then r λ c p input.
        or_else (and_then (redirect_list p input) λ rs p' rest. (p', ok c rest))
          λ p'. (p', ok c input)

    -- `compound_command_keyword` of the source: the clause that the name begins.
    unfoldable pub clause_of : Bytes → Step Cmd
    unfolding bytes_eq for_clause case_clause if_clause while_clause redirect_list
    clause_of n p input =
        if bytes_eq n (codes "for")
        then redirected (for_clause word command p input)
        else if bytes_eq n (codes "case")
        then redirected (case_clause word command p input)
        else if bytes_eq n (codes "if")
        then redirected (if_clause word command p input)
        else if bytes_eq n (codes "while")
        then redirected (while_clause word command true p input)
        else if bytes_eq n (codes "until")
        then redirected (while_clause word command false p input)
        else (p, err (compound_command_keyword ∷ []))

    unfoldable pub compound_command : Step Cmd
    unfolding is_token is_keyword subshell brace_group fname clause_of
    compound_command p input =
        attempt (p, is_token (codes "(") input) (λ u p1 rest. subshell command p1 rest)
          (λ p1.
            attempt (p1, is_keyword (codes "{") input) (λ u p2 rest. brace_group command p2 rest)
              (λ p2. and_then (p2, fname input) λ n p3 rest. clause_of n p3 rest))

    unfoldable pub function_body : Step Cmd
    unfolding compound_command redirect_list
    function_body p input = redirected (compound_command p input)

    unfoldable pub function_def : Bytes → Step Cmd
    unfolding linebreak function_body
    function_def n p input = with_kind in_function_def (
        and_then (linebreak p input) λ u p1 i1.
          and_then (function_body p1 i1) λ b p2 i2. (p2, ok (Syntax.function_def n b) i2))

    abbrev pub simple : Step Cmd
    simple p input =
        and_then (simple_command word text p input) λ c p' rest. (p', ok (Syntax.simple c) rest)

    -- A name that begins no clause: a function, if `()` follows, and a simple command if not.
    unfoldable pub named_command : Bytes → Bytes → Step Cmd
    unfolding is_token function_def simple_command
    named_command n orig_input p input =
        attempt (p, Defs.and_then (is_token (codes "(") input) λ u rest. is_token (codes ")") rest)
          (λ u p' rest. function_def n p' rest) (λ p'. simple p' orig_input)

    unfoldable pub command_step : Step Cmd
    unfolding fname clause_of no_keyword named_command is_token is_keyword subshell brace_group
        simple_command
    command_step p orig_input =
        attempt (p, fname orig_input)
          (λ n p1 rest.
            recover (clause_of n p1 rest) λ e p2.
              if not (no_keyword e) then (p2, err e) else named_command n orig_input p2 rest)
          (λ p1.
            attempt (p1, is_token (codes "(") orig_input) (λ u p2 rest. subshell command p2 rest)
              (λ p2.
                attempt (p2, is_keyword (codes "{") orig_input)
                  (λ u p3 rest. brace_group command p3 rest) (λ p3. simple p3 orig_input)))
