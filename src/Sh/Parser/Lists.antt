-- ===== src/Sh/Parser/Lists.antt =====
-- libmesabox/src/posix/sh/parser.rs: pipelines, and lists of them. `command` is the parser of commands.
use mesabox.Common.{ℕ, zero, suc, true, false, List, [], ◌∷◌, ◌++◌, length}
use mesabox.Common.Bytes.{Bytes, codes}
use mesabox.Sh.Ast.Syntax.{
  Command, Commands, last, before, Pipeline, Chain, link, end_chain, Lists, chain, no_chains,
  SepKind, first, and, or, and_or, sub_shell,
}
use mesabox.Sh.Ast.Syntax
use mesabox.Sh.Parser.Defs.{
  no_fuel, Parsed, ok, err, panic, endless, is_next, is_not, only_kind, no_and_or_sep, in_sub_shell,
}
use mesabox.Sh.Parser.Defs
use mesabox.Sh.Parser.Space.{is_token, is_keyword}
use mesabox.Sh.Parser.Lines.{linebreak, newline_list, separator, separator_op}
use mesabox.Sh.Parser.State.{attempt, Step, and_then, or_else, with_kind}

unfoldable pub pipe_sep : Step (Unit {0})
unfolding is_token linebreak
pipe_sep p input = and_then (p, is_token (codes "|") input) λ u p' rest. linebreak p' rest

unfoldable pub and_or_sep : Bytes → Parsed SepKind
unfolding is_token
and_or_sep input =
    Defs.or_else (Defs.and_then (is_token (codes "&&") input) λ u rest. ok and rest)
      (only_kind no_and_or_sep (Defs.and_then (is_token (codes "||") input) λ u rest. ok or rest))

unfoldable pub term_separator : Bytes → Parsed (Unit {0})
unfolding is_next
term_separator input = is_next (codes ";;") input

-- `is_not(…).and_then(separator)`
unfoldable pub term_sep : Step (Unit {0})
unfolding is_not term_separator separator
term_sep p input = and_then (p, is_not term_separator input) λ u p' rest. separator p' rest

module _ {W R : Type 0} where
  -- The vectors of the source grow at the end; these are their first and their other elements.
  abbrev pub to_commands : Command W R → List (Command W R) → Commands W R
  to_commands c [] = last c
  to_commands c (d ∷ ds) = before c (to_commands d ds)

  abbrev pub to_chain : List (SepKind × Pipeline W R) → Chain W R
  to_chain [] = end_chain
  to_chain ((sep, p) ∷ ls) = link sep p (to_chain ls)

  abbrev pub to_lists : List (Chain W R) → Lists W R
  to_lists [] = no_chains
  to_lists (c ∷ cs) = chain c (to_lists cs)

module _ {W R : Type 0} (command : Step (Command W R)) where
  -- The loops take a separator at least in each round. An error behind a separator is an error of the
  -- whole, except in `term`.
  unfoldable pub pipe_loop : ℕ → List (Command W R) → Step (List (Command W R))
  unfolding pipe_sep
  pipe_loop zero result p input = (p, no_fuel)
  pipe_loop (suc fuel) result p input =
      attempt (pipe_sep p input)
        (λ u p' rest.
          and_then (command p' rest) λ c p'' rest'. pipe_loop fuel (result ++ c ∷ []) p'' rest')
        (λ p'. (p', ok result input))

  unfoldable pub pipe_seq : Step (Commands W R)
  unfolding pipe_loop
  pipe_seq p input = and_then (command p input) λ c p1 i1.
      and_then (pipe_loop (suc (length i1)) [] p1 i1) λ cs p2 i2. (p2, ok (to_commands c cs) i2)

  unfoldable pub pipeline : Step (Pipeline W R)
  unfolding is_keyword pipe_seq
  pipeline p input =
      and_then
        (
          p,
          Defs.or_else (Defs.and_then (is_keyword (codes "!") input) λ u rest. ok true rest)
              (ok false input),
        )
        λ bang p1 i1. and_then (pipe_seq p1 i1) λ cs p2 i2. (p2, ok (Syntax.pipeline cs bang) i2)

  unfoldable pub and_or_loop :
      ℕ → List (SepKind × Pipeline W R) → Step (List (SepKind × Pipeline W R))
  unfolding and_or_sep linebreak pipeline
  and_or_loop zero result p input = (p, no_fuel)
  and_or_loop (suc fuel) result p input =
      attempt (p, and_or_sep input)
        (λ sep p' rest. and_then (linebreak p' rest) λ u p1 i1.
          and_then (pipeline p1 i1) λ v p2 i2. and_or_loop fuel (result ++ (sep, v) ∷ []) p2 i2)
        (λ p'. (p', ok result input))

  -- `and_or` of the source.
  unfoldable pub and_or_chain : Step (Chain W R)
  unfolding pipeline and_or_loop
  and_or_chain p input = and_then (pipeline p input) λ v p1 i1.
      and_then (and_or_loop (suc (length i1)) ((first, v) ∷ []) p1 i1)
        λ ls p2 i2. (p2, ok (to_chain ls) i2)

  unfoldable pub list_loop : ℕ → List (Chain W R) → Step (List (Chain W R))
  unfolding separator_op and_or_chain
  list_loop zero result p input = (p, no_fuel)
  list_loop (suc fuel) result p input =
      attempt (p, separator_op input)
        (λ u p' rest.
          and_then (and_or_chain p' rest) λ c p' rest'. list_loop fuel (result ++ c ∷ []) p' rest')
        (λ p'. (p', ok result input))

  unfoldable pub list : Step (Lists W R)
  unfolding and_or_chain list_loop
  list p input = and_then (and_or_chain p input) λ c p1 i1.
      and_then (list_loop (suc (length i1)) (c ∷ []) p1 i1) λ cs p2 i2. (p2, ok (to_lists cs) i2)

  unfoldable pub term_loop : ℕ → List (Chain W R) → Step (List (Chain W R))
  unfolding term_sep and_or_chain
  term_loop zero result p input = (p, no_fuel)
  term_loop (suc fuel) result p input =
      attempt (and_then (term_sep p input) λ u p1 i1. and_or_chain p1 i1)
        (λ c p' rest. term_loop fuel (result ++ c ∷ []) p' rest) (λ p'. (p', ok result input))

  unfoldable pub term : Step (Lists W R)
  unfolding and_or_chain term_loop
  term p input = and_then (and_or_chain p input) λ c p1 i1.
      and_then (term_loop (suc (length i1)) (c ∷ []) p1 i1) λ cs p2 i2. (p2, ok (to_lists cs) i2)

  -- The lists, which the callers wrap.
  unfoldable pub compound_list_inner : Step (Lists W R)
  unfolding newline_list term term_sep
  compound_list_inner p input =
      and_then (or_else (newline_list p input) λ p'. (p', ok tt input)) λ u p1 i1.
        and_then (term p1 i1) λ ls p2 i2.
          and_then (or_else (term_sep p2 i2) λ p'. (p', ok tt i2)) λ u p3 i3. (p3, ok ls i3)

  unfoldable pub compound_list : Step (Command W R)
  unfolding compound_list_inner
  compound_list p input =
      and_then (compound_list_inner p input) λ ls p' rest. (p', ok (and_or ls) rest)

  unfoldable pub subshell : Step (Command W R)
  unfolding compound_list_inner is_token
  subshell p input = with_kind in_sub_shell (
      and_then (compound_list_inner p input)
        λ ls p1 i1. and_then (p1, is_token (codes ")") i1) λ u p2 i2. (p2, ok (sub_shell ls) i2))

  -- A list between two keywords, of which the first has been read.
  abbrev pub list_until : Bytes → Step (Command W R)
  list_until word p input =
      and_then (compound_list p input)
        λ c p1 i1. and_then (p1, is_keyword word i1) λ u p2 i2. (p2, ok c i2)

  unfoldable pub brace_group : Step (Command W R)
  unfolding compound_list is_keyword
  brace_group p input = list_until (codes "}") p input

  unfoldable pub do_group : Step (Command W R)
  unfolding compound_list is_keyword
  do_group p input =
      and_then (p, is_keyword (codes "do") input) λ u p' rest. list_until (codes "done") p' rest
