-- ===== src/Sh/Parser/Clauses.antt =====
-- libmesabox/src/posix/sh/parser.rs: the clauses. `word` and `command` are the parsers of words and
-- commands.
use mesabox.Common.{ℕ, zero, suc, Bool, Option, none, some, List, [], ◌∷◌, ◌++◌, length}
use mesabox.Common.Bytes.{Bytes, codes}
use mesabox.Sh.Ast.Syntax.{
  Command, ElseClause, no_else, elif_clause, else_clause, CaseList, no_items, item, empty_item,
  SimpleCommand,
}
use mesabox.Sh.Ast.Syntax
use mesabox.Sh.Ast.Redirects.{IoRedirect}
use mesabox.Sh.Parser.Defs.{
  no_fuel, ParserErrorKind, Errors, Parsed, ok, err, panic, endless, is_not,
  compound_command_keyword, in_if, in_case, in_for, in_while, in_function_def,
}
use mesabox.Sh.Parser.Defs
use mesabox.Sh.Parser.Space.{is_token, is_keyword}
use mesabox.Sh.Parser.Names.{name}
use mesabox.Sh.Parser.Lines.{linebreak, sequential_sep}
use mesabox.Sh.Parser.Redirect.{many_matches0, many_matches1}
use mesabox.Sh.Parser.Lists.{compound_list, do_group}
use mesabox.Sh.Parser.State.{Parser, Step, attempt, and_then, or_else, with_kind}

-- What a parser reads, if it succeeds.
abbrev pub optional : {A : Type 0} → Parser × Parsed A → Bytes → Parser × Parsed (Option A)
optional r input = or_else (and_then r λ a p rest. (p, ok (some a) rest)) λ p. (p, ok none input)

module _ {W : Type 0} (word : Step W) where
  abbrev pub Cmd : Type 0
  Cmd = Command W (IoRedirect W)

  -- The loop of `pattern` over the words behind a `|`.
  unfoldable pub pattern_loop : ℕ → List W → Step (List W)
  unfolding is_token
  pattern_loop zero result p input = (p, no_fuel)
  pattern_loop (suc fuel) result p input =
      attempt (p, is_token (codes "|") input)
        (λ u p' rest.
          and_then (word p' rest) λ w p' rest'. pattern_loop fuel (result ++ w ∷ []) p' rest')
        (λ p'. (p', ok result input))

  unfoldable pub pattern_words : Step (List W)
  unfolding pattern_loop
  pattern_words p input =
      and_then (word p input) λ w p' rest. pattern_loop (suc (length rest)) (w ∷ []) p' rest

  module _ (command : Step Cmd) where
    unfoldable pub for_words : Step (List W)
    unfolding is_keyword many_matches0 sequential_sep
    for_words p input =
        attempt (p, is_keyword (codes "in") input)
          (λ u p' rest.
            and_then (many_matches0 word p' rest)
              λ ws p1 i1. and_then (sequential_sep p1 i1) λ u p2 i2. (p2, ok ws i2))
          (λ p'. (p', ok [] input))

    unfoldable pub for_clause : Step Cmd
    unfolding name linebreak for_words do_group
    for_clause p input = with_kind in_for (
        and_then (p, name input)
          λ n p1 i1. and_then (linebreak p1 i1) λ u p2 i2. and_then (for_words p2 i2) λ ws p3 i3.
            and_then (do_group command p3 i3)
              λ body p4 i4. (p4, ok (Syntax.for_clause n ws body) i4))

    abbrev pub CaseItem : Type 0
    CaseItem = List W × Option Cmd

    abbrev pub to_cases : List CaseItem → CaseList W (IoRedirect W)
    to_cases [] = no_items
    to_cases ((ws, some c) ∷ cs) = item ws c (to_cases cs)
    to_cases ((ws, none) ∷ cs) = empty_item ws (to_cases cs)

    unfoldable pub case_item_common : Step (Option Cmd) → Step CaseItem
    unfolding is_token is_not is_keyword pattern_words linebreak
    case_item_common func p input =
        and_then
          (p, Defs.or_else (is_token (codes "(") input) (is_not (is_keyword (codes "esac")) input))
          λ u p1 i1. and_then (pattern_words p1 i1) λ ws p2 i2.
            and_then (p2, is_token (codes ")") i2)
              λ u p3 i3.
                and_then (func p3 i3)
                  λ c p4 i4. and_then (linebreak p4 i4) λ u p5 i5. (p5, ok (ws, c) i5)

    unfoldable pub case_item_ns : Step CaseItem
    unfolding case_item_common compound_list
    case_item_ns p input =
        case_item_common (λ p' i. optional (compound_list command p' i) i) p input

    -- The closure of `case_item`: a list or nothing, and `;;`.
    unfoldable pub item_body : Step (Option Cmd)
    unfolding compound_list linebreak is_token
    item_body p1 i1 =
        and_then
          (or_else (and_then (compound_list command p1 i1) λ c p2 i2. (p2, ok (some c) i2))
            λ p2. and_then (linebreak p2 i1) λ u p3 i3. (p3, ok none i3))
          λ c p4 i4. and_then (p4, is_token (codes ";;") i4) λ u p5 i5. (p5, ok c i5)

    unfoldable pub case_item : Step CaseItem
    unfolding case_item_common item_body
    case_item p input = case_item_common item_body p input

    -- Items that end with `;;`, then at most one that does not.
    unfoldable pub case_list : Step (CaseList W (IoRedirect W))
    unfolding case_item case_item_ns many_matches1
    case_list p input =
        or_else
          (and_then (many_matches1 case_item p input) λ items p1 i1.
            or_else
              (and_then (case_item_ns p1 i1) λ i p2 i2. (p2, ok (to_cases (items ++ i ∷ [])) i2))
              λ p2. (p2, ok (to_cases items) i1))
          λ p1. and_then (case_item_ns p1 input) λ i p2 i2. (p2, ok (to_cases (i ∷ [])) i2)

    unfoldable pub case_clause : Step Cmd
    unfolding linebreak is_keyword case_list
    case_clause p input = with_kind in_case (
        and_then (word p input) λ w p1 i1. and_then (linebreak p1 i1) λ u p2 i2.
          and_then (p2, is_keyword (codes "in") i2)
            λ u p3 i3. and_then (linebreak p3 i3) λ u p4 i4. and_then (case_list p4 i4) λ cs p5 i5.
              and_then (p5, is_keyword (codes "esac") i5)
                λ u p6 i6. (p6, ok (Syntax.case_clause w cs) i6))

    -- A condition, `then` and a body.
    abbrev pub condition : Step (Cmd × Cmd)
    condition p input = and_then (compound_list command p input) λ c p1 i1.
        and_then (p1, is_keyword (codes "then") i1)
          λ u p2 i2. and_then (compound_list command p2 i2) λ b p3 i3. (p3, ok (c, b) i3)

    -- Each `elif` takes its keyword from the input.
    unfoldable pub else_part : ℕ → Step (ElseClause W (IoRedirect W))
    unfolding is_keyword compound_list
    else_part zero p input = (p, no_fuel)
    else_part (suc fuel) p input =
        attempt (p, is_keyword (codes "elif") input)
          (λ u p' rest. and_then (condition p' rest) λ (c, b) p1 i1.
            or_else (and_then (else_part fuel p1 i1) λ e p2 i2. (p2, ok (elif_clause c b e) i2))
              λ p2. (p2, ok (elif_clause c b no_else) i1))
          (λ p'.
            and_then (p', is_keyword (codes "else") input)
              λ u p1 i1.
                and_then (compound_list command p1 i1)
                  λ b p2 i2. (p2, ok (else_clause b no_else) i2))

    unfoldable pub if_clause : Step Cmd
    unfolding is_keyword compound_list else_part
    if_clause p input = with_kind in_if (
        and_then (condition p input) λ (c, b) p1 i1.
          and_then (or_else (else_part (suc (length i1)) p1 i1) λ p2. (p2, ok no_else i1))
            λ e p3 i3.
              and_then (p3, is_keyword (codes "fi") i3)
                λ u p4 i4. (p4, ok (Syntax.if_clause c b e) i4))

    unfoldable pub while_clause : Bool → Step Cmd
    unfolding compound_list do_group
    while_clause check p input = with_kind in_while (
        and_then (compound_list command p input) λ c p1 i1.
          and_then (do_group command p1 i1) λ b p2 i2. (p2, ok (Syntax.while_clause c check b) i2))
