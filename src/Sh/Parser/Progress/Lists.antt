-- ===== src/Sh/Parser/Progress/Lists.antt =====
-- Pipelines and lists of libmesabox/src/posix/sh/parser.rs, over a parser of commands that is good on
-- inputs below a bound.
use mesabox.Common.{ℕ, zero, suc, ◌<◌, List, [], ◌∷◌, ◌++◌, length, arith}
use mesabox.Common.Bytes.{Bytes, codes}
use mesabox.Sh.Ast.Syntax
use mesabox.Sh.Ast.Syntax.{
  Command, Pipeline, Commands, Chain, Lists, SepKind, first, and, or, and_or, sub_shell,
}
use mesabox.Sh.Parser.Defs
use mesabox.Sh.Parser.Defs.{Errors, Parsed, ok, no_and_or_sep, in_sub_shell, is_next, is_not}
use mesabox.Sh.Parser.Space.{is_token, is_keyword}
use mesabox.Sh.Parser.State.{Parser, Step}
use mesabox.Sh.Parser.Lines.{linebreak, separator_op}
use mesabox.Sh.Parser.Lists.{
  pipe_sep, and_or_sep, term_separator, term_sep, pipe_loop, pipe_seq, pipeline, and_or_loop,
  and_or_chain, list_loop, list, term_loop, term, compound_list_inner, compound_list, subshell,
  list_until, brace_group, do_group, to_commands, to_chain, to_lists,
}
use mesabox.Sh.Parser.Progress.Base.{
  Within, Keeps, Left-refl, and_then-Within, or_else-Within, map_err-Within, weaken-Within,
  and_then-Keeps, or_else-Keeps, attempt-Keeps, with_kind-Keeps, lift-Keeps, ok-Keeps, weaken-Keeps,
}
use mesabox.Sh.Parser.Progress.Space.{is_next-Within, is_token-Within, is_keyword-Within}
use mesabox.Sh.Parser.Progress.Matches.{is_not-Within}
use mesabox.Sh.Parser.Progress.Lines.{
  newline_list-Keeps, linebreak-Keeps, separator-Keeps, separator_op-Within,
}

pipe_sep-Keeps : (p : Parser) (input : Bytes) → Keeps 1 p input (pipe_sep p input)
unfolding pipe_sep
pipe_sep-Keeps p input =
    and_then-Keeps 1 0 1 p input (p, is_token (codes "|") input) _ (omega arith)
      (lift-Keeps 1 p input _ (is_token-Within (codes "|") input (omega arith)))
      (λ u p1 i1 le. linebreak-Keeps p1 i1)

and_or_sep-Within : (input : Bytes) → Within 1 input (and_or_sep input)
unfolding and_or_sep
and_or_sep-Within input =
    or_else-Within 1 input _ _ (sep (codes "&&") and (omega arith))
      (map_err-Within 1 input (λ e. no_and_or_sep ∷ []) _ (sep (codes "||") or (omega arith)))
  where
    sep :
        (v : Bytes) (k : SepKind)
        → 0 < length v
        → Within 1 input (Defs.and_then (is_token v input) λ u rest. ok k rest)
    sep v k h =
        and_then-Within 1 0 1 input (is_token v input) (λ u rest. ok k rest) (omega arith)
          (is_token-Within v input h) (λ u rest le. Left-refl rest)

term_sep-Keeps : (p : Parser) (input : Bytes) → Keeps 1 p input (term_sep p input)
unfolding term_sep term_separator
term_sep-Keeps p input =
    and_then-Keeps 0 1 1 p input (p, is_not (is_next (codes ";;")) input) _ (omega arith)
      (lift-Keeps 0 p input _ (
        is_not-Within (is_next (codes ";;"))
          (λ i.
            weaken-Within 1 0 i (is_next (codes ";;") i) (omega arith)
              (is_next-Within (codes ";;") i (omega arith)))
          input))
      (λ u p1 i1 le. separator-Keeps p1 i1)

module _ {W R : Type 0} (command : Step (Command W R)) (bound : ℕ)
    (good : (p : Parser) (i : Bytes) → length i < bound → Keeps 1 p i (command p i)) where
  pipe_loop-Keeps :
      (fuel : ℕ) (result : List (Command W R)) (p : Parser) (input : Bytes)
      → length input < fuel
      → length input < bound
      → Keeps 0 p input (pipe_loop command fuel result p input)
  unfolding pipe_loop
  pipe_loop-Keeps zero result p input h b = absurd (omega arith)
  pipe_loop-Keeps (suc fuel) result p input h b =
      attempt-Keeps 1 0 0 p input _ _ _ (omega arith) (pipe_sep-Keeps p input)
        (λ u p1 i1 le1.
          and_then-Keeps 1 0 0 p1 i1 (command p1 i1) _ (omega arith) (good p1 i1 (omega arith))
            (λ c p2 i2 le2.
              pipe_loop-Keeps fuel (result ++ c ∷ []) p2 i2 (omega arith) (omega arith)))
        (λ p1. ok-Keeps p1 input result)

  pipe_seq-Keeps :
      (p : Parser) (input : Bytes)
      → length input < bound
      → Keeps 1 p input (pipe_seq command p input)
  unfolding pipe_seq
  pipe_seq-Keeps p input b =
      and_then-Keeps 1 0 1 p input (command p input) _ (omega arith) (good p input b)
        (λ c p1 i1 le1.
          and_then-Keeps 0 0 0 p1 i1 _ _ (omega arith)
            (pipe_loop-Keeps (suc (length i1)) [] p1 i1 (omega arith) (omega arith))
            (λ cs p2 i2 le2. ok-Keeps p2 i2 (to_commands c cs)))

  pipeline-Keeps :
      (p : Parser) (input : Bytes)
      → length input < bound
      → Keeps 1 p input (pipeline command p input)
  unfolding pipeline
  pipeline-Keeps p input b =
      and_then-Keeps 0 1 1 p input _ _ (omega arith)
        (lift-Keeps 0 p input _ (
          or_else-Within 0 input _ _
            (and_then-Within 1 0 0 input (is_keyword (codes "!") input) _ (omega arith)
              (is_keyword-Within (codes "!") input (omega arith)) (λ u rest le. Left-refl rest))
            (Left-refl input)))
        (λ bang p1 i1 le1.
          and_then-Keeps 1 0 1 p1 i1 _ _ (omega arith) (pipe_seq-Keeps p1 i1 (omega arith))
            (λ cs p2 i2 le2. ok-Keeps {A = Pipeline W R} p2 i2 (Syntax.pipeline cs bang)))

  and_or_loop-Keeps :
      (fuel : ℕ) (result : List (SepKind × Pipeline W R)) (p : Parser) (input : Bytes)
      → length input < fuel
      → length input < bound
      → Keeps 0 p input (and_or_loop command fuel result p input)
  unfolding and_or_loop
  and_or_loop-Keeps zero result p input h b = absurd (omega arith)
  and_or_loop-Keeps (suc fuel) result p input h b =
      attempt-Keeps 1 0 0 p input (p, and_or_sep input) _ _ (omega arith)
        (lift-Keeps 1 p input _ (and_or_sep-Within input))
        (λ sep p1 i1 le1.
          and_then-Keeps 0 0 0 p1 i1 (linebreak p1 i1) _ (omega arith) (linebreak-Keeps p1 i1)
            (λ u p2 i2 le2.
              and_then-Keeps 1 0 0 p2 i2 _ _ (omega arith) (pipeline-Keeps p2 i2 (omega arith))
                (λ v p3 i3 le3.
                  and_or_loop-Keeps fuel (result ++ (sep, v) ∷ []) p3 i3 (omega arith)
                    (omega arith))))
        (λ p1. ok-Keeps p1 input result)

  and_or_chain-Keeps :
      (p : Parser) (input : Bytes)
      → length input < bound
      → Keeps 1 p input (and_or_chain command p input)
  unfolding and_or_chain
  and_or_chain-Keeps p input b =
      and_then-Keeps 1 0 1 p input _ _ (omega arith) (pipeline-Keeps p input b) (λ v p1 i1 le1.
        and_then-Keeps 0 0 0 p1 i1 _ _ (omega arith)
          (and_or_loop-Keeps (suc (length i1)) ((first, v) ∷ []) p1 i1 (omega arith) (omega arith))
          (λ ls p2 i2 le2. ok-Keeps p2 i2 (to_chain ls)))

  list_loop-Keeps :
      (fuel : ℕ) (result : List (Chain W R)) (p : Parser) (input : Bytes)
      → length input < fuel
      → length input < bound
      → Keeps 0 p input (list_loop command fuel result p input)
  unfolding list_loop
  list_loop-Keeps zero result p input h b = absurd (omega arith)
  list_loop-Keeps (suc fuel) result p input h b =
      attempt-Keeps 1 0 0 p input (p, separator_op input) _ _ (omega arith)
        (lift-Keeps 1 p input _ (separator_op-Within input))
        (λ u p1 i1 le1.
          and_then-Keeps 1 0 0 p1 i1 _ _ (omega arith) (and_or_chain-Keeps p1 i1 (omega arith))
            (λ c p2 i2 le2.
              list_loop-Keeps fuel (result ++ c ∷ []) p2 i2 (omega arith) (omega arith)))
        (λ p1. ok-Keeps p1 input result)

  pub list-Keeps :
      (p : Parser) (input : Bytes) → length input < bound → Keeps 1 p input (list command p input)
  unfolding list
  list-Keeps p input b =
      and_then-Keeps 1 0 1 p input _ _ (omega arith) (and_or_chain-Keeps p input b) (λ c p1 i1 le1.
        and_then-Keeps 0 0 0 p1 i1 _ _ (omega arith)
          (list_loop-Keeps (suc (length i1)) (c ∷ []) p1 i1 (omega arith) (omega arith))
          (λ cs p2 i2 le2. ok-Keeps p2 i2 (to_lists cs)))

  term_loop-Keeps :
      (fuel : ℕ) (result : List (Chain W R)) (p : Parser) (input : Bytes)
      → length input < fuel
      → length input < bound
      → Keeps 0 p input (term_loop command fuel result p input)
  unfolding term_loop
  term_loop-Keeps zero result p input h b = absurd (omega arith)
  term_loop-Keeps (suc fuel) result p input h b =
      attempt-Keeps 1 0 0 p input _ _ _ (omega arith)
        (and_then-Keeps 1 1 1 p input _ _ (omega arith) (term_sep-Keeps p input)
          (λ u p1 i1 le1. and_or_chain-Keeps p1 i1 (omega arith)))
        (λ c p2 i2 le2. term_loop-Keeps fuel (result ++ c ∷ []) p2 i2 (omega arith) (omega arith))
        (λ p1. ok-Keeps p1 input result)

  term-Keeps :
      (p : Parser) (input : Bytes) → length input < bound → Keeps 1 p input (term command p input)
  unfolding term
  term-Keeps p input b =
      and_then-Keeps 1 0 1 p input _ _ (omega arith) (and_or_chain-Keeps p input b) (λ c p1 i1 le1.
        and_then-Keeps 0 0 0 p1 i1 _ _ (omega arith)
          (term_loop-Keeps (suc (length i1)) (c ∷ []) p1 i1 (omega arith) (omega arith))
          (λ cs p2 i2 le2. ok-Keeps p2 i2 (to_lists cs)))

  compound_list_inner-Keeps :
      (p : Parser) (input : Bytes)
      → length input < bound
      → Keeps 1 p input (compound_list_inner command p input)
  unfolding compound_list_inner
  compound_list_inner-Keeps p input b =
      and_then-Keeps 0 1 1 p input _ _ (omega arith)
        (or_else-Keeps 0 p input _ _
          (weaken-Keeps 1 0 p input _ (omega arith) (newline_list-Keeps p input))
          (λ p1. ok-Keeps {A = Unit {0}} p1 input tt))
        (λ u p1 i1 le1.
          and_then-Keeps 1 0 1 p1 i1 _ _ (omega arith) (term-Keeps p1 i1 (omega arith))
            (λ ls p2 i2 le2.
              and_then-Keeps 0 0 0 p2 i2 _ _ (omega arith)
                (or_else-Keeps 0 p2 i2 _ _
                  (weaken-Keeps 1 0 p2 i2 _ (omega arith) (term_sep-Keeps p2 i2))
                  (λ p3. ok-Keeps {A = Unit {0}} p3 i2 tt))
                (λ u p3 i3 le3. ok-Keeps p3 i3 ls)))

  pub compound_list-Keeps :
      (p : Parser) (input : Bytes)
      → length input < bound
      → Keeps 1 p input (compound_list command p input)
  unfolding compound_list
  compound_list-Keeps p input b =
      and_then-Keeps 1 0 1 p input _ _ (omega arith) (compound_list_inner-Keeps p input b)
        (λ ls p1 i1 le1. ok-Keeps p1 i1 (and_or ls))

  pub subshell-Keeps :
      (p : Parser) (input : Bytes)
      → length input < bound
      → Keeps 1 p input (subshell command p input)
  unfolding subshell
  subshell-Keeps p input b = with_kind-Keeps 1 p input in_sub_shell _ (
      and_then-Keeps 1 0 1 p input _ _ (omega arith) (compound_list_inner-Keeps p input b)
        (λ ls p1 i1 le1.
          and_then-Keeps 1 0 0 p1 i1 (p1, is_token (codes ")") i1) _ (omega arith)
            (lift-Keeps 1 p1 i1 _ (is_token-Within (codes ")") i1 (omega arith)))
            (λ u p2 i2 le2. ok-Keeps p2 i2 (sub_shell ls))))

  list_until-Keeps :
      (v : Bytes) (p : Parser) (input : Bytes)
      → 0 < length v
      → length input < bound
      → Keeps 1 p input (list_until command v p input)
  list_until-Keeps v p input proper b =
      and_then-Keeps 1 0 1 p input _ _ (omega arith) (compound_list-Keeps p input b) (λ c p1 i1 le1.
        and_then-Keeps 1 0 0 p1 i1 (p1, is_keyword v i1) _ (omega arith)
          (lift-Keeps 1 p1 i1 _ (is_keyword-Within v i1 proper)) (λ u p2 i2 le2. ok-Keeps p2 i2 c))

  pub brace_group-Keeps :
      (p : Parser) (input : Bytes)
      → length input < bound
      → Keeps 1 p input (brace_group command p input)
  unfolding brace_group
  brace_group-Keeps p input b = list_until-Keeps (codes "}") p input (omega arith) b

  pub do_group-Keeps :
      (p : Parser) (input : Bytes)
      → length input < bound
      → Keeps 1 p input (do_group command p input)
  unfolding do_group
  do_group-Keeps p input b =
      and_then-Keeps 1 1 1 p input (p, is_keyword (codes "do") input) _ (omega arith)
        (lift-Keeps 1 p input _ (is_keyword-Within (codes "do") input (omega arith)))
        (λ u p1 i1 le1. list_until-Keeps (codes "done") p1 i1 (omega arith) (omega arith))
