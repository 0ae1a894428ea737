-- ===== src/Sh/Parser/Progress/Clauses.antt =====
-- The clauses of libmesabox/src/posix/sh/parser.rs, over parsers of words and commands that are good on
-- inputs below a bound.
use mesabox.Common.{ℕ, zero, suc, ◌<◌, Option, none, some, List, [], ◌∷◌, ◌++◌, length, arith}
use mesabox.Common.Bytes.{Bytes, codes}
use mesabox.Sh.Ast.Syntax
use mesabox.Sh.Ast.Syntax.{Command, ElseClause, no_else, elif_clause, else_clause, CaseList}
use mesabox.Sh.Ast.Redirects.{IoRedirect}
use mesabox.Sh.Parser.Defs.{Parsed, in_case, in_for}
use mesabox.Sh.Parser.Space.{is_token, is_keyword}
use mesabox.Sh.Parser.Names.{name}
use mesabox.Sh.Parser.State.{Parser, Step}
use mesabox.Sh.Parser.Clauses.{
  pattern_loop, pattern_words, for_words, for_clause, to_cases, case_item_common, case_item_ns,
  case_item, item_body, case_list, case_clause, optional,
}
use mesabox.Sh.Parser.Progress.Base.{
  Keeps, or_else-Within, weaken-Within, and_then-Keeps, or_else-Keeps, attempt-Keeps,
  with_kind-Keeps, lift-Keeps, ok-Keeps,
}
use mesabox.Sh.Parser.Progress.Space.{is_token-Within, is_keyword-Within}
use mesabox.Sh.Parser.Progress.Matches.{is_not-Within}
use mesabox.Sh.Parser.Progress.Names.{name-Within}
use mesabox.Sh.Parser.Progress.Lines.{linebreak-Keeps, sequential_sep-Keeps}
use mesabox.Sh.Parser.Progress.Redirect.{many_matches0-Keeps, many_matches1-Keeps}
use mesabox.Sh.Parser.Progress.Lists.{compound_list-Keeps, do_group-Keeps}

optional-Keeps :
    {A : Type 0} (p : Parser) (input : Bytes) (r : Parser × Parsed A)
    → Keeps 1 p input r
    → Keeps 0 p input (optional r input)
optional-Keeps {A} p input r h =
    or_else-Keeps 0 p input _ _
      (and_then-Keeps 1 0 0 p input r _ (omega arith) h
        (λ a p1 i1 le. ok-Keeps {A = Option A} p1 i1 (some a)))
      (λ p1. ok-Keeps {A = Option A} p1 input none)

pub token-Keeps :
    (v : Bytes) (p : Parser) (input : Bytes) → 0 < length v → Keeps 1 p input (p, is_token v input)
token-Keeps v p input h = lift-Keeps 1 p input _ (is_token-Within v input h)

pub keyword-Keeps :
    (v : Bytes) (p : Parser) (input : Bytes)
    → 0 < length v
    → Keeps 1 p input (p, is_keyword v input)
keyword-Keeps v p input h = lift-Keeps 1 p input _ (is_keyword-Within v input h)

module _ {W : Type 0} (word : Step W) (bound : ℕ)
    (words : (p : Parser) (i : Bytes) → length i < bound → Keeps 1 p i (word p i)) where
  pattern_loop-Keeps :
      (fuel : ℕ) (result : List W) (p : Parser) (input : Bytes)
      → length input < fuel
      → length input < bound
      → Keeps 0 p input (pattern_loop word fuel result p input)
  unfolding pattern_loop
  pattern_loop-Keeps zero result p input h b = absurd (omega arith)
  pattern_loop-Keeps (suc fuel) result p input h b =
      attempt-Keeps 1 0 0 p input _ _ _ (omega arith)
        (token-Keeps (codes "|") p input (omega arith))
        (λ u p1 i1 le1.
          and_then-Keeps 1 0 0 p1 i1 (word p1 i1) _ (omega arith) (words p1 i1 (omega arith))
            (λ w p2 i2 le2.
              pattern_loop-Keeps fuel (result ++ w ∷ []) p2 i2 (omega arith) (omega arith)))
        (λ p1. ok-Keeps p1 input result)

  pattern_words-Keeps :
      (p : Parser) (input : Bytes)
      → length input < bound
      → Keeps 1 p input (pattern_words word p input)
  unfolding pattern_words
  pattern_words-Keeps p input b =
      and_then-Keeps 1 0 1 p input (word p input) _ (omega arith) (words p input b) (λ w p1 i1 le1.
        pattern_loop-Keeps (suc (length i1)) (w ∷ []) p1 i1 (omega arith) (omega arith))

  module _ (command : Step (Command W (IoRedirect W)))
      (good : (p : Parser) (i : Bytes) → length i < bound → Keeps 1 p i (command p i)) where
    for_words-Keeps :
        (p : Parser) (input : Bytes)
        → length input < bound
        → Keeps 0 p input (for_words word command p input)
    unfolding for_words
    for_words-Keeps p input b =
        attempt-Keeps 1 0 0 p input _ _ _ (omega arith)
          (keyword-Keeps (codes "in") p input (omega arith))
          (λ u p1 i1 le1.
            and_then-Keeps 0 0 0 p1 i1 _ _ (omega arith)
              (many_matches0-Keeps word bound words p1 i1 (omega arith))
              (λ ws p2 i2 le2.
                and_then-Keeps 1 0 0 p2 i2 _ _ (omega arith) (sequential_sep-Keeps p2 i2)
                  (λ u p3 i3 le3. ok-Keeps p3 i3 ws)))
          (λ p1. ok-Keeps {A = List W} p1 input [])

    pub for_clause-Keeps :
        (p : Parser) (input : Bytes)
        → length input < bound
        → Keeps 1 p input (for_clause word command p input)
    unfolding for_clause
    for_clause-Keeps p input b = with_kind-Keeps 1 p input in_for _ (
        and_then-Keeps 1 0 1 p input (p, name input) _ (omega arith)
          (lift-Keeps 1 p input _ (name-Within input))
          (λ n p1 i1 le1.
            and_then-Keeps 0 0 0 p1 i1 _ _ (omega arith) (linebreak-Keeps p1 i1) (λ u p2 i2 le2.
              and_then-Keeps 0 0 0 p2 i2 _ _ (omega arith) (for_words-Keeps p2 i2 (omega arith))
                (λ ws p3 i3 le3.
                  and_then-Keeps 1 0 0 p3 i3 _ _ (omega arith)
                    (do_group-Keeps command bound good p3 i3 (omega arith))
                    (λ body p4 i4 le4. ok-Keeps p4 i4 (Syntax.for_clause n ws body))))))

    case_item_common-Keeps :
        (func : Step (Option (Command W (IoRedirect W)))) (p : Parser) (input : Bytes)
        → ((p' : Parser) (i : Bytes) → length i < bound → Keeps 0 p' i (func p' i))
        → length input < bound
        → Keeps 1 p input (case_item_common word command func p input)
    unfolding case_item_common
    case_item_common-Keeps func p input f b =
        and_then-Keeps 0 1 1 p input _ _ (omega arith)
          (lift-Keeps 0 p input _ (
            or_else-Within 0 input _ _
              (weaken-Within 1 0 input _ (omega arith)
                (is_token-Within (codes "(") input (omega arith)))
              (is_not-Within (is_keyword (codes "esac"))
                (λ i.
                  weaken-Within 1 0 i (is_keyword (codes "esac") i) (omega arith)
                    (is_keyword-Within (codes "esac") i (omega arith)))
                input)))
          (λ u p1 i1 le1.
            and_then-Keeps 1 0 1 p1 i1 _ _ (omega arith) (pattern_words-Keeps p1 i1 (omega arith))
              (λ ws p2 i2 le2.
                and_then-Keeps 1 0 0 p2 i2 _ _ (omega arith)
                  (token-Keeps (codes ")") p2 i2 (omega arith))
                  (λ u p3 i3 le3.
                    and_then-Keeps 0 0 0 p3 i3 (func p3 i3) _ (omega arith) (f p3 i3 (omega arith))
                      (λ c p4 i4 le4.
                        and_then-Keeps 0 0 0 p4 i4 _ _ (omega arith) (linebreak-Keeps p4 i4)
                          (λ u p5 i5 le5.
                            ok-Keeps {A = List W × Option (Command W (IoRedirect W))} p5 i5
                              (ws, c))))))

    case_item_ns-Keeps :
        (p : Parser) (input : Bytes)
        → length input < bound
        → Keeps 1 p input (case_item_ns word command p input)
    unfolding case_item_ns
    case_item_ns-Keeps p input b =
        case_item_common-Keeps _ p input
          (λ p1 i1 le. optional-Keeps p1 i1 _ (compound_list-Keeps command bound good p1 i1 le)) b

    item_body-Keeps :
        (p : Parser) (input : Bytes)
        → length input < bound
        → Keeps 0 p input (item_body word command p input)
    unfolding item_body
    item_body-Keeps p1 i1 le =
        and_then-Keeps 0 0 0 p1 i1 _ _ (omega arith)
          (or_else-Keeps 0 p1 i1 _ _
            (and_then-Keeps 1 0 0 p1 i1 _ _ (omega arith)
              (compound_list-Keeps command bound good p1 i1 le)
              (λ c p2 i2 le2. ok-Keeps {A = Option (Command W (IoRedirect W))} p2 i2 (some c)))
            (λ p2.
              and_then-Keeps 0 0 0 p2 i1 _ _ (omega arith) (linebreak-Keeps p2 i1)
                (λ u p3 i3 le3. ok-Keeps {A = Option (Command W (IoRedirect W))} p3 i3 none)))
          (λ c p4 i4 le4.
            and_then-Keeps 1 0 0 p4 i4 _ _ (omega arith)
              (token-Keeps (codes ";;") p4 i4 (omega arith)) (λ u p5 i5 le5. ok-Keeps p5 i5 c))

    case_item-Keeps :
        (p : Parser) (input : Bytes)
        → length input < bound
        → Keeps 1 p input (case_item word command p input)
    unfolding case_item
    case_item-Keeps p input b =
        case_item_common-Keeps (item_body word command) p input item_body-Keeps b

    case_list-Keeps :
        (p : Parser) (input : Bytes)
        → length input < bound
        → Keeps 1 p input (case_list word command p input)
    unfolding case_list
    case_list-Keeps p input b =
        or_else-Keeps 1 p input _ _
          (and_then-Keeps 1 0 1 p input _ _ (omega arith)
            (many_matches1-Keeps (case_item word command) bound case_item-Keeps p input b)
            (λ items p1 i1 le1.
              or_else-Keeps 0 p1 i1 _ _
                (and_then-Keeps 1 0 0 p1 i1 _ _ (omega arith)
                  (case_item_ns-Keeps p1 i1 (omega arith))
                  (λ i p2 i2 le2. ok-Keeps p2 i2 (to_cases word command (items ++ i ∷ []))))
                (λ p2. ok-Keeps p2 i1 (to_cases word command items))))
          (λ p1.
            and_then-Keeps 1 0 1 p1 input _ _ (omega arith) (case_item_ns-Keeps p1 input b)
              (λ i p2 i2 le2. ok-Keeps p2 i2 (to_cases word command (i ∷ []))))

    pub case_clause-Keeps :
        (p : Parser) (input : Bytes)
        → length input < bound
        → Keeps 1 p input (case_clause word command p input)
    unfolding case_clause
    case_clause-Keeps p input b = with_kind-Keeps 1 p input in_case _ (
        and_then-Keeps 1 0 1 p input (word p input) _ (omega arith) (words p input b)
          (λ w p1 i1 le1.
            and_then-Keeps 0 0 0 p1 i1 _ _ (omega arith) (linebreak-Keeps p1 i1) (λ u p2 i2 le2.
              and_then-Keeps 1 0 0 p2 i2 _ _ (omega arith)
                (keyword-Keeps (codes "in") p2 i2 (omega arith))
                (λ u p3 i3 le3.
                  and_then-Keeps 0 0 0 p3 i3 _ _ (omega arith) (linebreak-Keeps p3 i3)
                    (λ u p4 i4 le4.
                      and_then-Keeps 1 0 0 p4 i4 _ _ (omega arith)
                        (case_list-Keeps p4 i4 (omega arith))
                        (λ cs p5 i5 le5.
                          and_then-Keeps 1 0 0 p5 i5 _ _ (omega arith)
                            (keyword-Keeps (codes "esac") p5 i5 (omega arith))
                            (λ u p6 i6 le6. ok-Keeps p6 i6 (Syntax.case_clause w cs))))))))
