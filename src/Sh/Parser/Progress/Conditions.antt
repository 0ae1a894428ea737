-- ===== src/Sh/Parser/Progress/Conditions.antt =====
-- The conditions of `if`, `while` and `until` in libmesabox/src/posix/sh/parser.rs.
use mesabox.Common.{ℕ, zero, suc, ◌<◌, Bool, length, arith}
use mesabox.Common.Bytes.{Bytes, codes}
use mesabox.Sh.Ast.Syntax
use mesabox.Sh.Ast.Syntax.{Command, ElseClause, no_else, elif_clause, else_clause, CaseList}
use mesabox.Sh.Ast.Redirects.{IoRedirect}
use mesabox.Sh.Parser.Defs.{in_if, in_while}
use mesabox.Sh.Parser.State.{Parser, Step}
use mesabox.Sh.Parser.Clauses.{condition, else_part, if_clause, while_clause}
use mesabox.Sh.Parser.Progress.Base.{
  Keeps, and_then-Keeps, or_else-Keeps, attempt-Keeps, with_kind-Keeps, ok-Keeps,
}
use mesabox.Sh.Parser.Progress.Lists.{compound_list-Keeps, do_group-Keeps}
use mesabox.Sh.Parser.Progress.Clauses.{keyword-Keeps}

module _ {W : Type 0} (word : Step W) (bound : ℕ) (command : Step (Command W (IoRedirect W)))
    (good : (p : Parser) (i : Bytes) → length i < bound → Keeps 1 p i (command p i)) where
  condition-Keeps :
      (p : Parser) (input : Bytes)
      → length input < bound
      → Keeps 1 p input (condition word command p input)
  condition-Keeps p input b =
      and_then-Keeps 1 0 1 p input _ _ (omega arith)
        (compound_list-Keeps command bound good p input b)
        (λ c p1 i1 le1.
          and_then-Keeps 1 0 0 p1 i1 _ _ (omega arith)
            (keyword-Keeps (codes "then") p1 i1 (omega arith))
            (λ u p2 i2 le2.
              and_then-Keeps 1 0 0 p2 i2 _ _ (omega arith)
                (compound_list-Keeps command bound good p2 i2 (omega arith))
                (λ body p3 i3 le3.
                  ok-Keeps {A = Command W (IoRedirect W) × Command W (IoRedirect W)} p3 i3
                    (c, body))))

  else_part-Keeps :
      (fuel : ℕ) (p : Parser) (input : Bytes)
      → length input < fuel
      → length input < bound
      → Keeps 0 p input (else_part word command fuel p input)
  unfolding else_part
  else_part-Keeps zero p input h b = absurd (omega arith)
  else_part-Keeps (suc fuel) p input h b =
      attempt-Keeps 1 0 0 p input _ _ _ (omega arith)
        (keyword-Keeps (codes "elif") p input (omega arith))
        (λ u p1 i1 le1.
          and_then-Keeps 1 0 0 p1 i1 _ _ (omega arith) (condition-Keeps p1 i1 (omega arith))
            (λ (c, body) p2 i2 le2.
              or_else-Keeps 0 p2 i2 _ _
                (and_then-Keeps 0 0 0 p2 i2 _ _ (omega arith)
                  (else_part-Keeps fuel p2 i2 (omega arith) (omega arith))
                  (λ e p3 i3 le3. ok-Keeps p3 i3 (elif_clause c body e)))
                (λ p3. ok-Keeps p3 i2 (elif_clause c body no_else))))
        (λ p1.
          and_then-Keeps 1 0 0 p1 input _ _ (omega arith)
            (keyword-Keeps (codes "else") p1 input (omega arith))
            (λ u p2 i2 le2.
              and_then-Keeps 1 0 0 p2 i2 _ _ (omega arith)
                (compound_list-Keeps command bound good p2 i2 (omega arith))
                (λ body p3 i3 le3. ok-Keeps p3 i3 (else_clause body no_else))))

  pub if_clause-Keeps :
      (p : Parser) (input : Bytes)
      → length input < bound
      → Keeps 1 p input (if_clause word command p input)
  unfolding if_clause
  if_clause-Keeps p input b = with_kind-Keeps 1 p input in_if _ (
      and_then-Keeps 1 0 1 p input _ _ (omega arith) (condition-Keeps p input b)
        (λ (c, body) p1 i1 le1.
          and_then-Keeps 0 0 0 p1 i1 _ _ (omega arith)
            (or_else-Keeps 0 p1 i1 _ _
              (else_part-Keeps (suc (length i1)) p1 i1 (omega arith) (omega arith))
              (λ p2. ok-Keeps {A = ElseClause W (IoRedirect W)} p2 i1 no_else))
            (λ e p3 i3 le3.
              and_then-Keeps 1 0 0 p3 i3 _ _ (omega arith)
                (keyword-Keeps (codes "fi") p3 i3 (omega arith))
                (λ u p4 i4 le4. ok-Keeps p4 i4 (Syntax.if_clause c body e)))))

  pub while_clause-Keeps :
      (check : Bool) (p : Parser) (input : Bytes)
      → length input < bound
      → Keeps 1 p input (while_clause word command check p input)
  unfolding while_clause
  while_clause-Keeps check p input b = with_kind-Keeps 1 p input in_while _ (
      and_then-Keeps 1 0 1 p input _ _ (omega arith)
        (compound_list-Keeps command bound good p input b)
        (λ c p1 i1 le1.
          and_then-Keeps 1 0 0 p1 i1 _ _ (omega arith)
            (do_group-Keeps command bound good p1 i1 (omega arith))
            (λ body p2 i2 le2. ok-Keeps p2 i2 (Syntax.while_clause c check body))))
