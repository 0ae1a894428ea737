-- ===== src/Sh/Parser/Progress/Grammar.antt =====
-- Whole scripts of libmesabox/src/posix/sh/parser.rs.
use mesabox.Common.{ℕ, zero, suc, ◌≤◌, ◌<◌, [], ◌∷◌, length, arith}
use mesabox.Common.Bytes.{Bytes}
use mesabox.Sh.Ast.Syntax.{Lists}
use mesabox.Sh.Ast.Words.{Word}
use mesabox.Sh.Ast.Redirects.{IoRedirect}
use mesabox.Sh.Parser.Defs.{Errors, ok, err}
use mesabox.Sh.Parser.Space.{ignore}
use mesabox.Sh.Parser.Words.{word}
use mesabox.Sh.Parser.State.{Parser, Step}
use mesabox.Sh.Parser.Grammar.{
  simple_of, Tree, command, substituted, skip_lines, Tops, first_list, after_lines,
  complete_command,
}
use mesabox.Sh.Parser.Progress.Base.{
  Keeps, and_then-Keeps, recover-Keeps, attempt-Keeps, lift-Keeps, ok-Keeps, weaken-Keeps,
}
use mesabox.Sh.Parser.Progress.Space.{ignore-Within}
use mesabox.Sh.Parser.Progress.Lines.{newline_list-Keeps}
use mesabox.Sh.Parser.Progress.Words.{word-Keeps}
use mesabox.Sh.Parser.Progress.Lists.{list-Keeps, compound_list-Keeps}
use mesabox.Sh.Parser.Progress.Compound.{command_step-Keeps}

-- Commands whose substitutions are good below a bound: as much fuel as there are bytes, and one, is
-- enough.
module _ {K : Type 0} (subst : Step K) (bound : ℕ)
    (lists : (p : Parser) (i : Bytes) → length i < bound → Keeps 0 p i (subst p i)) where
  command-Keeps :
      (fuel : ℕ) (p : Parser) (input : Bytes)
      → length input < fuel
      → length input ≤ bound
      → Keeps 1 p input (command subst fuel p input)
  unfolding command
  command-Keeps zero p input h b = absurd (omega arith)
  command-Keeps (suc fuel) p input h b =
      command_step-Keeps (word subst) simple_of (length input)
        (λ p1 i1 le. word-Keeps subst bound lists p1 i1 (omega arith)) (command subst fuel)
        (λ p1 i1 le. command-Keeps fuel p1 i1 (omega arith) (omega arith)) p input (omega arith)

substituted-Keeps :
    (n : ℕ) (p : Parser) (input : Bytes)
    → length input < n
    → Keeps 1 p input (substituted n p input)
unfolding substituted
substituted-Keeps zero p input h = absurd (omega arith)
substituted-Keeps (suc n) p input h =
    compound_list-Keeps (command (substituted n) (suc (length input))) (suc (length input))
      (λ p1 i1 le.
        command-Keeps (substituted n) n
          (λ p2 i2 le2.
            weaken-Keeps 1 0 p2 i2 (substituted n p2 i2) (omega arith)
              (substituted-Keeps n p2 i2 le2))
          (suc (length input)) p1 i1 le (omega arith))
      p input (omega arith)

skip_lines-Keeps :
    (fuel : ℕ) (p : Parser) (input : Bytes)
    → length input < fuel
    → Keeps 0 p input (skip_lines fuel p input)
unfolding skip_lines
skip_lines-Keeps zero p input h = absurd (omega arith)
skip_lines-Keeps (suc fuel) p input h =
    attempt-Keeps 1 0 0 p input _ _ _ (omega arith)
      (and_then-Keeps 1 0 1 p input _ _ (omega arith) (newline_list-Keeps p input)
        (λ u p1 i1 le1. lift-Keeps 0 p1 i1 _ (ignore-Within i1)))
      (λ u p2 i2 le2. skip_lines-Keeps fuel p2 i2 (omega arith))
      (λ p1. ok-Keeps {A = Unit {0}} p1 input tt)

module _ (n : ℕ) where
  first_list-Keeps :
      (p : Parser) (input : Bytes) → length input ≤ n → Keeps 1 p input (first_list n p input)
  unfolding first_list
  first_list-Keeps p input b =
      and_then-Keeps 1 0 1 p input _ _ (omega arith)
        (list-Keeps (command (substituted n) (suc (length input))) (suc (length input))
          (λ p1 i1 le.
            command-Keeps (substituted n) n
              (λ p2 i2 le2.
                weaken-Keeps 1 0 p2 i2 (substituted n p2 i2) (omega arith)
                  (substituted-Keeps n p2 i2 le2))
              (suc (length input)) p1 i1 le (omega arith))
          p input (omega arith))
        (λ ls p1 i1 le1.
          and_then-Keeps 0 0 0 p1 i1 (p1, ignore i1) _ (omega arith)
            (lift-Keeps 0 p1 i1 _ (ignore-Within i1))
            (λ u p2 i2 le2.
              recover-Keeps 0 p2 i2 _ _
                (and_then-Keeps 1 0 0 p2 i2 _ _ (omega arith) (newline_list-Keeps p2 i2)
                  (λ u p3 i3 le3. ok-Keeps {A = Tops n} p3 i3 (ls ∷ [])))
                (λ e p3. end_step ls e p3 i2)))
    where
      end_step :
          (ls : Lists (Word (Tree n)) (IoRedirect (Word (Tree n)))) (e : Errors) (p3 : Parser)
          (i2 : Bytes)
          → Keeps {A = Tops n} 0 p3 i2
              (elim i2 [ [] ↦ (p3, ok (ls ∷ []) []) | c ∷ rest ↦ (p3, err e) ])
      end_step ls e p3 [] = ok-Keeps {A = Tops n} p3 [] (ls ∷ [])
      end_step ls e p3 (c ∷ rest) = lift-Keeps {A = Tops n} 0 p3 (c ∷ rest) (err e) tt

  after_lines-Keeps :
      (p : Parser) (input : Bytes) → length input ≤ n → Keeps 0 p input (after_lines n p input)
  unfolding after_lines
  after_lines-Keeps p [] b = ok-Keeps {A = Tops n} p [] []
  after_lines-Keeps p (c ∷ input) b =
      weaken-Keeps 1 0 p (c ∷ input) (first_list n p (c ∷ input)) (omega arith)
        (first_list-Keeps p (c ∷ input) b)

  -- A parse ends, but for the loops that never do: as much depth as there are bytes is enough. What it
  -- leaves is an end of the input. No here-document is lost, every marker that waits for its text has
  -- one if that was so before, and no line is counted.
  pub complete_command-Keeps :
      (p : Parser) (input : Bytes) → length input ≤ n → Keeps 0 p input (complete_command n p input)
  unfolding complete_command
  complete_command-Keeps p input b =
      and_then-Keeps 0 0 0 p input (p, ignore input) _ (omega arith)
        (lift-Keeps 0 p input _ (ignore-Within input))
        (λ u p1 i1 le1.
          and_then-Keeps 0 0 0 p1 i1 _ _ (omega arith)
            (skip_lines-Keeps (suc (length i1)) p1 i1 (omega arith))
            (λ u p2 i2 le2. after_lines-Keeps p2 i2 (omega arith)))
