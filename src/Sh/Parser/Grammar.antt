-- ===== src/Sh/Parser/Grammar.antt =====
-- libmesabox/src/posix/sh/parser.rs: the parsers of words and commands call each other; here the knot
-- is tied. The commands that are nested in a command cost a unit of fuel each, and so does a
-- substitution in a substitution.
use mesabox.Common.{ℕ, zero, suc, Option, none, some, List, [], ◌∷◌, length}
use mesabox.Common.Bytes.{Bytes}
use mesabox.Sh.Ast.Syntax.{Command, Lists}
use mesabox.Sh.Ast.Words.{Word, simple}
use mesabox.Sh.Ast.Redirects.{IoRedirect}
use mesabox.Sh.Parser.Defs.{no_fuel, ok, err}
use mesabox.Sh.Parser.Space.{ignore}
use mesabox.Sh.Parser.Lines.{newline_list}
use mesabox.Sh.Parser.Words.{word}
use mesabox.Sh.Parser.Lists.{list, compound_list}
use mesabox.Sh.Parser.Compound.{command_step}
use mesabox.Sh.Parser.State.{attempt, Step, and_then, recover}

abbrev pub simple_of : {K : Type 0} → Word K → Option Bytes
simple_of (simple text) = some text
simple_of w = none

-- The commands whose substitutions are nested `n` deep at most.
abbrev pub Tree : ℕ → Type 0
Tree zero = ⊥
Tree (suc n) = Command (Word (Tree n)) (IoRedirect (Word (Tree n)))

module _ {K : Type 0} (subst : Step K) where
  unfoldable pub command : ℕ → Step (Command (Word K) (IoRedirect (Word K)))
  unfolding word command_step
  command zero p input = (p, no_fuel)
  command (suc fuel) p input = command_step (word subst) simple_of (command fuel) p input

unfoldable pub substituted : (n : ℕ) → Step (Tree n)
unfolding compound_list command
substituted zero p input = (p, no_fuel)
substituted (suc n) p input = compound_list (command (substituted n) (suc (length input))) p input

-- The loop of `complete_command` over blank lines.
unfoldable pub skip_lines : ℕ → Step (Unit {0})
unfolding newline_list ignore
skip_lines zero p input = (p, no_fuel)
skip_lines (suc fuel) p input =
    attempt (and_then (newline_list p input) λ u p1 i1. (p1, ignore i1))
      (λ u p' rest. skip_lines fuel p' rest) (λ p'. (p', ok tt input))

module _ (n : ℕ) where
  abbrev pub Tops : Type 0
  Tops = List (Lists (Word (Tree n)) (IoRedirect (Word (Tree n))))

  -- A line with commands must end at a newline or at the end of the input.
  unfoldable pub first_list : Step Tops
  unfolding list command substituted ignore newline_list
  first_list p input =
      and_then (list (command (substituted n) (suc (length input))) p input) λ ls p1 i1.
        and_then (p1, ignore i1)
          λ u p2 i2.
            recover (and_then (newline_list p2 i2) λ u p3 i3. (p3, ok (ls ∷ []) i3))
              (λ e p3. elim i2 [ [] ↦ (p3, ok (ls ∷ []) []) | c ∷ rest ↦ (p3, err e) ])

  unfoldable pub after_lines : Step Tops
  unfolding first_list
  after_lines p [] = (p, ok [] [])
  after_lines p (c ∷ input) = first_list p (c ∷ input)

  unfoldable pub complete_command : Step Tops
  unfolding ignore skip_lines after_lines
  complete_command p input =
      and_then (p, ignore input)
        λ u p1 i1. and_then (skip_lines (suc (length i1)) p1 i1) λ u p2 i2. after_lines p2 i2
