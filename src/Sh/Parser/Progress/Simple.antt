-- ===== src/Sh/Parser/Progress/Simple.antt =====
-- Simple commands of libmesabox/src/posix/sh/parser.rs.
use mesabox.Common.{ℕ, ◌<◌, Option, none, some, List, [], ◌∷◌, length, arith, ◌>>=◌}
use mesabox.Common.Bytes.{Bytes, codes}
use mesabox.Sh.Ast.Syntax.{VarAssign, PreAction, PostAction, var_assign, SimpleCommand}
use mesabox.Sh.Ast.Redirects.{IoRedirect}
use mesabox.Sh.Parser.Defs.{
  Parsed, ok, err, panic, endless, no_fuel, cmd_name_keyword, is_next, in_simple_command,
}
use mesabox.Sh.Parser.Space.{ignore}
use mesabox.Sh.Parser.Names.{var_name}
use mesabox.Sh.Parser.State
use mesabox.Sh.Parser.State.{Parser, Step}
use mesabox.Sh.Parser.Simple.{
  keywords, find_keyword, cmd_name, cmd_word, assignment, pre_action, post_action, cmd_prefix,
  cmd_suffix, suffix_or_none, after_prefix, simple_command,
}
use mesabox.Sh.Parser.Progress.Base.{
  Within, Keeps, and_then-Keeps, or_else-Keeps, with_kind-Keeps, lift-Keeps, ok-Keeps, weaken-Keeps,
}
use mesabox.Sh.Parser.Progress.Space.{is_next-Within, ignore-Within}
use mesabox.Sh.Parser.Progress.Names.{var_name-Within}
use mesabox.Sh.Parser.Progress.Redirect.{io_redirect-Keeps, many_matches1-Keeps}

module _ {W : Type 0} (word : Step W) (text : W → Option Bytes) (bound : ℕ)
    (words : (p : Parser) (i : Bytes) → length i < bound → Keeps 1 p i (word p i)) where
  cmd_name-Keeps :
      (p : Parser) (input : Bytes)
      → length input < bound
      → Keeps 1 p input (cmd_name word text p input)
  unfolding cmd_name
  cmd_name-Keeps p input b =
      and_then-Keeps 1 0 1 p input (word p input) _ (omega arith) (words p input b)
        (λ w p1 i1 le. keyword_step w p1 i1 (text w >>= find_keyword keywords))
    where
      keyword_step :
          (w : W) (p1 : Parser) (i1 : Bytes) (o : Option Bytes)
          → Keeps {A = W} 0 p1 i1
              (elim o [ some k ↦ (p1, err (cmd_name_keyword k ∷ [])) | none ↦ (p1, ok w i1) ])
      keyword_step w p1 i1 none = ok-Keeps p1 i1 w
      keyword_step w p1 i1 (some k) = lift-Keeps {A = W} 0 p1 i1 (err (cmd_name_keyword k ∷ [])) tt

  assignment-Keeps :
      (p : Parser) (input : Bytes)
      → length input < bound
      → Keeps 1 p input (assignment word text p input)
  unfolding assignment
  assignment-Keeps p input b =
      and_then-Keeps 1 0 1 p input (p, var_name input) _ (omega arith)
        (lift-Keeps 1 p input _ (var_name-Within input))
        (λ n p1 i1 le1.
          and_then-Keeps 1 0 0 p1 i1 (p1, is_next (codes "=") i1) _ (omega arith)
            (lift-Keeps 1 p1 i1 _ (is_next-Within (codes "=") i1 (omega arith)))
            (λ u p2 i2 le2.
              or_else-Keeps 0 p2 i2 _ _
                (and_then-Keeps 1 0 0 p2 i2 (word p2 i2) _ (omega arith) (words p2 i2 (omega arith))
                  (λ w p3 i3 le3.
                    ok-Keeps {A = VarAssign W} p3 i3 (record { varname = n; value = some w })))
                (λ p3. empty_step n p3 i2 (ignore i2) (ignore-Within i2))))
    where
      empty_step :
          (n : Bytes) (p3 : Parser) (i2 : Bytes) (r : Parsed (Unit {0}))
          → Within 0 i2 r
          → Keeps {A = VarAssign W} 0 p3 i2 (elim r [
            | ok u i3 ↦ (p3, ok (record { varname = n; value = none }) i3)
            | err e ↦ (p3, panic)
            | panic ↦ (p3, panic)
            | endless ↦ (p3, endless)
            | no_fuel ↦ (p3, no_fuel)
          ])
      empty_step n p3 i2 (ok u i3) w =
          lift-Keeps {A = VarAssign W} 0 p3 i2 (ok (record { varname = n; value = none }) i3) w
      empty_step n p3 i2 (err e) w = lift-Keeps {A = VarAssign W} 0 p3 i2 panic tt
      empty_step n p3 i2 panic w = lift-Keeps {A = VarAssign W} 0 p3 i2 panic tt
      empty_step n p3 i2 endless w = lift-Keeps {A = VarAssign W} 0 p3 i2 endless tt
      empty_step n p3 i2 no_fuel w = lift-Keeps {A = VarAssign W} 0 p3 i2 no_fuel w

  pre_action-Keeps :
      (p : Parser) (input : Bytes)
      → length input < bound
      → Keeps 1 p input (pre_action word text p input)
  unfolding pre_action
  pre_action-Keeps p input b =
      or_else-Keeps 1 p input _ _
        (and_then-Keeps 1 0 1 p input _ _ (omega arith)
          (io_redirect-Keeps word bound words p input b)
          (λ r p1 i1 le. ok-Keeps {A = PreAction W (IoRedirect W)} p1 i1 (PreAction.io_redirect r)))
        (λ p1.
          and_then-Keeps 1 0 1 p1 input _ _ (omega arith) (assignment-Keeps p1 input b)
            (λ a p2 i2 le. ok-Keeps {A = PreAction W (IoRedirect W)} p2 i2 (var_assign a)))

  post_action-Keeps :
      (p : Parser) (input : Bytes)
      → length input < bound
      → Keeps 1 p input (post_action word text p input)
  unfolding post_action
  post_action-Keeps p input b =
      or_else-Keeps 1 p input _ _
        (and_then-Keeps 1 0 1 p input _ _ (omega arith)
          (io_redirect-Keeps word bound words p input b)
          (λ r p1 i1 le.
            ok-Keeps {A = PostAction W (IoRedirect W)} p1 i1 (PostAction.io_redirect r)))
        (λ p1.
          and_then-Keeps 1 0 1 p1 input (word p1 input) _ (omega arith) (words p1 input b)
            (λ w p2 i2 le. ok-Keeps {A = PostAction W (IoRedirect W)} p2 i2 (PostAction.word w)))

  suffix_or_none-Keeps :
      (p : Parser) (input : Bytes)
      → length input < bound
      → Keeps 0 p input (suffix_or_none word text p input)
  unfolding cmd_suffix
  suffix_or_none-Keeps p input b =
      or_else-Keeps 0 p input _ _
        (weaken-Keeps 1 0 p input _ (omega arith)
          (many_matches1-Keeps (post_action word text) bound post_action-Keeps p input b))
        (λ p1. ok-Keeps {A = List (PostAction W (IoRedirect W))} p1 input [])

  -- A word and what follows it.
  named :
      (pre : List (PreAction W (IoRedirect W))) (p : Parser) (input : Bytes) (r : Parser × Parsed W)
      → length input < bound
      → Keeps 1 p input r
      → Keeps {A = SimpleCommand W (IoRedirect W)} 1 p input (
          State.and_then r λ w p1 i1. State.and_then (suffix_or_none word text p1 i1) λ post p2 i2.
            (p2, ok (record { name = some w; pre_actions = pre; post_actions = post }) i2))
  named pre p input r b h = and_then-Keeps 1 0 1 p input r _ (omega arith) h (λ w p1 i1 le1.
      and_then-Keeps 0 0 0 p1 i1 _ _ (omega arith) (suffix_or_none-Keeps p1 i1 (omega arith))
        (λ post p2 i2 le2.
          ok-Keeps {A = SimpleCommand W (IoRedirect W)} p2 i2
            (record { name = some w; pre_actions = pre; post_actions = post })))

  after_prefix-Keeps :
      (pre : List (PreAction W (IoRedirect W))) (p : Parser) (input : Bytes)
      → length input < bound
      → Keeps 0 p input (after_prefix word text pre p input)
  unfolding after_prefix cmd_word
  after_prefix-Keeps pre p input b =
      or_else-Keeps 0 p input _ _
        (weaken-Keeps 1 0 p input _ (omega arith)
          (named pre p input (word p input) b (words p input b)))
        (λ p1.
          ok-Keeps {A = SimpleCommand W (IoRedirect W)} p1 input
            (record { name = none; pre_actions = pre; post_actions = [] }))

  pub simple_command-Keeps :
      (p : Parser) (input : Bytes)
      → length input < bound
      → Keeps 1 p input (simple_command word text p input)
  unfolding simple_command cmd_prefix
  simple_command-Keeps p input b = with_kind-Keeps 1 p input in_simple_command _ (
      or_else-Keeps 1 p input _ _
        (and_then-Keeps 1 0 1 p input _ _ (omega arith)
          (many_matches1-Keeps (pre_action word text) bound pre_action-Keeps p input b)
          (λ pre p1 i1 le. after_prefix-Keeps pre p1 i1 (omega arith)))
        (λ p1. named [] p1 input _ b (cmd_name-Keeps p1 input b)))
