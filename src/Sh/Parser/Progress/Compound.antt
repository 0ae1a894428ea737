-- ===== src/Sh/Parser/Progress/Compound.antt =====
-- Commands of libmesabox/src/posix/sh/parser.rs: one of them takes a byte at least, if those that are
-- nested in it do.
use mesabox.Common.{
  ℕ, suc, ◌<◌, Bool, true, false, not, Option, [], ◌∷◌, length, if◌then◌else◌, arith,
}
use mesabox.Common.Bytes.{Bytes, codes, bytes_eq}
use mesabox.Sh.Ast.Syntax
use mesabox.Sh.Ast.Syntax.{Command}
use mesabox.Sh.Ast.Redirects.{IoRedirect}
use mesabox.Sh.Parser.Defs
use mesabox.Sh.Parser.Defs.{
  panic, endless, no_fuel, Errors, Parsed, ok, err, compound_command_keyword, in_function_def,
}
use mesabox.Sh.Parser.Space.{is_token, is_keyword}
use mesabox.Sh.Parser.Names.{fname}
use mesabox.Sh.Parser.Redirect.{io_redirect}
use mesabox.Sh.Parser.Lists.{subshell, brace_group}
use mesabox.Sh.Parser.Clauses.{for_clause, case_clause, if_clause, while_clause}
use mesabox.Sh.Parser.State
use mesabox.Sh.Parser.State.{Parser, Step}
use mesabox.Sh.Parser.Compound.{
  no_keyword, redirect_list, redirected, clause_of, compound_command, function_body, function_def,
  simple, named_command, command_step,
}
use mesabox.Sh.Parser.Progress.Base.{
  Left, Within, Left-length, shift-Keeps, Keeps, and_then-Within, and_then-Keeps, or_else-Keeps,
  recover-Keeps, attempt-Keeps, with_kind-Keeps, lift-Keeps, ok-Keeps,
}
use mesabox.Sh.Parser.Progress.Space.{is_token-Within}
use mesabox.Sh.Parser.Progress.Names.{fname-Within}
use mesabox.Sh.Parser.Progress.Lines.{linebreak-Keeps}
use mesabox.Sh.Parser.Progress.Redirect.{io_redirect-Keeps, many_matches1-Keeps}
use mesabox.Sh.Parser.Progress.Simple.{simple_command-Keeps}
use mesabox.Sh.Parser.Progress.Lists.{subshell-Keeps, brace_group-Keeps}
use mesabox.Sh.Parser.Progress.Clauses.{
  token-Keeps, keyword-Keeps, for_clause-Keeps, case_clause-Keeps,
}
use mesabox.Sh.Parser.Progress.Conditions.{if_clause-Keeps, while_clause-Keeps}

module _ {W : Type 0} (word : Step W) (text : W → Option Bytes) (bound : ℕ)
    (words : (p : Parser) (i : Bytes) → length i < suc bound → Keeps 1 p i (word p i))
    (command : Step (Command W (IoRedirect W)))
    (good : (p : Parser) (i : Bytes) → length i < bound → Keeps 1 p i (command p i)) where
  below : (p : Parser) (i : Bytes) → length i < bound → Keeps 1 p i (word p i)
  below p i le = words p i (omega arith)

  redirected-Keeps :
      (p : Parser) (input : Bytes) (r : Parser × Parsed (Command W (IoRedirect W)))
      → length input < bound
      → Keeps 1 p input r
      → Keeps 1 p input (redirected word text command r)
  redirected-Keeps p input r b h = and_then-Keeps 1 0 1 p input r _ (omega arith) h (λ c p1 i1 le1.
      or_else-Keeps 0 p1 i1 _ _
        (and_then-Keeps 1 0 0 p1 i1 (redirect_list word text p1 i1) _ (omega arith)
          (list_of p1 i1 (omega arith)) (λ rs p2 i2 le2. ok-Keeps p2 i2 c))
        (λ p2. ok-Keeps p2 i1 c))
    where
      list_of :
          (p1 : Parser) (i1 : Bytes)
          → length i1 < bound
          → Keeps 1 p1 i1 (redirect_list word text p1 i1)
      list_of p1 i1 le =
          unfold redirect_list in
          many_matches1-Keeps (io_redirect word) bound
            (λ p' i' le'. io_redirect-Keeps word bound below p' i' le') p1 i1 le

  clause_of-Keeps :
      (n : Bytes) (p : Parser) (input : Bytes)
      → length input < bound
      → Keeps 1 p input (clause_of word text command n p input)
  unfolding clause_of
  clause_of-Keeps n p input b =
      clause_step (bytes_eq n (codes "for")) (bytes_eq n (codes "case")) (bytes_eq n (codes "if"))
        (bytes_eq n (codes "while")) (bytes_eq n (codes "until"))
    where
      after :
          Parser × Parsed (Command W (IoRedirect W)) → Parser × Parsed (Command W (IoRedirect W))
      after = redirected word text command

      clause_step :
          (b1 b2 b3 b4 b5 : Bool)
          → Keeps {A = Command W (IoRedirect W)} 1 p input (
              if b1
              then after (for_clause word command p input)
              else if b2
              then after (case_clause word command p input)
              else if b3
              then after (if_clause word command p input)
              else if b4
              then after (while_clause word command true p input)
              else if b5
              then after (while_clause word command false p input)
              else (p, err (compound_command_keyword ∷ [])))
      clause_step true b2 b3 b4 b5 =
          redirected-Keeps p input (for_clause word command p input) b
            (for_clause-Keeps word bound below command good p input b)
      clause_step false true b3 b4 b5 =
          redirected-Keeps p input (case_clause word command p input) b
            (case_clause-Keeps word bound below command good p input b)
      clause_step false false true b4 b5 =
          redirected-Keeps p input (if_clause word command p input) b
            (if_clause-Keeps word bound command good p input b)
      clause_step false false false true b5 =
          redirected-Keeps p input (while_clause word command true p input) b
            (while_clause-Keeps word bound command good true p input b)
      clause_step false false false false true =
          redirected-Keeps p input (while_clause word command false p input) b
            (while_clause-Keeps word bound command good false p input b)
      clause_step false false false false false =
          lift-Keeps {A = Command W (IoRedirect W)} 1 p input (err (compound_command_keyword ∷ []))
            tt

  compound_command-Keeps :
      (p : Parser) (input : Bytes)
      → length input < bound
      → Keeps 1 p input (compound_command word text command p input)
  unfolding compound_command
  compound_command-Keeps p input b =
      attempt-Keeps 1 1 1 p input _ _ _ (omega arith)
        (token-Keeps (codes "(") p input (omega arith))
        (λ u p1 i1 le1. subshell-Keeps command bound good p1 i1 (omega arith))
        (λ p1.
          attempt-Keeps 1 1 1 p1 input _ _ _ (omega arith)
            (keyword-Keeps (codes "{") p1 input (omega arith))
            (λ u p2 i2 le2. brace_group-Keeps command bound good p2 i2 (omega arith))
            (λ p2.
              and_then-Keeps 1 1 1 p2 input (p2, fname input) _ (omega arith)
                (lift-Keeps 1 p2 input _ (fname-Within input))
                (λ n p3 i3 le3. clause_of-Keeps n p3 i3 (omega arith))))

  function_def-Keeps :
      (n : Bytes) (p : Parser) (input : Bytes)
      → length input < bound
      → Keeps 1 p input (function_def word text command n p input)
  unfolding function_def function_body
  function_def-Keeps n p input b = with_kind-Keeps 1 p input in_function_def _ (
      and_then-Keeps 0 1 1 p input _ _ (omega arith) (linebreak-Keeps p input) (λ u p1 i1 le1.
        and_then-Keeps 1 0 1 p1 i1 _ _ (omega arith)
          (redirected-Keeps p1 i1 (compound_command word text command p1 i1) (omega arith)
            (compound_command-Keeps p1 i1 (omega arith)))
          (λ body p2 i2 le2. ok-Keeps p2 i2 (Syntax.function_def n body))))

  simple-Keeps :
      (p : Parser) (input : Bytes)
      → length input < suc bound
      → Keeps 1 p input (simple word text command p input)
  simple-Keeps p input b =
      and_then-Keeps 1 0 1 p input _ _ (omega arith)
        (simple_command-Keeps word text (suc bound) words p input b)
        (λ c p1 i1 le1. ok-Keeps p1 i1 (Syntax.simple c))

  named_command-Keeps :
      (n orig : Bytes) (p : Parser) (rest : Bytes)
      → length orig < suc bound
      → Left 1 rest orig
      → Keeps 1 p orig (named_command word text command n orig p rest)
  unfolding named_command
  named_command-Keeps n orig p rest b l =
      attempt-Keeps 1 1 1 p orig _ _ _ (omega arith)
        (shift-Keeps 1 1 1 p rest orig (p, parentheses) (omega arith) l
          (lift-Keeps 1 p rest parentheses (
            and_then-Within 1 1 1 rest (is_token (codes "(") rest) _ (omega arith)
              (is_token-Within (codes "(") rest (omega arith))
              (λ u i le. is_token-Within (codes ")") i (omega arith)))))
        (λ u p1 i1 le1. function_def-Keeps n p1 i1 (omega arith)) (λ p1. simple-Keeps p1 orig b)
    where
      parentheses : Parsed (Unit {0})
      parentheses = Defs.and_then (is_token (codes "(") rest) λ u i. is_token (codes ")") i

  pub command_step-Keeps :
      (p : Parser) (input : Bytes)
      → length input < suc bound
      → Keeps 1 p input (command_step word text command p input)
  unfolding command_step
  command_step-Keeps p input b = name_step (fname input) (fname-Within input)
    where
      named : Bytes → Parser → Bytes → Parser × Parsed (Command W (IoRedirect W))
      named n p1 rest = State.recover (clause_of word text command n p1 rest) λ e p2.
          if not (no_keyword e)
          then (p2, err e)
          else named_command word text command n input p2 rest

      other : Parser → Parser × Parsed (Command W (IoRedirect W))
      other p1 =
          State.attempt (p1, is_token (codes "(") input) (λ u p2 rest. subshell command p2 rest)
            (λ p2.
              State.attempt (p2, is_keyword (codes "{") input)
                (λ u p3 rest. brace_group command p3 rest)
                (λ p3. simple word text command p3 input))

      other-Keeps : (p1 : Parser) → Keeps 1 p1 input (other p1)
      other-Keeps p1 =
          attempt-Keeps 1 1 1 p1 input _ _ _ (omega arith)
            (token-Keeps (codes "(") p1 input (omega arith))
            (λ u p2 i2 le2. subshell-Keeps command bound good p2 i2 (omega arith))
            (λ p2.
              attempt-Keeps 1 1 1 p2 input _ _ _ (omega arith)
                (keyword-Keeps (codes "{") p2 input (omega arith))
                (λ u p3 i3 le3. brace_group-Keeps command bound good p3 i3 (omega arith))
                (λ p3. simple-Keeps p3 input b))

      error_step :
          (n rest : Bytes) (l : Left 1 rest input) (e : Errors) (p2 : Parser) (c : Bool)
          → Keeps {A = Command W (IoRedirect W)} 1 p2 input
              (if c then (p2, err e) else named_command word text command n input p2 rest)
      error_step n rest l e p2 true =
          lift-Keeps {A = Command W (IoRedirect W)} 1 p2 input (err e) tt
      error_step n rest l e p2 false = named_command-Keeps n input p2 rest b l

      name_step :
          (r : Parsed Bytes) → Within 1 input r → Keeps 1 p input (State.attempt (p, r) named other)
      name_step (ok n rest) l =
          recover-Keeps 1 p input (clause_of word text command n p rest) _
            (shift-Keeps 1 1 1 p rest input (clause_of word text command n p rest) (omega arith) l
              (clause_of-Keeps n p rest (omega (arith, Left-length 1 rest input l))))
            (λ e p2. error_step n rest l e p2 (not (no_keyword e)))
      name_step (err e) l = other-Keeps p
      name_step panic l = lift-Keeps {A = Command W (IoRedirect W)} 1 p input panic tt
      name_step endless l = lift-Keeps {A = Command W (IoRedirect W)} 1 p input endless tt
      name_step no_fuel l = lift-Keeps {A = Command W (IoRedirect W)} 1 p input no_fuel l
