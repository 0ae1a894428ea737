-- ===== src/Sh/Ast/Safety/Commands.antt =====
-- libmesabox/src/posix/sh/ast.rs: panics and balance of scopes and loops, for commands and lists.
use mesabox.Common.{
  ℕ, zero, suc, ◌≡◌, refl, ◌∙◌, ℤ, pos, is_zero, Option, List, [], Bool-cases, if◌then◌else◌, inl,
  inr,
}
use mesabox.Common.Bytes.{Bytes}
use mesabox.Sh.Ast.Syntax.{
  Command, ElseClause, CaseList, Lists, Chain, Pipeline, Commands, if_clause, while_clause,
  for_clause, case_clause, function_def, and_or, sub_shell, simple, no_else, elif_clause,
  else_clause, no_items, item, empty_item, no_chains, chain, end_chain, link, pipeline, last,
  before,
}
use mesabox.Sh.Ast.Run.{Run, check_break}
use mesabox.Sh.Ast.Shell.{Env, Shell}
use mesabox.Sh.Ast.Children.{ShellChild}
use mesabox.Sh.Ast.Parts.{Action, if_then, runs, matches, set_last_exitcode, succeeds}
use mesabox.Sh.Ast.Exec.{
  execute, execute_else, execute_case, exec_list, exec_andor_chain, execute_pipeline,
  execute_commands, execute_rest, spawn, run,
}
use mesabox.Sh.Ast.Safety.Shape.{
  Shape, shape, entered, entered-HasStreams, deeper, HasStreams, shape-set_func,
}
use mesabox.Sh.Ast.Safety.Safe.{Safe, bind-Safe, then-Safe, Keeps, SafeAt, Lawful}
use mesabox.Sh.Ast.Safety.Loops.{in_loop-Safe, while_loop-Safe, for_words-Safe}
use mesabox.Sh.Ast.Safety.Simple.{execute_simple-Safe, spawn_simple-Safe}
use mesabox.Sh.Ast.Safety.Children.{
  matches-Safe, spawn_one-Safe, spawn_child-Safe, spawn_subshell-Safe, in_subshell-Safe,
  finish-Safe,
}

module _ {W R : Type 0} where
  shape-set_last : (env : Env W R) (code : ℤ) → shape (set_last_exitcode env code) ≡ shape env
  unfolding shape
  shape-set_last env code = refl

  -- What goes on only if no `break` or `continue` is pending.
  if_break-Safe :
      (s : Shape) (r : Env W R × ℤ) (stop go : Run (Env W R × ℤ))
      → Safe (Keeps s) stop
      → Safe (Keeps s) go
      → Safe (Keeps s) (if check_break r.0 then stop else go)
  if_break-Safe s r stop go hs hg = elim (Bool-cases (check_break r.0)) [
    | inl e ↦ rw e hs
    | inr e ↦ rw e hg
  ]

  if_then-Safe :
      (s : Shape) (cond : Run (Env W R × ℤ)) (body else_stmt : Action W R)
      → Safe (Keeps s) cond
      → SafeAt s body
      → SafeAt s else_stmt
      → Safe (Keeps s) (if_then cond body else_stmt)
  unfolding if_then
  if_then-Safe s cond body else_stmt hc hb he = bind-Safe (Keeps s) (Keeps s) cond _ hc (λ r kept.
      elim (Bool-cases (is_zero r.1)) [
        | inl z ↦ rw z (if_break-Safe s r _ _ kept (hb r.0 kept))
        | inr z ↦ rw z (he r.0 kept)
      ])

module _ {W R P : Type 0} (shell : Shell W R P) (lawful : Lawful shell) where
  module _ (call : Command W R → Action W R)
      (hc : (s : Shape) → HasStreams s → (cmd : Command W R) → SafeAt s (call cmd)) (n : ℕ) where
    mutual
      unfolding execute

      execute-Safe :
          (cmd : Command W R) (s : Shape) → HasStreams s → SafeAt s (execute shell call n cmd)
      execute-Safe (if_clause cond body else_stmt) s hs env e =
          if_then-Safe s _ _ _ (execute-Safe cond s hs env e) (execute-Safe body s hs)
            (execute_else-Safe else_stmt s hs)
      execute-Safe (while_clause cond desired body) s hs env e =
          in_loop-Safe s _
            (while_loop-Safe (deeper s) (execute shell call n cond) (execute shell call n body)
              (execute-Safe cond (deeper s) hs) (execute-Safe body (deeper s) hs) n desired (pos 0))
            env e
      execute-Safe (for_clause name words body) s hs env e =
          in_loop-Safe s _
            (for_words-Safe shell lawful (deeper s) hs name words (execute shell call n body)
              (execute-Safe body (deeper s) hs))
            env e
      execute-Safe (case_clause word items) s hs env e =
          then-Safe s (shell.eval word env) _ (lawful.eval s hs word env e)
            (λ q kept. execute_case-Safe items q.1 s hs q.0 kept)
      execute-Safe (function_def name body) s hs env e = shape-set_func env name body ∙ e
      execute-Safe (and_or list) s hs env e = exec_list-Safe list (pos 0) s hs env e
      execute-Safe (sub_shell list) s hs env e =
          bind-Safe (Keeps s) (Keeps s) _ _
            (in_subshell-Safe shell lawful s (succeeds shell (exec_list shell call n list (pos 0)))
              hs env e)
            (λ r kept. kept)
      execute-Safe (simple cmd) s hs env e =
          bind-Safe (Keeps s) (Keeps s) _ _
            (execute_simple-Safe shell lawful call hc s hs cmd env e) (λ r kept. kept)

      execute_else-Safe :
          (c : ElseClause W R) (s : Shape) → HasStreams s → SafeAt s (execute_else shell call n c)
      execute_else-Safe no_else s hs env e = e
      execute_else-Safe (elif_clause cond body else_stmt) s hs env e =
          if_then-Safe s _ _ _ (execute-Safe cond s hs env e) (execute-Safe body s hs)
            (execute_else-Safe else_stmt s hs)
      execute_else-Safe (else_clause body else_stmt) s hs env e = execute-Safe body s hs env e

      execute_case-Safe :
          (items : CaseList W R) (value : Bytes) (s : Shape)
          → HasStreams s
          → SafeAt s (execute_case shell call n items value)
      execute_case-Safe no_items value s hs env e = e
      execute_case-Safe (item pattern actions items) value s hs env e =
          then-Safe s (matches shell pattern value env) _
            (matches-Safe shell lawful s hs pattern value env e)
            (λ q kept. elim (Bool-cases q.1) [
              | inl f ↦ rw f (execute-Safe actions s hs q.0 kept)
              | inr f ↦ rw f (execute_case-Safe items value s hs q.0 kept)
            ])
      execute_case-Safe (empty_item pattern items) value s hs env e =
          then-Safe s (matches shell pattern value env) _
            (matches-Safe shell lawful s hs pattern value env e)
            (λ q kept. elim (Bool-cases q.1) [
              | inl f ↦ rw f kept
              | inr f ↦ rw f (execute_case-Safe items value s hs q.0 kept)
            ])

      exec_list-Safe :
          (list : Lists W R) (code : ℤ) (s : Shape)
          → HasStreams s
          → SafeAt s (exec_list shell call n list code)
      exec_list-Safe no_chains code s hs env e = e
      exec_list-Safe (chain c rest) code s hs env e =
          bind-Safe (Keeps s) (Keeps s) (exec_andor_chain shell call n c (pos 0) env) _
            (exec_andor_chain-Safe c (pos 0) s hs env e)
            (λ r kept. if_break-Safe s r _ _ kept (exec_list-Safe rest r.1 s hs r.0 kept))

      exec_andor_chain-Safe :
          (c : Chain W R) (code : ℤ) (s : Shape)
          → HasStreams s
          → SafeAt s (exec_andor_chain shell call n c code)
      exec_andor_chain-Safe end_chain code s hs env e = e
      exec_andor_chain-Safe (link separator p rest) code s hs env e =
          let go = λ (r : Env W R × ℤ) (kept : Keeps s r).
            if_break-Safe s r _ _ kept (exec_andor_chain-Safe rest r.1 s hs r.0 kept) in
          elim (Bool-cases (runs separator code)) [
            | inl runs_it ↦ rw runs_it (
                bind-Safe (Keeps s) (Keeps s) _ _
                  (bind-Safe (Keeps s) (Keeps s) _ _ (execute_pipeline-Safe p s hs env e)
                    (λ r kept. shape-set_last r.0 r.1 ∙ kept))
                  go)
            | inr skips_it ↦ rw skips_it (go (env, code) e)
          ]

      execute_pipeline-Safe :
          (p : Pipeline W R) (s : Shape) → HasStreams s → SafeAt s (execute_pipeline shell call n p)
      execute_pipeline-Safe (pipeline commands bang) s hs env e =
          bind-Safe (Keeps s) (Keeps s) _ _ (execute_commands-Safe commands s hs env e)
            (λ r kept. shape-set_last r.0 _ ∙ kept)

      execute_commands-Safe :
          (commands : Commands W R) (s : Shape)
          → HasStreams s
          → SafeAt s (execute_commands shell call n commands)
      execute_commands-Safe (last cmd) s hs env e = execute-Safe cmd s hs env e
      execute_commands-Safe (before cmd rest) s hs env e =
          bind-Safe (Keeps s) (Keeps s) _ _
            (spawn_one-Safe shell s (spawn shell call n cmd (execute shell call n cmd)) []
              (spawn-Safe cmd _ (entered s) (entered-HasStreams s hs)) env e)
            (λ r kept. execute_rest-Safe rest r.1 s hs r.0 kept)

      execute_rest-Safe :
          (commands : Commands W R) (children : List (ShellChild P)) (s : Shape)
          → HasStreams s
          → SafeAt s (execute_rest shell call n commands children)
      execute_rest-Safe (last cmd) children s hs env e =
          finish-Safe shell lawful s children (execute shell call n cmd) hs
            (execute-Safe cmd (entered s) (entered-HasStreams s hs)) env e
      execute_rest-Safe (before cmd rest) children s hs env e =
          bind-Safe (Keeps s) (Keeps s) _ _
            (spawn_one-Safe shell s (spawn shell call n cmd (execute shell call n cmd)) children
              (spawn-Safe cmd _ (entered s) (entered-HasStreams s hs)) env e)
            (λ r kept. execute_rest-Safe rest r.1 s hs r.0 kept)

      spawn-Safe :
          (cmd : Command W R) (action : Action W R) (s : Shape)
          → HasStreams s
          → (previous : Option (ShellChild P)) → SafeAt s (spawn shell call n cmd action previous)
      spawn-Safe (simple cmd) action s hs previous env e =
          spawn_simple-Safe shell lawful call hc s hs cmd previous env e
      spawn-Safe (sub_shell list) action s hs previous env e =
          spawn_subshell-Safe shell s (exec_list shell call n list (pos 0)) previous hs env e
      spawn-Safe (if_clause cond body else_stmt) action s hs previous env e =
          spawn_child-Safe shell s _ hs env e
      spawn-Safe (while_clause cond desired body) action s hs previous env e =
          spawn_child-Safe shell s _ hs env e
      spawn-Safe (for_clause name words body) action s hs previous env e =
          spawn_child-Safe shell s _ hs env e
      spawn-Safe (case_clause word items) action s hs previous env e =
          spawn_child-Safe shell s _ hs env e
      spawn-Safe (function_def name body) action s hs previous env e =
          spawn_child-Safe shell s _ hs env e
      spawn-Safe (and_or list) action s hs previous env e = spawn_child-Safe shell s _ hs env e

  run-Safe : (n : ℕ) (cmd : Command W R) (s : Shape) → HasStreams s → SafeAt s (run shell n cmd)
  unfolding run
  run-Safe zero cmd s hs env e = tt
  run-Safe (suc n) cmd s hs env e =
      execute-Safe (run shell n) (λ t ht c. run-Safe n c t ht) n cmd s hs env e

  -- With lawful words, redirections, builtins and processes, and the standard streams in place, no command
  -- panics, and one that ends leaves as many loops, scopes of the arguments and scopes of each descriptor
  -- open as there were.
  pub run_balanced :
      (n : ℕ) (cmd : Command W R) (s : Shape) → HasStreams s → SafeAt s (run shell n cmd)
  run_balanced n cmd s hs env e = run-Safe n cmd s hs env e
