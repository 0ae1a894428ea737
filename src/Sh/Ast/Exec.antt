-- ===== src/Sh/Ast/Exec.antt =====
-- libmesabox/src/posix/sh/ast.rs: the execution of commands, lists and pipelines.
use mesabox.Common.{ℕ, zero, suc, ℤ, pos, List, [], ◌∷◌, if◌then◌else◌}
use mesabox.Common.Bytes.{Bytes}
use mesabox.Sh.Env.{set_func}
use mesabox.Sh.Ast.Syntax.{
  Command, ElseClause, CaseList, Lists, Chain, Pipeline, Commands, if_clause, while_clause,
  for_clause, case_clause, function_def, and_or, sub_shell, simple, no_else, elif_clause,
  else_clause, no_items, item, empty_item, no_chains, chain, end_chain, link, pipeline, last,
  before,
}
use mesabox.Sh.Ast.Run.{returned, out_of_fuel, ◌>>=◌, check_break}
use mesabox.Sh.Ast.Shell.{Shell}
use mesabox.Sh.Ast.Children.{ShellChild, spawn_child, in_subshell}
use mesabox.Sh.Ast.Simple.{execute_simple, spawn_simple}
use mesabox.Sh.Ast.Parts.{
  Action, Spawns, runs, negated, code_or_127, set_last_exitcode, if_then, while_loop, in_loop,
  for_words, matches, spawn_one, finish, spawn_subshell, succeeds,
}

module _ {W R P : Type 0} (shell : Shell W R P) where
  -- `call` runs the body of a function, and `fuel` bounds the rounds of a loop.
  module _ (call : Command W R → Action W R) (fuel : ℕ) where
    unfoldable mutual
      unfolding execute_simple spawn_simple set_func while_loop in_loop for_words matches spawn_one
          finish spawn_subshell in_subshell spawn_child check_break if_then

      pub execute : Command W R → Action W R
      execute (if_clause cond body else_stmt) env =
          if_then (execute cond env) (execute body) (execute_else else_stmt)
      execute (while_clause cond desired body) env =
          in_loop (while_loop fuel (execute cond) desired (execute body) (pos 0)) env
      execute (for_clause name words body) env =
          in_loop (for_words shell name words (execute body)) env
      execute (case_clause word items) env = shell.eval word env >>= λ q. execute_case items q.1 q.0
      execute (function_def name body) env = returned ((set_func env name body).0, pos 0)
      execute (and_or list) env = exec_list list (pos 0) env
      execute (sub_shell list) env =
          in_subshell shell (succeeds shell (exec_list list (pos 0))) env >>= λ r.
          returned (r.0, code_or_127 r.1)
      execute (simple cmd) env =
          execute_simple shell call cmd env >>= λ r. returned (r.0, code_or_127 r.1)

      pub execute_else : ElseClause W R → Action W R
      execute_else no_else env = returned (env, pos 0)
      execute_else (elif_clause cond body else_stmt) env =
          if_then (execute cond env) (execute body) (execute_else else_stmt)
      execute_else (else_clause body else_stmt) env = execute body env

      pub execute_case : CaseList W R → Bytes → Action W R
      execute_case no_items value env = returned (env, pos 0)
      execute_case (item pattern actions items) value env = matches shell pattern value env >>= λ q.
          if q.1 then execute actions q.0 else execute_case items value q.0
      execute_case (empty_item pattern items) value env = matches shell pattern value env >>= λ q.
          if q.1 then returned (q.0, pos 0) else execute_case items value q.0

      -- The code is that of the last chain that ran.
      pub exec_list : Lists W R → ℤ → Action W R
      exec_list no_chains code env = returned (env, code)
      exec_list (chain c rest) code env = exec_andor_chain c (pos 0) env >>= λ r.
          if check_break r.0 then returned r else exec_list rest r.1 r.0

      pub exec_andor_chain : Chain W R → ℤ → Action W R
      exec_andor_chain end_chain code env = returned (env, code)
      exec_andor_chain (link separator p rest) code env =
          (if runs separator code
            then (execute_pipeline p env >>= λ r. returned (set_last_exitcode r.0 r.1, r.1))
            else returned (env, code))
          >>= λ r. if check_break r.0 then returned r else exec_andor_chain rest r.1 r.0

      pub execute_pipeline : Pipeline W R → Action W R
      execute_pipeline (pipeline commands bang) env = execute_commands commands env >>= λ r.
          let res = if bang then negated r.1 else r.1 in returned (set_last_exitcode r.0 res, res)

      -- One command runs as it is; of several, all but the last are started as children.
      pub execute_commands : Commands W R → Action W R
      execute_commands (last cmd) env = execute cmd env
      execute_commands (before cmd rest) env =
          spawn_one shell (spawn cmd (execute cmd)) [] env >>= λ r. execute_rest rest r.1 r.0

      pub execute_rest : Commands W R → List (ShellChild P) → Action W R
      execute_rest (last cmd) children env = finish shell children (execute cmd) env
      execute_rest (before cmd rest) children env =
          spawn_one shell (spawn cmd (execute cmd)) children env >>= λ r. execute_rest rest r.1 r.0

      -- `CommandInner::spawn`, where `action` executes the command. A child that is not a simple command
      -- or a subshell keeps its input.
      pub spawn : Command W R → Action W R → Spawns shell
      spawn (simple cmd) action prev_child env = spawn_simple shell call cmd prev_child env
      spawn (sub_shell list) action prev_child env =
          spawn_subshell shell (exec_list list (pos 0)) prev_child env
      spawn other action prev_child env = spawn_child shell (succeeds shell action) env

  -- Fuel for the rounds of a loop and for the calls of functions inside each other: a script may
  -- run for ever, so no fuel is enough for all.
  unfoldable pub run : ℕ → Command W R → Action W R
  unfolding execute
  run zero cmd env = out_of_fuel
  run (suc n) cmd env = execute (run n) n cmd env

  -- `CompleteCommand::execute`
  unfoldable pub run_complete : ℕ → List (Lists W R) → ℤ → Action W R
  unfolding run
  run_complete n [] code env = returned (env, code)
  run_complete n (list ∷ lists) code env =
      run n (and_or list) env >>= λ r. run_complete n lists r.1 r.0
