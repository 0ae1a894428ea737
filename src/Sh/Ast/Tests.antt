-- ===== src/Sh/Ast/Tests.antt =====
-- Examples for the theorems on libmesabox/src/posix/sh/ast.rs.
use mesabox.Common.{ℕ, ◌≡◌, refl, ℤ, pos, Bool, true, false, Option, none, some, List, [], ◌∷◌}
use mesabox.Common.Bytes.{Bytes, codes, bytes_eq}
use mesabox.Common.Result.{Result, ok}
use mesabox.Util.Platform.{read, write}
use mesabox.Sh.Env.{from_vars, get_var}
use mesabox.Sh.Env.Fd.{null}
use mesabox.Sh.Builtin.Defs.{Builtin, BuiltinError, find}
use mesabox.Sh.Ast.Syntax.{
  Command, PostAction, first, for_clause, and_or, simple, chain, link, no_chains, end_chain,
  pipeline, last, before,
}
use mesabox.Sh.Ast.Run.{Run, returned}
use mesabox.Sh.Ast.Shell.{Env, Shell, ExecData, text, exited}
use mesabox.Sh.Ast.Exec.{run}
use mesabox.Sh.Ast.Builtins.{execute_builtin}

-- A shell in which a word stands for itself and no process fails.
abbrev E : Type 0
E = Env Bytes Bytes

abbrev no_options : List Bytes → Result BuiltinError (Bool × List Bytes)
no_options names = ok (false, names)

abbrev unknown : Builtin → ExecData → E → Run (E × Option ℤ)
unknown b data_ env = returned (env, none)

abbrev plain_shell : Shell Bytes Bytes ℕ
plain_shell = record {
  eval = λ w env. returned (env, w);
  eval_glob_fs = λ w env. returned (env, text w);
  matches_glob = λ w value env. returned (env, bytes_eq w value);
  redirect = λ r env. returned (env, true);
  get_builtin = find (λ name. false);
  builtin = λ b data_ env. execute_builtin no_options unknown b data_ env;
  start = λ name data_ env. returned (some 7);
  wait_process = λ process. some (pos 3);
  process_output = λ process. null;
  create_pipe = λ env. some (record { fd = 4; kind = read }, record { fd = 5; kind = write });
  fork_fails = λ env. false;
  waitpid = λ code. some (exited code);
}

abbrev start : E
start = from_vars []

abbrev call_with : Bytes → List (PostAction Bytes Bytes) → Command Bytes Bytes
call_with name args = simple (record { name = some name; pre_actions = []; post_actions = args })

abbrev x : Bytes
x = codes "x"

-- `for x in a b; do NAME; done`
abbrev loop_of : Bytes → Command Bytes Bytes
loop_of name =
    for_clause x (codes "a" ∷ codes "b" ∷ [])
      (and_or (chain (link first (pipeline (last (call_with name [])) false) end_chain) no_chains))

-- The value of `x` after the loop.
abbrev left_in_x : Run (E × ℤ) → Option Bytes
left_in_x (returned (env, code)) = get_var env x
left_in_x _ = none

breaks_at_first : left_in_x (run plain_shell 3 (loop_of (codes "break")) start) ≡ some (codes "a")
unfolding run from_vars find execute_builtin get_var
breaks_at_first = refl

goes_on : left_in_x (run plain_shell 3 (loop_of (codes "continue")) start) ≡ some (codes "b")
unfolding run from_vars find execute_builtin get_var
goes_on = refl

-- The exit code, and the output of the last child as the input of the last command.
abbrev code_of : Run (E × ℤ) → Option ℤ
code_of (returned (env, code)) = some code
code_of _ = none

-- `NAME ARGS | NAME' ARGS'`
abbrev piped : Command Bytes Bytes → Command Bytes Bytes → Command Bytes Bytes
piped first_cmd last_cmd =
    and_or
      (chain (link first (pipeline (before first_cmd (last last_cmd)) false) end_chain) no_chains)

-- The code of a pipeline is that of its last command: of a program, and of a builtin.
pipeline_codes :
    (code_of
        (run plain_shell 3 (piped (call_with (codes ":") []) (call_with (codes "ls") [])) start)
      ≡ some (pos 3))
    × (code_of
          (run plain_shell 3 (piped (call_with (codes "ls") []) (call_with (codes ":") [])) start)
        ≡ some (pos 0))
unfolding run from_vars find execute_builtin
pipeline_codes = (refl, refl)
