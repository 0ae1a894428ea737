-- ===== src/Sh/Expand/Program.antt =====
-- The shell of libmesabox/src/posix/sh with its own expansion of words, redirections and builtins. The
-- command of a substitution is looked up in a table of the commands of the script.
use mesabox.Common.{ℕ, zero, suc, ◌≤◌, ℤ, Bool, true, false, Option, none, some, List, []}
use mesabox.Common.Bytes.{Bytes}
use mesabox.Common.Result.{Result, ok, err}
use mesabox.Util.Platform.{Pipe}
use mesabox.Sh.Env.Fd.{EnvFd}
use mesabox.Sh.Builtin.Defs.{Builtin, BuiltinError, find}
use mesabox.Sh.Ast.Syntax.{Command}
use mesabox.Sh.Ast.Run.{Run, returned, out_of_fuel, ◌>>=◌}
use mesabox.Sh.Ast.Shell.{Env, Shell, ExecData, WaitStatus}
use mesabox.Sh.Ast.Parts.{Action}
use mesabox.Sh.Ast.Exec.{run}
use mesabox.Sh.Ast.Builtins.{execute_builtin}
use mesabox.Sh.Ast.Redirects.{IoRedirect, IoRedirectKind}
use mesabox.Sh.Ast.Words.{Word}
use mesabox.Sh.Expand.Words.{System, eval_word}
use mesabox.Sh.Expand.Glob.{eval_glob_fs, matches_glob}
use mesabox.Sh.Expand.Redirect.{SetupError, setup_redirect}
use mesabox.Sh.Expand.RedirectSafe.{Opens, target}

-- A redirection of the standard input or output, to a file or from a here-document.
pub record StdRedirect (K : Type 0) : Type 0 where
  pub redirect : IoRedirect (Word K)
  pub opens : Opens redirect
  pub standard : target redirect ≤ 1

-- The environment of a script and its commands, each with a number or another name in `K`.
abbrev pub E : Type 0 → Type 0
E K = Env (Word K) (StdRedirect K)

abbrev pub ScriptCommand : Type 0 → Type 0
ScriptCommand K = Command (Word K) (StdRedirect K)

-- What stands outside: the system, the crates and the other builtins.
pub record World (K P : Type 0) : Type 0 where
  pub table : K → ScriptCommand K
  pub pid : ℕ
  pub read_to_end : E K → Option Bytes
  pub open_file : IoRedirectKind → Bytes → Option ℕ
  pub heredoc_data : ℕ → Bytes
  pub glob : Bytes → Option (List Bytes)
  pub pattern_matches : Bytes → Bytes → Option Bool
  pub util_exists : Bytes → Bool
  pub get_matches : List Bytes → Result BuiltinError (Bool × List Bytes)
  pub other_builtin : Builtin → ExecData → E K → Run (E K × Option ℤ)
  pub start : Bytes → ExecData → E K → Run (Option P)
  pub wait_process : P → Option ℤ
  pub process_output : P → EnvFd
  pub create_pipe : E K → Option (Pipe × Pipe)
  pub fork_fails : E K → Bool
  pub waitpid : ℤ → Option WaitStatus

module _ {K P : Type 0} (world : World K P) where
  abbrev pub write_end : Option (Pipe × Pipe) → Option Pipe
  write_end none = none
  write_end (some (read, write)) = some write

  -- `execute` runs the command of a substitution.
  abbrev pub system_with : (K → Action (Word K) (StdRedirect K)) → System (Word K) (StdRedirect K) K
  system_with execute = record {
    pid = world.pid;
    execute = execute;
    create_pipe = λ env. write_end (world.create_pipe env);
    read_to_end = world.read_to_end;
  }

  abbrev pub succeeded : E K × Result SetupError (List EnvFd) → E K × Bool
  succeeded (env, ok fds) = (env, true)
  succeeded (env, err e) = (env, false)

  abbrev pub shell_with : System (Word K) (StdRedirect K) K → Shell (Word K) (StdRedirect K) P
  shell_with system = record {
    eval = eval_word system;
    eval_glob_fs = eval_glob_fs system world.glob world.pattern_matches;
    matches_glob = matches_glob system world.glob world.pattern_matches;
    redirect = λ r env.
        setup_redirect system world.open_file world.heredoc_data r.redirect [] env >>= λ q.
        returned (succeeded q);
    get_builtin = find world.util_exists;
    builtin = execute_builtin world.get_matches world.other_builtin;
    start = world.start;
    wait_process = world.wait_process;
    process_output = world.process_output;
    create_pipe = world.create_pipe;
    fork_fails = world.fork_fails;
    waitpid = world.waitpid;
  }

  -- The shell for `n` substitutions inside each other.
  unfoldable pub program : ℕ → Shell (Word K) (StdRedirect K) P
  unfolding eval_word eval_glob_fs matches_glob setup_redirect find execute_builtin run
  program zero = shell_with (system_with (λ k env. out_of_fuel))
  program (suc n) = shell_with (system_with (λ k. run (program n) n (world.table k)))
