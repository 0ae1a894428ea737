-- ===== src/Sh/Ast/Shell.antt =====
-- What the execution of a script (libmesabox/src/posix/sh/ast.rs) uses of the other parts of the
-- shell and of the system: the expansion of words, redirections, builtins and processes.
use mesabox.Common.{Bool, ℤ, Option, List}
use mesabox.Common.Bytes.{Bytes}
use mesabox.Common.HashMap.{HashMap}
use mesabox.Sh.Env.{Environment}
use mesabox.Sh.Env.Fd.{EnvFd}
use mesabox.Sh.Builtin.Defs.{Builtin}
use mesabox.Util.Platform.{Pipe}
use mesabox.Sh.Ast.Syntax.{Command}
use mesabox.Sh.Ast.Run.{Run}

pub data WordEval : Type 0 where
  text : Bytes → WordEval
  globbed : List Bytes → WordEval

-- command.rs: the arguments and the variables of a command.
pub record ExecData : Type 0 where
  pub args : List Bytes
  pub env : HashMap Bytes Bytes

abbrev pub Env : Type 0 → Type 0 → Type 0
Env W R = Environment (Command W R)

-- What `waitpid` reports of a child: its exit code, or anything else, such as a signal.
pub data WaitStatus : Type 0 where
  exited : ℤ → WaitStatus
  other_status : WaitStatus

-- Words are `W`, redirections `R`, and the processes of other programs `P`. A code is `none` where the
-- code returns an error.
pub record Shell (W R P : Type 0) : Type 0 where
  -- expansion
  pub eval : W → Env W R → Run (Env W R × Bytes)
  pub eval_glob_fs : W → Env W R → Run (Env W R × WordEval)
  pub matches_glob : W → Bytes → Env W R → Run (Env W R × Bool)
  -- `IoRedirect::setup`, and whether it succeeds
  pub redirect : R → Env W R → Run (Env W R × Bool)
  -- builtins
  pub get_builtin : Bytes → Option Builtin
  pub builtin : Builtin → ExecData → Env W R → Run (Env W R × Option ℤ)
  -- `CommandWrapper::setup_child`, which starts another program, and that program's end and output
  pub start : Bytes → ExecData → Env W R → Run (Option P)
  pub wait_process : P → Option ℤ
  pub process_output : P → EnvFd
  -- `Pipe::create`, with the end to read from and the end to write to; `fork`; and what `waitpid`
  -- reports of the code that a child exits with
  pub create_pipe : Env W R → Option (Pipe × Pipe)
  pub fork_fails : Env W R → Bool
  pub waitpid : ℤ → Option WaitStatus
