-- ===== src/Sh/Ast/Children.antt =====
-- libmesabox/src/posix/sh/command.rs: `InProcessChild` and `ShellChild`.
use mesabox.Common.{ℤ, pos, Bool, true, false, Option, none, some, List, [], ◌∷◌, if◌then◌else◌}
use mesabox.Sh.Env.{set_fd, get_fd}
use mesabox.Sh.Env.Fd.{EnvFd, pipeline, pipe, null, try_clone}
use mesabox.Sh.Ast.Run.{Run, returned, panicked, unimplemented, out_of_fuel, unwrap, ◌>>=◌}
use mesabox.Sh.Ast.Shell.{Env, Shell, WaitStatus, exited, other_status}

-- A process of another program; or a child that works on a copy of the environment, with its run, which
-- gives a code or an error, and with what it offers as input for the next command.
pub data ShellChild (P : Type 0) : Type 0 where
  real_child : P → ShellChild P
  in_process : Run (Option ℤ) → EnvFd → ShellChild P
  empty : ShellChild P

-- `process::exit(func(data).unwrap())`: a panic ends the child with code 101.
abbrev pub exit_code : Run (Option ℤ) → Run ℤ
exit_code (returned (some code)) = returned code
exit_code (returned none) = returned (pos 101)
exit_code panicked = returned (pos 101)
exit_code unimplemented = returned (pos 101)
exit_code out_of_fuel = out_of_fuel

module _ {W R P : Type 0} (shell : Shell W R P) where
  -- `InProcessChild::spawn` up to `fork`. A pipe is made if descriptor 1 leads to the next command;
  -- `none` is an error, and otherwise the flag says if a pipe was made.
  unfoldable pub pipe_for : EnvFd → Env W R → Run (Env W R × Option (Bool × EnvFd))
  unfolding set_fd try_clone
  pipe_for pipeline env = elim (shell.create_pipe env) [
    | none ↦ returned (env, none)
    | some (read, write) ↦
        unwrap (set_fd env 1 (pipe write)) >>= λ env'. returned (env', some (true, pipe read))
  ]
  pipe_for value env = returned (env, some (false, try_clone value))

  unfoldable pub stdout_pipe : Env W R → Run (Env W R × Option (Bool × EnvFd))
  unfolding get_fd pipe_for
  stdout_pipe env = unwrap (get_fd env 1) >>= λ value. pipe_for value env

  -- The parent drops its end of the pipe.
  unfoldable pub drop_pipe : Bool → Env W R → Run (Env W R)
  unfolding set_fd
  drop_pipe set_write env = if set_write then unwrap (set_fd env 1 null) else returned env

  -- `InProcessChild::spawn`
  unfoldable pub spawn_child :
      (Env W R → Run (Env W R × Option ℤ)) → Env W R → Run (Env W R × Option (ShellChild P))
  unfolding stdout_pipe drop_pipe
  spawn_child func env = stdout_pipe env >>= λ s. elim (s.1) [
    | none ↦ returned (s.0, none)
    | some (set_write, stdout) ↦
        if shell.fork_fails s.0
        then returned (s.0, none)
        else drop_pipe set_write s.0 >>= λ env'.
            returned (env', some (in_process (func s.0 >>= λ r. returned r.1) stdout))
  ]

  abbrev pub reported_code : Option WaitStatus → Run (Option ℤ)
  reported_code none = panicked
  reported_code (some (exited code)) = returned (some code)
  reported_code (some other_status) = unimplemented

  -- `InProcessChild::wait` and `ShellChild::wait`; `none` is an error.
  unfoldable pub wait : ShellChild P → Run (Option ℤ)
  wait (real_child process) = returned (shell.wait_process process)
  wait (in_process run stdout) = exit_code run >>= λ code. reported_code (shell.waitpid code)
  wait empty = returned (some (pos 0))

  -- The loop over the children of a pipeline; what they report is dropped.
  unfoldable pub wait_all : List (ShellChild P) → Run (Unit {0})
  unfolding wait
  wait_all [] = returned tt
  wait_all (child ∷ children) = wait child >>= λ code. wait_all children

  unfoldable pub output : ShellChild P → EnvFd
  unfolding try_clone
  output (real_child process) = shell.process_output process
  output (in_process run stdout) = try_clone stdout
  output empty = null

  -- `children.last_mut()`
  abbrev pub last_child : List (ShellChild P) → Option (ShellChild P)
  last_child [] = none
  last_child (child ∷ []) = some child
  last_child (child ∷ next ∷ children) = last_child (next ∷ children)

  -- A subshell: the child is started and waited for.
  unfoldable pub in_subshell :
      (Env W R → Run (Env W R × Option ℤ)) → Env W R → Run (Env W R × Option ℤ)
  unfolding spawn_child wait
  in_subshell func env = spawn_child func env >>= λ r. elim (r.1) [
    | none ↦ returned (r.0, none)
    | some child ↦ wait child >>= λ code. returned (r.0, code)
  ]

  -- The last child's output becomes the input.
  unfoldable pub with_input : Option (ShellChild P) → Env W R → Run (Env W R)
  unfolding set_fd output
  with_input none env = returned env
  with_input (some child) env = unwrap (set_fd env 0 (output child))
