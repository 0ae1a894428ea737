-- ===== src/Sh/Ast/Safety/Children.antt =====
-- libmesabox/src/posix/sh/command.rs and ast.rs: panics and balance of scopes and loops, for children.
use mesabox.Common.{
  ℕ, ◌≤◌, ◌≡◌, ◌≢◌, refl, ap, ◌∙◌, ℤ, pos, Bool, true, false, Option, none, some, List, [], ◌∷◌,
  arith, Bool-cases, Option-cases, inl, inr,
}
use mesabox.Common.Bytes.{Bytes}
use mesabox.Sh.Env.{set_fd, enter_scope, exit_scope}
use mesabox.Sh.Env.Fd.{EnvFd, pipeline, pipe, null, piped, file, fd, child_stdout}
use mesabox.Sh.Ast.Run.{Run, returned, panicked, unimplemented, out_of_fuel, unwrap, ◌>>=◌}
use mesabox.Sh.Ast.Shell.{Env, Shell, WaitStatus, exited, other_status}
use mesabox.Sh.Ast.Children.{
  ShellChild, real_child, in_process, empty, pipe_for, stdout_pipe, drop_pipe, spawn_child,
  reported_code, wait, wait_all, output, last_child, in_subshell, with_input,
}
use mesabox.Sh.Ast.Parts.{
  Action, Spawns, matches, push, spawn_one, last_command, finish, spawn_subshell,
}
use mesabox.Sh.Ast.Safety.Shape.{
  Shape, shape, entered, HasStreams, entered-HasStreams, shape-enter_scope, exit_scope-shape,
  set_fd-shape, get_fd-shape,
}
use mesabox.Sh.Ast.Safety.Safe.{Safe, bind-Safe, then-Safe, Keeps, SafeAt, Lawful}
use mesabox.Sh.Ast.Safety.Loops.{fake_subshell-Safe}

module _ {W R P : Type 0} (shell : Shell W R P) where
  -- The scope that was entered is left.
  pub left-Safe :
      {X : Type 0} (s : Shape) (r : Env W R × X)
      → Keeps (entered s) r
      → {Y : Type 0} (y : Y)
      → Safe (Keeps s) (unwrap (exit_scope r.0) >>= λ env'. returned (env', y))
  left-Safe s r h y = let (env', left, kept) = exit_scope-shape r.0 s h in rw left kept

  -- A standard stream is set, and the rest follows.
  pub set-Safe :
      {X : Type 0} (s t : Shape) (i : ℕ) (value : EnvFd) (func : Env W R → Run (Env W R × X))
      → i ≤ 1
      → HasStreams s
      → ((env : Env W R) → shape env ≡ s → Safe (Keeps t) (func env))
      → (env : Env W R) → shape env ≡ s
      → Safe (Keeps t) (unwrap (set_fd env i value) >>= λ env'. func env')
  set-Safe s t i value func hi hs h env e =
      let (env', set, kept) = set_fd-shape env i value hi (rw e hs) in rw set (h env' (kept ∙ e))

  -- A step that leaves an environment only.
  abbrev pub StepAt : Shape → (Env W R → Run (Env W R)) → Type 0
  StepAt s f = (env : Env W R) → shape env ≡ s → Safe (λ env'. shape env' ≡ s) (f env)

  pub with_input-Safe :
      (s : Shape) (child : Option (ShellChild P)) → HasStreams s → StepAt s (with_input shell child)
  unfolding with_input
  with_input-Safe s none hs env e = e
  with_input-Safe s (some child) hs env e =
      let (env', set, kept) = set_fd-shape env 0 (output shell child) (omega arith) (rw e hs) in
      rw set (kept ∙ e)

  drop_pipe-Safe :
      (s : Shape) (set_write : Bool) → HasStreams s → StepAt s (drop_pipe shell set_write)
  unfolding drop_pipe
  drop_pipe-Safe s true hs env e =
      let (env', set, kept) = set_fd-shape env 1 null (omega arith) (rw e hs) in rw set (kept ∙ e)
  drop_pipe-Safe s false hs env e = e

  pipe_for-Safe : (s : Shape) (value : EnvFd) → HasStreams s → SafeAt s (pipe_for shell value)
  unfolding pipe_for
  pipe_for-Safe s pipeline hs env e = elim (Option-cases (shell.create_pipe env)) [
    | inl failed ↦ rw (failed, pipe_for) e
    | inr ((read, write), made) ↦
        let (env', set, kept) = set_fd-shape env 1 (pipe write) (omega arith) (rw e hs) in
        rw (made, pipe_for, set) (kept ∙ e)
  ]
  pipe_for-Safe s null hs env e = e
  pipe_for-Safe s (piped bytes) hs env e = e
  pipe_for-Safe s (file n) hs env e = e
  pipe_for-Safe s (fd w) hs env e = e
  pipe_for-Safe s (pipe p) hs env e = e
  pipe_for-Safe s (child_stdout w) hs env e = e

  stdout_pipe-Safe : (s : Shape) → HasStreams s → SafeAt s (stdout_pipe shell)
  unfolding stdout_pipe
  stdout_pipe-Safe s hs env e =
      let (value, got) = get_fd-shape env 1 (omega arith) (rw e hs) in
      rw got (pipe_for-Safe s value hs env e)

  -- Whatever the child does, starting it neither panics nor changes the shape.
  pub spawn_child-Safe :
      (s : Shape) (func : Env W R → Run (Env W R × Option ℤ))
      → HasStreams s
      → SafeAt s (spawn_child shell func)
  unfolding spawn_child
  spawn_child-Safe s func hs env e =
      then-Safe s (stdout_pipe shell env) _ (stdout_pipe-Safe s hs env e) (λ r kept.
        elim (Option-cases r.1) [
          | inl failed ↦ rw failed kept
          | inr ((set_write, stdout), made) ↦ elim (Bool-cases (shell.fork_fails r.0)) [
            | inl fails ↦ rw (made, fails) kept
            | inr forks ↦
                rw (made, forks)
                  (bind-Safe (λ env'. shape env' ≡ s) (Keeps s) (drop_pipe shell set_write r.0) _
                    (drop_pipe-Safe s set_write hs r.0 kept) (λ env' dropped. dropped))
          ]
        ])

  pub spawn_subshell-Safe :
      (s : Shape) (func : Action W R) (previous : Option (ShellChild P))
      → HasStreams s
      → SafeAt s (spawn_subshell shell func previous)
  unfolding spawn_subshell
  spawn_subshell-Safe s func previous hs env e =
      let inside = entered-HasStreams s hs in
      set-Safe (entered s) s 1 pipeline _ (omega arith) inside
        (λ env' e'.
          bind-Safe (Keeps (entered s)) (Keeps s) (spawn_child shell _ env') _
            (spawn_child-Safe (entered s) _ inside env' e') (λ r kept. left-Safe s r kept r.1))
        (enter_scope env) (shape-enter_scope env ∙ ap entered e)

  pub spawn_one-Safe :
      (s : Shape) (spawn : Spawns shell) (children : List (ShellChild P))
      → ((previous : Option (ShellChild P)) → SafeAt (entered s) (spawn previous))
      → SafeAt s (spawn_one shell spawn children)
  unfolding spawn_one
  spawn_one-Safe s spawn children h env e =
      bind-Safe (Keeps (entered s)) (Keeps s) (spawn (last_child shell children) (enter_scope env))
        _ (h (last_child shell children) (enter_scope env) (shape-enter_scope env ∙ ap entered e))
        (λ r kept. left-Safe s r kept (push shell children r.1))

module _ {W R P : Type 0} (shell : Shell W R P) (lawful : Lawful shell) where
  pub matches-Safe :
      (s : Shape)
      → HasStreams s
      → (items : List W) (value : Bytes) → SafeAt s (matches shell items value)
  unfolding matches
  matches-Safe s hs [] value env e = e
  matches-Safe s hs (item ∷ items) value env e =
      then-Safe s (shell.matches_glob item value env) _ (lawful.matches_glob s hs item value env e)
        (λ q kept. elim (Bool-cases q.1) [
          | inl found ↦ rw found kept
          | inr other ↦ rw other (matches-Safe s hs items value q.0 kept)
        ])

  reported-Safe : (o : Option WaitStatus) → o ≢ none → Safe (λ c. Unit {0}) (reported_code shell o)
  reported-Safe none h = absurd (h refl)
  reported-Safe (some (exited code)) h = tt
  reported-Safe (some other_status) h = tt

  -- Whatever happens in the child, the parent gets a code, or it waits for ever.
  pub wait-Safe : (child : ShellChild P) → Safe (λ c. Unit {0}) (wait shell child)
  unfolding wait
  wait-Safe (real_child process) = tt
  wait-Safe (in_process (returned (some code)) stdout) =
      reported-Safe (shell.waitpid code) (lawful.waitpid code)
  wait-Safe (in_process (returned none) stdout) =
      reported-Safe (shell.waitpid (pos 101)) (lawful.waitpid (pos 101))
  wait-Safe (in_process panicked stdout) =
      reported-Safe (shell.waitpid (pos 101)) (lawful.waitpid (pos 101))
  wait-Safe (in_process unimplemented stdout) =
      reported-Safe (shell.waitpid (pos 101)) (lawful.waitpid (pos 101))
  wait-Safe (in_process out_of_fuel stdout) = tt
  wait-Safe empty = tt

  wait_all-Safe : (children : List (ShellChild P)) → Safe (λ u. Unit {0}) (wait_all shell children)
  unfolding wait_all
  wait_all-Safe [] = tt
  wait_all-Safe (child ∷ children) =
      bind-Safe (λ c. Unit {0}) (λ u. Unit {0}) (wait shell child) _ (wait-Safe child)
        (λ c u. wait_all-Safe children)

  pub in_subshell-Safe :
      (s : Shape) (func : Env W R → Run (Env W R × Option ℤ))
      → HasStreams s
      → SafeAt s (in_subshell shell func)
  unfolding in_subshell
  in_subshell-Safe s func hs env e =
      then-Safe s (spawn_child shell func env) _ (spawn_child-Safe shell s func hs env e) (λ r kept.
        elim (Option-cases r.1) [
          | inl failed ↦ rw failed kept
          | inr (child, started) ↦ rw started (
              bind-Safe (λ c. Unit {0}) (Keeps s) (wait shell child) _ (wait-Safe child)
                (λ c u. kept))
        ])

  last_command-Safe :
      (s : Shape) (children : List (ShellChild P)) (func : Action W R)
      → HasStreams s
      → SafeAt s func
      → SafeAt s (last_command shell children func)
  unfolding last_command
  last_command-Safe s children func hs h env e =
      bind-Safe (λ env'. shape env' ≡ s) (Keeps s)
        (with_input shell (last_child shell children) env) _
        (with_input-Safe shell s (last_child shell children) hs env e) h

  pub finish-Safe :
      (s : Shape) (children : List (ShellChild P)) (func : Action W R)
      → HasStreams s
      → SafeAt (entered s) func
      → SafeAt s (finish shell children func)
  unfolding finish
  finish-Safe s children func hs h env e =
      then-Safe s _ _
        (fake_subshell-Safe s (last_command shell children func)
          (last_command-Safe (entered s) children func (entered-HasStreams s hs) h) env e)
        (λ r kept.
          bind-Safe (λ u. Unit {0}) (Keeps s) (wait_all shell children) _ (wait_all-Safe children)
            (λ u done. kept))
