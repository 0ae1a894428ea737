-- ===== src/Sh/Ast/Safety/Isolation.antt =====
-- libmesabox/src/posix/sh/command.rs: what a subshell changes in the environment of its parent.
use mesabox.Common.{
  ℕ, ◌≡◌, ◌≢◌, refl, sym, ap, ◌∙◌, ℤ, Bool, true, false, Option, some, arith, Bool-cases,
  Option-cases, inl, inr,
}
use mesabox.Sh.Env.{Environment, set_fd, get_fd}
use mesabox.Sh.Env.Fds.{get_fd-set_fd}
use mesabox.Sh.Env.Fd.{EnvFd, pipeline, pipe, null, piped, file, fd, child_stdout}
use mesabox.Sh.Types.ScopedArray
use mesabox.Sh.Ast.Run.{Run}
use mesabox.Sh.Ast.Shell.{Env, Shell}
use mesabox.Sh.Ast.Children.{pipe_for, stdout_pipe, drop_pipe, spawn_child, wait, in_subshell}
use mesabox.Sh.Ast.Safety.Shape.{shape, HasStreams, set_fd-shape, get_fd-shape}
use mesabox.Sh.Ast.Safety.Safe.{Safe, bind-Safe, Lawful}
use mesabox.Sh.Ast.Safety.Children.{wait-Safe}

module _ {F : Type 0} where
  set_fd-rest :
      (env env' : Environment F) (n : ℕ) (v : EnvFd)
      → set_fd env n v ≡ some env'
      → record env' { fds = env.fds } ≡ env
  unfolding set_fd
  set_fd-rest env env' n v h = elim (Option-cases (ScopedArray.set_val env.fds n v)) [
    | inl e ↦ absurd (cc (h, e))
    | inr (fds, e) ↦
        let same : record env { fds = fds } ≡ env' = cc (h, e) in
        ap (λ (x : Environment F). record x { fds = env.fds }) (sym same)
  ]

  -- All but the descriptors are the same, and the descriptors but 1 are.
  pub record OnlyOutput (env env' : Environment F) : Type 0 where
    pub rest : record env' { fds = env.fds } ≡ env
    pub others : (j : ℕ) → j ≢ 1 → get_fd env' j ≡ get_fd env j
    pub shape_kept : shape env' ≡ shape env

  OnlyOutput-refl : (env : Environment F) → OnlyOutput env env
  OnlyOutput-refl env = record { rest = refl; others = λ j h. refl; shape_kept = refl }

  OnlyOutput-set :
      (env env' env'' : Environment F) (v : EnvFd)
      → OnlyOutput env env'
      → set_fd env' 1 v ≡ some env''
      → shape env'' ≡ shape env'
      → OnlyOutput env env''
  OnlyOutput-set env env' env'' v h set kept = record {
    rest =
        ap (λ (x : Environment F). record x { fds = env.fds }) (set_fd-rest env' env'' 1 v set)
        ∙ h.rest;
    others = λ j n. ground (arith, get_fd-set_fd env' env'' 1 j v set, h.others j n);
    shape_kept = kept ∙ h.shape_kept;
  }

module _ {W R P : Type 0} (shell : Shell W R P) (env : Env W R) (hs : HasStreams (shape env)) where
  -- The environment of a result.
  abbrev OnlyOutputOf : {X : Type 0} → Env W R × X → Type 0
  OnlyOutputOf r = OnlyOutput env r.0

  set-OnlyOutput :
      (env' : Env W R) (v : EnvFd)
      → OnlyOutput env env'
      → (env'' : Env W R) × (set_fd env' 1 v ≡ some env'') × OnlyOutput env env''
  set-OnlyOutput env' v h =
      let (env'', set, kept) = set_fd-shape env' 1 v (omega arith) (rw h.shape_kept hs) in
      (env'', set, OnlyOutput-set env env' env'' v h set kept)

  pipe_for-OnlyOutput : (value : EnvFd) → Safe OnlyOutputOf (pipe_for shell value env)
  unfolding pipe_for
  pipe_for-OnlyOutput pipeline = elim (Option-cases (shell.create_pipe env)) [
    | inl failed ↦ rw (failed, pipe_for) (OnlyOutput-refl env)
    | inr ((read, write), made) ↦
        let (env', set, kept) = set-OnlyOutput env (pipe write) (OnlyOutput-refl env) in
        rw (made, pipe_for, set) kept
  ]
  pipe_for-OnlyOutput null = OnlyOutput-refl env
  pipe_for-OnlyOutput (piped bytes) = OnlyOutput-refl env
  pipe_for-OnlyOutput (file n) = OnlyOutput-refl env
  pipe_for-OnlyOutput (fd w) = OnlyOutput-refl env
  pipe_for-OnlyOutput (pipe p) = OnlyOutput-refl env
  pipe_for-OnlyOutput (child_stdout w) = OnlyOutput-refl env

  stdout_pipe-OnlyOutput : Safe OnlyOutputOf (stdout_pipe shell env)
  unfolding stdout_pipe
  stdout_pipe-OnlyOutput =
      let (value, got) = get_fd-shape env 1 (omega arith) hs in rw got (pipe_for-OnlyOutput value)

  drop_pipe-OnlyOutput :
      (set_write : Bool) (env' : Env W R)
      → OnlyOutput env env'
      → Safe (OnlyOutput env) (drop_pipe shell set_write env')
  unfolding drop_pipe
  drop_pipe-OnlyOutput true env' h =
      let (env'', set, kept) = set-OnlyOutput env' null h in rw set kept
  drop_pipe-OnlyOutput false env' h = h

  spawn_child-OnlyOutput :
      (func : Env W R → Run (Env W R × Option ℤ)) → Safe OnlyOutputOf (spawn_child shell func env)
  unfolding spawn_child
  spawn_child-OnlyOutput func =
      bind-Safe OnlyOutputOf OnlyOutputOf (stdout_pipe shell env) _ stdout_pipe-OnlyOutput
        (λ r kept. elim (Option-cases r.1) [
          | inl failed ↦ rw failed kept
          | inr ((set_write, stdout), made) ↦ elim (Bool-cases (shell.fork_fails r.0)) [
            | inl fails ↦ rw (made, fails) kept
            | inr forks ↦
                rw (made, forks)
                  (bind-Safe (OnlyOutput env) OnlyOutputOf (drop_pipe shell set_write r.0) _
                    (drop_pipe-OnlyOutput set_write r.0 kept) (λ env' dropped. dropped))
          ]
        ])

  -- A subshell is isolated, whatever its commands do: from an environment with the standard streams, and
  -- with a lawful system, it does not panic, and if it ends, the variables, functions, arguments and
  -- counters of the parent are what they were, and so is each descriptor but 1.
  pub in_subshell_isolated :
      Lawful shell
      → (func : Env W R → Run (Env W R × Option ℤ)) → Safe OnlyOutputOf (in_subshell shell func env)
  unfolding in_subshell
  in_subshell_isolated lawful func =
      bind-Safe OnlyOutputOf OnlyOutputOf (spawn_child shell func env) _
        (spawn_child-OnlyOutput func)
        (λ r kept. elim (Option-cases r.1) [
          | inl failed ↦ rw failed kept
          | inr (child, started) ↦ rw started (
              bind-Safe (λ c. Unit {0}) OnlyOutputOf (wait shell child) _
                (wait-Safe shell lawful child) (λ c u. kept))
        ])
