-- ===== src/Sh/Env/Scopes.antt =====
-- What leaving a scope of the environment restores.
use mesabox.Common.{
  ℕ, zero, suc, ◌≡◌, refl, ℤ, ◌⊎◌, Option, none, some, List, [], ◌∷◌, map, ◌>>=◌, arith,
  Option-cases, inl, inr,
}
use mesabox.Common.Bytes.{Bytes}
use mesabox.Sh.Types.Locality
use mesabox.Sh.Types.Locality.{Locality, base, inner}
use mesabox.Sh.Types.ScopedArray.{set_at, exit_all}
use mesabox.Sh.Env.Fd.{EnvFd}
use mesabox.Sh.Env.Special.{set_positionals, shift_positionals}
use mesabox.Sh.Env.Defs.{
  Environment, set_fd, set_var, export_var, remove_var, enter_scope, exit_scope,
}

module _ {V : Type 0} where
  -- Each element of an array in a scope that was entered at the array `ls`.
  abbrev AboveAll : List (Locality V) → List (Locality V) → Type 0
  AboveAll [] [] = Unit {0}
  AboveAll [] (l' ∷ ls') = ⊥
  AboveAll (l ∷ ls) [] = ⊥
  AboveAll (l ∷ ls) (l' ∷ ls') = Locality.Above l l' × AboveAll ls ls'

  enter-AboveAll : (ls : List (Locality V)) → AboveAll ls (map Locality.enter_scope ls)
  enter-AboveAll [] = tt
  enter-AboveAll (l ∷ ls) = (Locality.enter_scope-Above l, enter-AboveAll ls)

  exit-AboveAll : (ls ls' : List (Locality V)) → AboveAll ls ls' → exit_all ls' ≡ some ls
  exit-AboveAll [] [] h = refl
  exit-AboveAll [] (l' ∷ ls') h = absurd h
  exit-AboveAll (l ∷ ls) [] h = absurd h
  exit-AboveAll (l ∷ ls) (l' ∷ ls') h =
      rw (Locality.exit_scope-Above l l' h.0, exit-AboveAll ls ls' h.1)

  -- After a write that may have panicked.
  abbrev AboveSome : List (Locality V) → Option (List (Locality V)) → Type 0
  AboveSome ls none = Unit {0}
  AboveSome ls (some ls') = AboveAll ls ls'

  set_at-AboveSome :
      (ls ls' : List (Locality V)) (i : ℕ) (v : V) → AboveAll ls ls' → AboveSome ls (set_at ls' i v)
  set_at-AboveSome ls [] i v h = tt
  set_at-AboveSome [] (l' ∷ ls') i v h = absurd h
  set_at-AboveSome (l ∷ ls) (l' ∷ ls') zero v h = (Locality.set_val-Above l l' v h.0, h.1)
  set_at-AboveSome (l ∷ ls) (l' ∷ ls') (suc i) v h =
      let later = set_at-AboveSome ls ls' i v h.1 in
      elim (Option-cases (set_at ls' i v)) [
        | inl e ↦ rw e tt
        | inr (ms, e) ↦ rw e (h.0, rw e at later)
      ]

-- What may run between entering and leaving a scope: descriptors and positional arguments are set,
-- variables are set, exported and removed, and scopes are entered and left. `shift` is not among these,
-- since it changes the arguments of the scope that set them.
pub data Actions : Type 0 where
  done : Actions
  redirect : ℕ → EnvFd → Actions → Actions
  positionals : List Bytes → Actions → Actions
  variable : Bytes → Bytes → Actions → Actions
  export unset : Bytes → Actions → Actions
  scope : Actions → Actions → Actions

module _ {F : Type 0} where
  abbrev with_positionals : Environment F → List Bytes → Environment F
  with_positionals env args = record env { special_vars = set_positionals env.special_vars args }

  unfoldable pub run : Actions → Environment F → Option (Environment F)
  run done env = some env
  run (redirect n value rest) env = set_fd env n value >>= λ env'. run rest env'
  run (positionals args rest) env = run rest (with_positionals env args)
  run (variable k v rest) env = run rest (set_var env k v).0
  run (export name rest) env = run rest (export_var env name)
  run (unset name rest) env = run rest (remove_var env name).0
  run (scope b c) env = run b (enter_scope env) >>= λ env'. exit_scope env' >>= λ env''. run c env''

  -- The scoped parts of `env'`, in a scope that was entered at `env`.
  pub record Above (env env' : Environment F) : Type 0 where
    pub fds : AboveAll env.fds.inner env'.fds.inner
    pub args : Locality.Above env.special_vars.args env'.special_vars.args

  abbrev pub SameScoped : Environment F → Environment F → Type 0
  SameScoped env env' = (env'.fds ≡ env.fds) × (env'.special_vars.args ≡ env.special_vars.args)

  enter_scope-Above : (env : Environment F) → Above env (enter_scope env)
  unfolding enter_scope
  enter_scope-Above env = record {
    fds = enter-AboveAll env.fds.inner;
    args = Locality.enter_scope-Above env.special_vars.args;
  }

  exit_scope-Above :
      (env env' : Environment F)
      → Above env env'
      → (env'' : Environment F) × (exit_scope env' ≡ some env'') × SameScoped env env''
  unfolding exit_scope
  exit_scope-Above env env' h = (
    record env' {
      fds = env.fds;
      special_vars = record (env'.special_vars) { args = env.special_vars.args };
    },
    rw (
      exit-AboveAll env.fds.inner env'.fds.inner h.fds,
      Locality.exit_scope-Above env.special_vars.args env'.special_vars.args h.args,
    ),
    (refl, refl),
  )

  -- A run that did not panic.
  abbrev AboveRun : Environment F → Option (Environment F) → Type 0
  AboveRun env none = Unit {0}
  AboveRun env (some env') = Above env env'

  SameScoped-Above : (env e e' : Environment F) → SameScoped e e' → Above env e → Above env e'
  SameScoped-Above env e e' s h = record { fds = rw s.0 h.fds; args = rw s.1 h.args }

  set_fd-AboveRun :
      (env env' : Environment F) (n : ℕ) (value : EnvFd)
      → Above env env'
      → AboveRun env (set_fd env' n value)
  unfolding set_fd
  set_fd-AboveRun env env' n value h =
      let written = set_at-AboveSome env.fds.inner env'.fds.inner n value h.fds in
      elim (Option-cases (set_at env'.fds.inner n value)) [
        | inl e ↦ rw e tt
        | inr (ls, e) ↦ rw e (record { fds = rw e at written; args = h.args })
      ]

  positionals-Above :
      (env env' : Environment F) (args : List Bytes)
      → Above env env'
      → Above env (with_positionals env' args)
  unfolding set_positionals
  positionals-Above env env' args h = record {
    fds = h.fds;
    args = Locality.set_val-Above env.special_vars.args env'.special_vars.args args h.args;
  }

  set_var-same : (env : Environment F) (k v : Bytes) → SameScoped env (set_var env k v).0
  unfolding set_var
  set_var-same env k v = ground arith

  export_var-same : (env : Environment F) (k : Bytes) → SameScoped env (export_var env k)
  unfolding export_var
  export_var-same env k = ground arith

  remove_var-same : (env : Environment F) (k : Bytes) → SameScoped env (remove_var env k).0
  unfolding remove_var
  remove_var-same env k = ground arith

  run-AboveRun :
      (b : Actions) (env env' : Environment F) → Above env env' → AboveRun env (run b env')
  unfolding run
  run-AboveRun done env env' h = h
  run-AboveRun (redirect n value rest) env env' h = elim (Option-cases (set_fd env' n value)) [
    | inl e ↦ rw e tt
    | inr (m, e) ↦ rw e (run-AboveRun rest env m (rw e at (set_fd-AboveRun env env' n value h)))
  ]
  run-AboveRun (positionals args rest) env env' h =
      run-AboveRun rest env (with_positionals env' args) (positionals-Above env env' args h)
  run-AboveRun (variable k v rest) env env' h =
      run-AboveRun rest env (set_var env' k v).0
        (SameScoped-Above env env' (set_var env' k v).0 (set_var-same env' k v) h)
  run-AboveRun (export name rest) env env' h =
      run-AboveRun rest env (export_var env' name)
        (SameScoped-Above env env' (export_var env' name) (export_var-same env' name) h)
  run-AboveRun (unset name rest) env env' h =
      run-AboveRun rest env (remove_var env' name).0
        (SameScoped-Above env env' (remove_var env' name).0 (remove_var-same env' name) h)
  run-AboveRun (scope b c) env env' h =
      let inside = run-AboveRun b env' (enter_scope env') (enter_scope-Above env') in
      elim (Option-cases (run b (enter_scope env'))) [
        | inl e ↦ rw e tt
        | inr (m, e) ↦
            let (m', left, same) = exit_scope-Above env' m (rw e at inside) in
            rw (e, left) (run-AboveRun c env m' (SameScoped-Above env env' m' same h))
      ]

  -- In a scope descriptors and positional arguments are set, variables are set, exported and removed,
  -- and further scopes are entered and left, in any order. Then either one of these panics, which a
  -- descriptor that the shell does not have does, or leaving the scope does not panic and brings all
  -- descriptors and the positional arguments back to what they were when it was entered.
  pub exit_restores :
      (b : Actions) (env : Environment F)
      → (run b (enter_scope env) ≡ none)
        ⊎ ((env' : Environment F) × (run (scope b done) env ≡ some env') × SameScoped env env')
  unfolding run
  exit_restores b env =
      let inside = run-AboveRun b env (enter_scope env) (enter_scope-Above env) in
      elim (Option-cases (run b (enter_scope env))) [
        | inl e ↦ inl e
        | inr (m, e) ↦
            let (m', left, same) = exit_scope-Above env m (rw e at inside) in
            inr (m', rw (e, left), same)
      ]

-- `shift` takes effect outside the scope that is opened for the command itself: if there is an
-- argument and the arguments were not set in the open scope, it drops the first argument of the scope
-- outside, and leaving the open scope keeps that.
pub shift_outlives_scope :
    (l : Locality (List Bytes)) (a : Bytes) (rest : List Bytes) (code : ℤ)
    → Locality.current_val l ≡ a ∷ rest
    → (shift_positionals (record { last_exitcode = code; args = Locality.enter_scope l }) >>= λ s.
        Locality.exit_scope s.args)
      ≡ some (Locality.with_current_val l rest)
unfolding shift_positionals
shift_outlives_scope (base x n) a rest code h =
    unfold Locality.enter_scope Locality.exit_scope Locality.with_current_val
      Locality.current_val in
    ground (arith, h)
shift_outlives_scope (inner x n p) a rest code h =
    unfold Locality.enter_scope Locality.exit_scope Locality.with_current_val
      Locality.current_val in
    ground (arith, h)
