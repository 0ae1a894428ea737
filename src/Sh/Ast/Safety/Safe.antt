-- ===== src/Sh/Ast/Safety/Safe.antt =====
-- Runs that do not panic and keep the shape of the environment.
use mesabox.Common.{◌≡◌, ◌≢◌, none, ℤ}
use mesabox.Common.Bytes.{Bytes}
use mesabox.Sh.Ast.Run.{Run, returned, panicked, unimplemented, out_of_fuel, ◌>>=◌}
use mesabox.Sh.Ast.Shell.{Env, Shell, ExecData, WordEval}
use mesabox.Sh.Ast.Simple.{command_name}
use mesabox.Sh.Ast.Safety.Shape.{Shape, shape, HasStreams}
use mesabox.Sh.Builtin.Defs.{Builtin}

-- No panic, and what is returned has `P`. `unimplemented!()` and a run without end are left aside.
abbrev pub Safe {ℓ} : {A : Type ℓ} → (A → Type 0) → Run A → Type 0
Safe P (returned a) = P a
Safe P panicked = ⊥
Safe P unimplemented = Unit {0}
Safe P out_of_fuel = Unit {0}

pub bind-Safe {ℓ} :
    {A B : Type ℓ} (P : A → Type 0) (Q : B → Type 0) (m : Run A) (f : A → Run B)
    → Safe P m
    → ((a : A) → P a → Safe Q (f a))
    → Safe Q (m >>= f)
bind-Safe P Q (returned a) f h k = k a h
bind-Safe P Q panicked f h k = h
bind-Safe P Q unimplemented f h k = tt
bind-Safe P Q out_of_fuel f h k = tt

module _ {W R : Type 0} where
  -- What is returned with the environment is free.
  abbrev pub Keeps : {X : Type 0} → Shape → Env W R × X → Type 0
  Keeps s r = shape r.0 ≡ s

  -- From an environment of this shape.
  abbrev pub SafeAt : {X : Type 0} → Shape → (Env W R → Run (Env W R × X)) → Type 0
  SafeAt s f = (env : Env W R) → shape env ≡ s → Safe (Keeps s) (f env)

-- A run that keeps the shape keeps it still if its result is used.
pub then-Safe :
    {W R : Type 0} {X Y : Type 0} (s : Shape) (m : Run (Env W R × X))
    (f : Env W R × X → Run (Env W R × Y))
    → Safe (Keeps s) m
    → ((r : Env W R × X) → Keeps s r → Safe (Keeps s) (f r))
    → Safe (Keeps s) (m >>= f)
then-Safe s m f h k = bind-Safe (Keeps s) (Keeps s) m f h k

-- Also a name that is expanded to files is expanded to one at least.
abbrev pub Names : {W R : Type 0} → Shape → Env W R × WordEval → Type 0
Names s r = Keeps s r × (command_name r.1 ≢ none)

-- What the other parts of the shell promise where the standard streams are in place: they do not panic
-- and leave no scope or loop open or closed, a name that is expanded to files is expanded to one at least,
-- and `waitpid` does not fail on a child that was not waited for.
pub record Lawful {W R P : Type 0} (shell : Shell W R P) : Type 0 where
  pub eval : (s : Shape) → HasStreams s → (w : W) → SafeAt s (shell.eval w)
  pub eval_glob_fs :
      (s : Shape)
      → HasStreams s
      → (w : W) (env : Env W R) → shape env ≡ s
      → Safe (Names s) (shell.eval_glob_fs w env)
  pub matches_glob :
      (s : Shape) → HasStreams s → (w : W) (value : Bytes) → SafeAt s (shell.matches_glob w value)
  pub redirect : (s : Shape) → HasStreams s → (r : R) → SafeAt s (shell.redirect r)
  pub builtin :
      (s : Shape)
      → HasStreams s
      → (b : Builtin) (data_ : ExecData) → SafeAt s (shell.builtin b data_)
  pub start :
      (name : Bytes) (data_ : ExecData) (env : Env W R)
      → Safe (λ p. Unit {0}) (shell.start name data_ env)
  pub waitpid : (code : ℤ) → shell.waitpid code ≢ none
