-- ===== src/Sh/Ast/Run.antt =====
-- How a run of a part of a script ends, and the counters that loops and `break` keep in the
-- environment (libmesabox/src/posix/sh/env.rs and ast.rs).
use mesabox.Common.{ℕ, zero, suc, ◌+◌, Bool, not, Option, none, some, ◌==◌, if◌then◌else◌}
use mesabox.Sh.Env.{Environment, CheckBreak, no_break}

-- `unimplemented` is the panic of `unimplemented!()`.
pub data Run {ℓ} (A : Type ℓ) : Type ℓ where
  returned : A → Run A
  panicked unimplemented out_of_fuel : Run A

infixl 5 ◌>>=◌
abbrev pub ◌>>=◌ {ℓ} : {A B : Type ℓ} → Run A → (A → Run B) → Run B
returned a >>= f = f a
panicked >>= f = panicked
unimplemented >>= f = unimplemented
out_of_fuel >>= f = out_of_fuel

-- `none` of an operation of the environment is a panic.
abbrev pub unwrap {ℓ} : {A : Type ℓ} → Option A → Run A
unwrap none = panicked
unwrap (some a) = returned a

-- `- 1` on a counter, which panics at 0.
abbrev pub pred : ℕ → Option ℕ
pred zero = none
pred (suc n) = some n

module _ {F : Type 0} where
  abbrev pub set_break_counter : Environment F → ℕ → Environment F
  set_break_counter env count = record env { break_counter = count }

  abbrev pub set_loop_depth : Environment F → ℕ → Environment F
  set_loop_depth env depth = record env { loop_depth = depth }

  unfoldable pub inc_loop_depth : Environment F → Environment F
  inc_loop_depth env = record env { loop_depth = env.loop_depth + 1 }

  abbrev pub with_break_counter : Environment F → Option ℕ → Run (Environment F)
  with_break_counter env none = panicked
  with_break_counter env (some n) = returned (set_break_counter env n)

  abbrev pub with_loop_depth : Environment F → Option ℕ → Run (Environment F)
  with_loop_depth env none = panicked
  with_loop_depth env (some n) = returned (set_loop_depth env n)

  unfoldable pub dec_break_counter : Environment F → Run (Environment F)
  dec_break_counter env = with_break_counter env (pred env.break_counter)

  unfoldable pub dec_loop_depth : Environment F → Run (Environment F)
  dec_loop_depth env = with_loop_depth env (pred env.loop_depth)

  unfoldable pub check_break : Environment F → Bool
  check_break env = not (env.break_counter == 0)

  unfoldable pub check_break_loop : Environment F → Run (Environment F × CheckBreak)
  unfolding check_break dec_break_counter
  check_break_loop env =
      if check_break env
      then (dec_break_counter env >>= λ env'. returned (env', env'.break_type))
      else returned (env, no_break)
