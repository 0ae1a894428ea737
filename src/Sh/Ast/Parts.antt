-- ===== src/Sh/Ast/Parts.antt =====
-- libmesabox/src/posix/sh/ast.rs: loops, subshells and the children of pipelines, each over the
-- runs of the commands in it.
use mesabox.Common.{
  ℕ, zero, suc, ℤ, pos, is_zero, Bool, true, false, not, Option, none, some, List, [], ◌∷◌, ◌++◌,
  if◌then◌else◌,
}
use mesabox.Common.Bytes.{Bytes}
use mesabox.Sh.Env.{CheckBreak, no_break, break, continue, set_var, set_fd, enter_scope, exit_scope}
use mesabox.Sh.Env.Fd.{pipeline}
use mesabox.Sh.Ast.Syntax.{SepKind, first, and, or}
use mesabox.Sh.Ast.Run.{
  Run, returned, unimplemented, out_of_fuel, unwrap, ◌>>=◌, set_break_counter, set_loop_depth,
  inc_loop_depth, dec_loop_depth, check_break, check_break_loop,
}
use mesabox.Sh.Ast.Shell.{Env, Shell}
use mesabox.Sh.Ast.Children.{ShellChild, last_child, with_input, wait_all, spawn_child}

-- A run leaves the environment and an exit code.
abbrev pub Action : Type 0 → Type 0 → Type 0
Action W R = Env W R → Run (Env W R × ℤ)

abbrev pub is_break : CheckBreak → Bool
is_break break = true
is_break _ = false

abbrev pub same : Bool → Bool → Bool
same true b = b
same false b = not b

-- `AndOr::execute`: whether the pipeline runs after the code before it.
abbrev pub runs : SepKind → ℤ → Bool
runs first prev_res = true
runs and prev_res = is_zero prev_res
runs or prev_res = not (is_zero prev_res)

-- `(code == 0) as ExitCode`
abbrev pub negated : ℤ → ℤ
negated code = if is_zero code then pos 1 else pos 0

-- An error is reported, and the code is 127.
abbrev pub code_or_127 : Option ℤ → ℤ
code_or_127 none = pos 127
code_or_127 (some code) = code

module _ {W R : Type 0} where
  abbrev pub set_last_exitcode : Env W R → ℤ → Env W R
  set_last_exitcode env code = record env {
    special_vars = record (env.special_vars) { last_exitcode = code };
  }

  -- `IfClause::execute`, and an `elif`: neither branch runs if a `break` is pending after a
  -- condition that holds.
  unfoldable pub if_then : Run (Env W R × ℤ) → Action W R → Action W R → Run (Env W R × ℤ)
  unfolding check_break
  if_then cond body else_stmt = cond >>= λ r.
      if is_zero r.1
      then (if check_break r.0 then returned (r.0, pos 0) else body r.0)
      else else_stmt r.0

  -- What follows the body of a loop; `again` is the next round, with the code so far.
  unfoldable pub after_body : (ℤ → Action W R) → Env W R × ℤ → Run (Env W R × ℤ)
  unfolding check_break_loop
  after_body again (env, code) =
      check_break_loop env >>= λ c. if is_break c.1 then returned (c.0, code) else again code c.0

  -- The condition of a `while` or `until` loop; `break` and `continue` in it count only if it
  -- returns 0.
  unfoldable pub condition : Action W R → Env W R → Run (Env W R × (Bool × CheckBreak))
  unfolding check_break_loop
  condition cond env = cond env >>= λ r.
      if is_zero r.1
      then (check_break_loop r.0 >>= λ c. returned (c.0, (true, c.1)))
      else returned (r.0, (false, no_break))

  -- What follows the condition.
  unfoldable pub decide :
      Bool → Action W R → (ℤ → Action W R) → ℤ → Env W R × (Bool × CheckBreak) → Run (Env W R × ℤ)
  unfolding after_body
  decide desired body again code (env, (condres, continue)) = again code env
  decide desired body again code (env, (condres, break)) = returned (env, code)
  decide desired body again code (env, (condres, no_break)) =
      if same condres desired then (body env >>= λ r. after_body again r) else returned (env, code)

  -- A round of such a loop.
  unfoldable pub round :
      Action W R → Bool → Action W R → (ℤ → Action W R) → ℤ → Env W R → Run (Env W R × ℤ)
  unfolding condition decide
  round cond desired body again code env =
      condition cond env >>= λ c. decide desired body again code c

  unfoldable pub while_loop : ℕ → Action W R → Bool → Action W R → ℤ → Action W R
  unfolding round
  while_loop zero cond desired body code env = out_of_fuel
  while_loop (suc n) cond desired body code env =
      round cond desired body (while_loop n cond desired body) code env

  -- A loop is one deeper while it runs.
  unfoldable pub in_loop : Action W R → Action W R
  unfolding inc_loop_depth dec_loop_depth
  in_loop loop env =
      loop (inc_loop_depth env) >>= λ r. dec_loop_depth r.0 >>= λ env'. returned (env', r.1)

  unfoldable pub fake_subshell : Action W R → Action W R
  unfolding enter_scope exit_scope
  fake_subshell func env = func (enter_scope env) >>= λ r. unwrap (exit_scope r.0) >>= λ env'.
      returned (set_break_counter (set_loop_depth env' env.loop_depth) 0, r.1)

module _ {W R P : Type 0} (shell : Shell W R P) where
  unfoldable pub for_loop : Bytes → List W → Action W R → ℤ → Action W R
  unfolding set_var after_body
  for_loop name [] body code env = returned (env, code)
  for_loop name (word ∷ words) body code env = shell.eval word env >>= λ q.
      body (set_var q.0 name q.1).0 >>= λ r. after_body (for_loop name words body) r

  -- A loop without words is `unimplemented!()`.
  unfoldable pub for_words : Bytes → List W → Action W R → Action W R
  unfolding for_loop
  for_words name [] body env = unimplemented
  for_words name (word ∷ words) body env = for_loop name (word ∷ words) body (pos 0) env

  -- `Pattern::matches`
  unfoldable pub matches : List W → Bytes → Env W R → Run (Env W R × Bool)
  matches [] value env = returned (env, false)
  matches (item ∷ items) value env = shell.matches_glob item value env >>= λ q.
      if q.1 then returned (q.0, true) else matches items value q.0

  -- A command that starts a child in a scope of its own, and what comes back. A child that cannot be
  -- started is left out.
  abbrev pub Spawns : Type 0
  Spawns = Option (ShellChild P) → Env W R → Run (Env W R × Option (ShellChild P))

  -- `children.push(child)`
  abbrev pub push : List (ShellChild P) → Option (ShellChild P) → List (ShellChild P)
  push children none = children
  push children (some child) = children ++ child ∷ []

  unfoldable pub spawn_one :
      Spawns → List (ShellChild P) → Env W R → Run (Env W R × List (ShellChild P))
  unfolding enter_scope exit_scope
  spawn_one spawn children env = spawn (last_child shell children) (enter_scope env) >>= λ r.
      unwrap (exit_scope r.0) >>= λ env'. returned (env', push children r.1)

  -- The last command reads what the last child writes.
  unfoldable pub last_command : List (ShellChild P) → Action W R → Action W R
  unfolding with_input
  last_command children func env =
      with_input shell (last_child shell children) env >>= λ env'. func env'

  -- The last command runs in a scope of its own, and then all children are waited for.
  unfoldable pub finish : List (ShellChild P) → Action W R → Action W R
  unfolding fake_subshell last_command wait_all
  finish children func env = fake_subshell (last_command children func) env >>= λ r.
      wait_all shell children >>= λ u. returned r

  -- A command that has no error of its own, in a child.
  abbrev pub succeeds : Action W R → Env W R → Run (Env W R × Option ℤ)
  succeeds func env = func env >>= λ r. returned (r.0, some r.1)

  -- A subshell in a pipeline: the child reads what the one before it writes.
  unfoldable pub spawn_subshell : Action W R → Spawns
  unfolding enter_scope exit_scope set_fd spawn_child with_input
  spawn_subshell func prev_child env = unwrap (set_fd (enter_scope env) 1 pipeline) >>= λ env'.
      spawn_child shell (λ e. with_input shell prev_child e >>= λ e'. succeeds func e') env'
      >>= λ r. unwrap (exit_scope r.0) >>= λ env''. returned (env'', r.1)
