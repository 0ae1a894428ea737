-- ===== src/Sh/Builtin/Loops.antt =====
-- libmesabox/src/posix/sh/builtin/break.rs: what `break` and `continue` ask of the loops around them.
use mesabox.Common.{ℕ, ◌≤◌, ◌<◌, ℤ, pos, ◌≡◌, not, List, [], ◌∷◌, min, arith, ◌==◌, inl, inr}
use mesabox.Common.Bytes.{Bytes}
use mesabox.Common.Result.{ok, Result-cases}
use mesabox.Sh.Env.{Environment, CheckBreak}
use mesabox.Sh.Builtin.Defs.{break_count, run_common}
use mesabox.Sh.Builtin.Shift.{arg_to_usize-ok}

module _ {F : Type 0} where
  break_count-pos :
      (env : Environment F) (args : List Bytes) (count : ℕ)
      → break_count env args ≡ ok count
      → 0 < count
  unfolding break_count
  break_count-pos env [] count h = ground arith
  break_count-pos env (arg ∷ rest) count h =
      ground (arith, arg_to_usize-ok arg (λ (n : ℕ). not (n == 0)) count h)

  -- If `break` or `continue` is accepted it returns 0 and asks for at least one loop, if there is
  -- one, and for no more loops than there are; it changes nothing but that count and the kind.
  pub run_common_lem :
      (env env' : Environment F) (args : List Bytes) (kind : CheckBreak) (code : ℤ)
      → run_common env args kind ≡ ok (env', code)
      → (code ≡ pos 0)
        × (env'.break_counter ≤ env.loop_depth)
        × (min 1 env.loop_depth ≤ env'.break_counter)
        × (env' ≡ record env { break_counter = env'.break_counter; break_type = kind })
  unfolding run_common
  run_common_lem env env' args kind code h = elim (Result-cases (break_count env args)) [
    | inl (e, failed) ↦ absurd (ground (arith, failed))
    | inr (count, counted) ↦ ground (arith, counted, break_count-pos env args count)
  ]
