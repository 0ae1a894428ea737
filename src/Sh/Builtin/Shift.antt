-- ===== src/Sh/Builtin/Shift.antt =====
-- libmesabox/src/posix/sh/builtin/shift.rs: the loop of `shift`.
use mesabox.Common.{
  ℕ, zero, suc, ◌≤◌, pos, ◌≡◌, refl, ◌∙◌, Bool, true, some, List, [], ◌∷◌, length, drop, leb→le,
  arith,
}
use mesabox.Common.Bytes.{Bytes}
use mesabox.Common.Result.{Result, ok, err, ◌>>=◌}
use mesabox.Sh.Types.Locality
use mesabox.Sh.Types.Locality.{Locality, base, inner}
use mesabox.Sh.Env.{Environment, SpecialVars, get_positionals, shift_positionals}
use mesabox.Sh.Builtin.Defs.{BuiltinError, arg_to_usize, shift_count, shift_loop, shift_run}

-- The arguments without the first `count`, in the scope that they stand in.
abbrev pub shifted : ℕ → SpecialVars → SpecialVars
shifted count vars = record vars {
  args = Locality.with_current_val vars.args (drop count (get_positionals vars));
}

shifted_zero :
    (l : Locality (List Bytes)) → Locality.with_current_val l (Locality.current_val l) ≡ l
unfolding Locality.with_current_val Locality.current_val
shifted_zero (base x n) = refl
shifted_zero (inner x n p) = refl

with_current_val_twice :
    (l : Locality (List Bytes)) (v w : List Bytes)
    → Locality.with_current_val (Locality.with_current_val l v) w ≡ Locality.with_current_val l w
unfolding Locality.with_current_val
with_current_val_twice (base x n) v w = refl
with_current_val_twice (inner x n p) v w = refl

current_val-with_current_val :
    (l : Locality (List Bytes)) (v : List Bytes)
    → Locality.current_val (Locality.with_current_val l v) ≡ v
unfolding Locality.with_current_val Locality.current_val
current_val-with_current_val (base x n) v = refl
current_val-with_current_val (inner x n p) v = refl

shift_loop-drop :
    (count : ℕ) (vars : SpecialVars) (args : List Bytes)
    → get_positionals vars ≡ args
    → count ≤ length args
    → shift_loop count vars
      ≡ some (record vars { args = Locality.with_current_val vars.args (drop count args) })
unfolding shift_loop
shift_loop-drop zero vars args e h =
    rw (← e) (unfold get_positionals in rw (shifted_zero vars.args))
shift_loop-drop (suc count) vars [] e h = absurd (omega arith)
shift_loop-drop (suc count) vars (a ∷ rest) e h =
    let current : Locality.current_val vars.args ≡ a ∷ rest = unfold get_positionals in e in
    let one : shift_positionals vars
        ≡ some (record vars { args = Locality.with_current_val vars.args rest }) =
      unfold shift_positionals in rw current in
    rw (one, shift_loop)
      (shift_loop-drop count (record vars { args = Locality.with_current_val vars.args rest }) rest
          (unfold get_positionals in current_val-with_current_val vars.args rest) (omega arith)
        ∙ rw (with_current_val_twice vars.args rest (drop count rest)))

-- A count that was read passes its test.
pub arg_to_usize-ok :
    (arg : Bytes) (validator : ℕ → Bool) (count : ℕ)
    → arg_to_usize arg validator ≡ ok count
    → validator count ≡ true
unfolding arg_to_usize
arg_to_usize-ok arg validator count h = ground arith

module _ {F : Type 0} where
  shift_count-le :
      (env : Environment F) (args : List Bytes) (count : ℕ)
      → shift_count env args ≡ ok count
      → count ≤ length (get_positionals env.special_vars)
  unfolding shift_count
  shift_count-le env [] count h = ground arith
  shift_count-le env (arg ∷ rest) count h = leb→le _ _ (arg_to_usize-ok arg _ count h)

  -- `shift` never panics: it fails with the error of its argument, and otherwise drops as many
  -- positional arguments as it was asked to, changes nothing else and returns 0.
  pub shift_run_lem :
      (env : Environment F) (args : List Bytes)
      → shift_run env args
        ≡ some (
            shift_count env args >>= λ count.
            ok (record env { special_vars = shifted count env.special_vars }, pos 0))
  unfolding shift_run
  shift_run_lem env args = go (shift_count env args) refl
    where
      go :
          (r : Result BuiltinError ℕ)
          → shift_count env args ≡ r
          → shift_run env args
            ≡ some (
                r >>= λ count.
                ok (record env { special_vars = shifted count env.special_vars }, pos 0))
      go (err e) h = rw (h, shift_run)
      go (ok count) h = rw (
        h,
        shift_run,
        shift_loop-drop count env.special_vars (get_positionals env.special_vars) refl
            (shift_count-le env args count h),
      )
