-- ===== src/Sh/Builtin/Defs.antt =====
-- libmesabox/src/posix/sh/builtin: the builtins that only change the environment, and the table of
-- builtins. The options of `unset` are parsed by the crate `clap`, whose result is a parameter.
use mesabox.Common.{
  ℕ, zero, suc, ℤ, pos, Bool, not, Option, none, some, List, [], ◌∷◌, length, min, leb, ltb, ◌==◌,
  if◌then◌else◌,
}
use mesabox.Common.Bytes.{Bytes, codes, bytes_eq}
use mesabox.Common.Utf8.{is_utf8}
use mesabox.Common.Number.{from_str}
use mesabox.Common.Result.{Result, ok, err, ◌>>=◌}
use mesabox.Sh.Env.{
  Environment, SpecialVars, CheckBreak, break, continue, get_positionals, shift_positionals,
  export_var, remove_var, remove_func,
}

-- error.rs: the errors of these builtins. What `clap` reports is not looked into.
pub data BuiltinError : Type 0 where
  clap : BuiltinError
  parse_int : Bytes → BuiltinError
  invalid_number : Bytes → BuiltinError
  invalid_utf8 : Bytes → BuiltinError

-- mod.rs: `arg_to_usize`
unfoldable pub arg_to_usize : Bytes → (ℕ → Bool) → Result BuiltinError ℕ
unfolding is_utf8 from_str
arg_to_usize arg validator =
    if is_utf8 arg
    then elim (from_str arg) [
      | none ↦ err (parse_int arg)
      | some count ↦ if validator count then ok count else err (invalid_number arg)
    ]
    else err (invalid_utf8 arg)

-- shift.rs: `for _ in 0..count`; `none` is a panic.
unfoldable pub shift_loop : ℕ → SpecialVars → Option SpecialVars
unfolding shift_positionals
shift_loop zero vars = some vars
shift_loop (suc count) vars = elim (shift_positionals vars) [
  | none ↦ none
  | some vars' ↦ shift_loop count vars'
]

module _ {F : Type 0} where
  -- break.rs: `run_common`; the environment changes only if the argument is accepted.
  unfoldable pub break_count : Environment F → List Bytes → Result BuiltinError ℕ
  unfolding arg_to_usize
  break_count env [] = ok 1
  break_count env (arg ∷ rest) = arg_to_usize arg (λ count. not (count == 0))

  unfoldable pub run_common :
      Environment F → List Bytes → CheckBreak → Result BuiltinError (Environment F × ℤ)
  unfolding break_count
  run_common env args kind = break_count env args >>= λ count.
      ok (record env { break_counter = min count env.loop_depth; break_type = kind }, pos 0)

  unfoldable pub break_run : Environment F → List Bytes → Result BuiltinError (Environment F × ℤ)
  unfolding run_common
  break_run env args = run_common env args break

  -- continue.rs
  unfoldable pub continue_run : Environment F → List Bytes → Result BuiltinError (Environment F × ℤ)
  unfolding run_common
  continue_run env args = run_common env args continue

  -- colon.rs
  unfoldable pub colon_run : Environment F → List Bytes → Result BuiltinError (Environment F × ℤ)
  colon_run env args = ok (env, pos 0)

  -- shift.rs
  unfoldable pub shift_count : Environment F → List Bytes → Result BuiltinError ℕ
  unfolding arg_to_usize get_positionals
  shift_count env [] =
      if ltb 0 (length (get_positionals env.special_vars))
      then ok 1
      else err (invalid_number (codes "1"))
  shift_count env (arg ∷ rest) =
      arg_to_usize arg (λ count. leb count (length (get_positionals env.special_vars)))

  unfoldable pub shift_run :
      Environment F → List Bytes → Option (Result BuiltinError (Environment F × ℤ))
  unfolding shift_count shift_loop
  shift_run env args = elim (shift_count env args) [
    | err e ↦ some (err e)
    | ok count ↦ elim (shift_loop count env.special_vars) [
      | none ↦ none
      | some vars ↦ some (ok (record env { special_vars = vars }, pos 0))
    ]
  ]

  -- export.rs
  unfoldable pub export_all : Environment F → List Bytes → Environment F
  unfolding export_var
  export_all env [] = env
  export_all env (arg ∷ rest) = export_all (export_var env arg) rest

  unfoldable pub export_run : Environment F → List Bytes → Result BuiltinError (Environment F × ℤ)
  unfolding export_all
  export_run env args = ok (export_all env args, pos 0)

  -- unset.rs, after `clap` has told the flag `-f` and the names apart.
  unfoldable pub unset_all : Environment F → Bool → List Bytes → Environment F
  unfolding remove_var remove_func
  unset_all env func [] = env
  unset_all env func (name ∷ rest) =
      unset_all (if func then (remove_func env name).0 else (remove_var env name).0) func rest

  unfoldable pub unset_run :
      (List Bytes → Result BuiltinError (Bool × List Bytes))
      → Environment F
      → List Bytes
      → Result BuiltinError (Environment F × ℤ)
  unfolding unset_all
  unset_run get_matches env args =
      get_matches args >>= λ matches. ok (unset_all env matches.0 matches.1, pos 0)

-- mod.rs: `Builtin` and `BuiltinSet::find`
pub data Builtin : Type 0 where
  break_builtin cd colon continue_builtin exec exit export read shift unset : Builtin
  other : Bytes → Builtin

-- `name` is the text of the command name, decoded lossily. `util_exists` of lib.rs is a parameter; the
-- shell itself is no builtin.
unfoldable pub find : (Bytes → Bool) → Bytes → Option Builtin
unfolding bytes_eq
find util_exists name =
    if bytes_eq name (codes "break")
    then some break_builtin
    else if bytes_eq name (codes "cd")
    then some cd
    else if bytes_eq name (codes ":")
    then some colon
    else if bytes_eq name (codes "continue")
    then some continue_builtin
    else if bytes_eq name (codes "exec")
    then some exec
    else if bytes_eq name (codes "exit")
    then some exit
    else if bytes_eq name (codes "export")
    then some export
    else if bytes_eq name (codes "read")
    then some read
    else if bytes_eq name (codes "shift")
    then some shift
    else if bytes_eq name (codes "unset")
    then some unset
    else if util_exists name
    then (if bytes_eq name (codes "sh") then none else some (other name))
    else none
