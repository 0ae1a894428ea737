-- ===== src/Sh/Ast/Builtins.antt =====
-- libmesabox/src/posix/sh/builtin/mod.rs: how a builtin runs in the shell. `cd`, `exec`, `exit`,
-- `read` and the utilities of the program are a parameter.
use mesabox.Common.{ℤ, pos, ◌≡◌, refl, ◌∙◌, Bool, Option, some, List, [], ◌∷◌, inl, inr, arith}
use mesabox.Common.Bytes.{Bytes}
use mesabox.Common.Result.{Result, ok, err, Result-cases}
use mesabox.Sh.Env.{remove_var, remove_func, export_var, break, continue, CheckBreak}
use mesabox.Sh.Types.Locality
use mesabox.Sh.Types.Locality.{Locality, base, inner}
use mesabox.Sh.Builtin.Defs.{
  Builtin, BuiltinError, break_builtin, continue_builtin, colon, shift, export, unset, cd, exec,
  exit, read, other, run_common, break_run, continue_run, colon_run, shift_run, export_run,
  unset_run, export_all, unset_all, shift_count, break_count,
}
use mesabox.Sh.Builtin.Shift.{shift_run_lem}
use mesabox.Sh.Ast.Run.{Run, returned, unwrap, ◌>>=◌}
use mesabox.Sh.Ast.Shell.{Env, ExecData}
use mesabox.Sh.Ast.Safety.Shape.{shape, scopes}
use mesabox.Sh.Ast.Safety.Safe.{Safe, Keeps}

module _ {W R : Type 0} where
  -- An error is reported, and the code is 1.
  abbrev pub reported : Env W R → Result BuiltinError (Env W R × ℤ) → Env W R × Option ℤ
  reported env (err e) = (env, some (pos 1))
  reported env (ok (env', code)) = (env', some code)

  module _ (get_matches : List Bytes → Result BuiltinError (Bool × List Bytes))
      (rest : Builtin → ExecData → Env W R → Run (Env W R × Option ℤ)) where
    unfoldable pub execute_builtin : Builtin → ExecData → Env W R → Run (Env W R × Option ℤ)
    unfolding break_run continue_run colon_run shift_run export_run unset_run
    execute_builtin break_builtin data_ env = returned (reported env (break_run env data_.args))
    execute_builtin continue_builtin data_ env =
        returned (reported env (continue_run env data_.args))
    execute_builtin colon data_ env = returned (reported env (colon_run env data_.args))
    execute_builtin export data_ env = returned (reported env (export_run env data_.args))
    execute_builtin unset data_ env = returned (reported env (unset_run get_matches env data_.args))
    execute_builtin shift data_ env =
        unwrap (shift_run env data_.args) >>= λ r. returned (reported env r)
    execute_builtin cd data_ env = rest cd data_ env
    execute_builtin exec data_ env = rest exec data_ env
    execute_builtin exit data_ env = rest exit data_ env
    execute_builtin read data_ env = rest read data_ env
    execute_builtin (other name) data_ env = rest (other name) data_ env

    shape-run_common :
        (env : Env W R) (args : List Bytes) (kind : CheckBreak)
        → shape (reported env (run_common env args kind)).0 ≡ shape env
    unfolding run_common
    shape-run_common env args kind = elim (Result-cases (break_count env args)) [
      | inl (e, failed) ↦ rw (failed, run_common) refl
      | inr (count, counted) ↦ rw (counted, run_common) (unfold shape in refl)
    ]

    shape-export_all : (args : List Bytes) (env : Env W R) → shape (export_all env args) ≡ shape env
    unfolding export_all export_var
    shape-export_all [] env = refl
    shape-export_all (arg ∷ args) env =
        shape-export_all args (export_var env arg) ∙ (unfold shape in ground arith)

    shape-unset_all :
        (args : List Bytes) (func : Bool) (env : Env W R)
        → shape (unset_all env func args) ≡ shape env
    unfolding unset_all remove_var remove_func
    shape-unset_all [] func env = refl
    shape-unset_all (arg ∷ args) func env =
        shape-unset_all args func _ ∙ (unfold shape in ground arith)

    scopes-with_current_val :
        (l : Locality (List Bytes)) (v : List Bytes)
        → scopes (Locality.with_current_val l v) ≡ scopes l
    unfolding Locality.with_current_val
    scopes-with_current_val (base x n) v = refl
    scopes-with_current_val (inner x n p) v = refl

    -- A builtin does not panic, and leaves as many scopes and loops as there were, if that is so of
    -- those that stand outside this part.
    pub execute_builtin-Safe :
        ((b : Builtin) (data_ : ExecData) (env : Env W R)
          → Safe (Keeps (shape env)) (rest b data_ env))
        → (b : Builtin) (data_ : ExecData) (env : Env W R)
        → Safe (Keeps (shape env)) (execute_builtin b data_ env)
    unfolding execute_builtin
    execute_builtin-Safe h break_builtin data_ env =
        unfold break_run in shape-run_common env data_.args break
    execute_builtin-Safe h continue_builtin data_ env =
        unfold continue_run in shape-run_common env data_.args continue
    execute_builtin-Safe h colon data_ env = unfold colon_run in refl
    execute_builtin-Safe h export data_ env = unfold export_run in shape-export_all data_.args env
    execute_builtin-Safe h unset data_ env = elim (Result-cases (get_matches data_.args)) [
      | inl (e, failed) ↦ rw (failed, unset_run) refl
      | inr (m, parsed) ↦ rw (parsed, unset_run) (shape-unset_all m.1 m.0 env)
    ]
    execute_builtin-Safe h shift data_ env = elim (Result-cases (shift_count env data_.args)) [
      | inl (e, failed) ↦ rw (shift_run_lem env data_.args, failed) refl
      | inr (count, counted) ↦
          rw (shift_run_lem env data_.args, counted)
            (unfold shape in rw (scopes-with_current_val env.special_vars.args) refl)
    ]
    execute_builtin-Safe h cd data_ env = h cd data_ env
    execute_builtin-Safe h exec data_ env = h exec data_ env
    execute_builtin-Safe h exit data_ env = h exit data_ env
    execute_builtin-Safe h read data_ env = h read data_ env
    execute_builtin-Safe h (other name) data_ env = h (other name) data_ env
