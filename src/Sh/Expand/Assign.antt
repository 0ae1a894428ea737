-- ===== src/Sh/Expand/Assign.antt =====
-- Default values that are assigned (`ParamExpr::eval` of libmesabox/src/posix/sh/ast.rs).
use mesabox.Common.{◌≡◌, ap, ◌∙◌, Option, none, some, if◌then◌else◌, arith}
use mesabox.Common.Bytes.{Bytes, bytes_eq, bytes_eq_iff}
use mesabox.Sh.Env.{get_var, set_var}
use mesabox.Sh.Env.Vars.{IsValid, get_var-set_var}
use mesabox.Sh.Ast.Run.{Run, returned, ◌>>=◌}
use mesabox.Sh.Ast.Shell.{Env}
use mesabox.Sh.Ast.Words.{Word, var, param_expr, assign, assign_null, value}
use mesabox.Sh.Expand.Params.{eval_param}
use mesabox.Sh.Expand.Words.{System, eval_word, eval_expr, filled, given, assigned, or_default}

module _ {W R K : Type 0} (system : System W R K) (env env' : Env W R) (w : Word K) (x v : Bytes)
    (expanded : eval_word system w env ≡ returned (env', v)) (valid : IsValid env') where
  value_after :
      eval_expr system (param_expr (var x) value) (set_var env' x v).0
      ≡ returned ((set_var env' x v).0, v)
  unfolding eval_expr eval_param
  value_after =
      ap (λ o. returned ((set_var env' x v).0, or_default o))
        (get_var-set_var env' x x v valid ∙ same)
    where
      same : ◌≡◌ {A = Option Bytes} (if bytes_eq x x then some v else get_var env' x) (some v)
      same = ground (arith, bytes_eq_iff x x)

  -- Where `x` has no value, `${x:=w}` and `${x=w}` give the text of `w`, and `$x` gives it afterwards, if
  -- the environment is valid after `w` is expanded.
  pub eval_expr-assign :
      get_var env x ≡ none
      → (eval_expr system (param_expr (var x) (assign w)) env ≡ returned ((set_var env' x v).0, v))
        × (eval_expr system (param_expr (var x) (assign_null w)) env
            ≡ returned ((set_var env' x v).0, v))
        × (eval_expr system (param_expr (var x) value) (set_var env' x v).0
            ≡ returned ((set_var env' x v).0, v))
  unfolding eval_expr eval_param
  eval_expr-assign e = (
    ap (λ o. given system (filled o) env instead) e ∙ ap then_assigned expanded,
    ap (λ o. given system o env instead) e ∙ ap then_assigned expanded,
    value_after,
  )
    where
      then_assigned : Run (Env W R × Bytes) → Run (Env W R × Bytes)
      then_assigned m = m >>= λ r. assigned system (var x) r

      instead : Run (Env W R × Bytes)
      instead = then_assigned (eval_word system w env)
