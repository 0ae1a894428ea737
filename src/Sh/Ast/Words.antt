-- ===== src/Sh/Ast/Words.antt =====
-- libmesabox/src/posix/sh/ast.rs: words and parameters. The command of a substitution (`K`) is a
-- parameter; a `Vec<Word>` is the type `Words`.
use mesabox.Common.{ℕ, List, [], ◌∷◌}
use mesabox.Common.Bytes.{Bytes}

pub data Param : Type 0 where
  var : Bytes → Param
  star question at num_params shell_pid background_pid : Param
  positional : ℕ → Param

-- `Error(None)` and `ErrorNull(None)` are `error_default` and `error_null_default`.
mutual
  pub data Word (K : Type 0) : Type 0 where
    parameter : ParamExpr K → Word K
    command_subst : K → Word K
    single_quote : Bytes → Word K
    double_quote : Words K → Word K
    simple : Bytes → Word K
    complex : Words K → Word K

  pub data Words (K : Type 0) : Type 0 where
    no_words : Words K
    words : Word K → Words K → Words K

  pub data ParamExpr (K : Type 0) : Type 0 where
    param_expr : Param → ParamExprKind K → ParamExpr K

  pub data ParamExprKind (K : Type 0) : Type 0 where
    assign assign_null use_value use_null : Word K → ParamExprKind K
    error error_null alternate alternate_null : Word K → ParamExprKind K
    error_default error_null_default : ParamExprKind K
    small_prefix large_prefix small_suffix large_suffix : Word K → ParamExprKind K
    value length : ParamExprKind K

abbrev pub to_words : {K : Type 0} → List (Word K) → Words K
to_words [] = no_words
to_words (w ∷ ws) = words w (to_words ws)
