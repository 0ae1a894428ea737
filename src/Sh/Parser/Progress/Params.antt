-- ===== src/Sh/Parser/Progress/Params.antt =====
-- Parameter expansions of libmesabox/src/posix/sh/parser.rs. The word in the braces is shorter than
-- the expansion.
use mesabox.Common.{
  ℕ, zero, suc, ◌≤◌, ◌<◌, Bool, true, false, [], length, ◌==◌, if◌then◌else◌, arith,
}
use mesabox.Common.Bytes.{Bytes, codes}
use mesabox.Sh.Ast.Words.{
  Word, Param, var, ParamExpr, param_expr, ParamExprKind, value, small_prefix, small_suffix,
  error_null_default, assign, assign_null, use_value, use_null, error, error_null, alternate,
  alternate_null, error_default, large_prefix, large_suffix,
}
use mesabox.Sh.Ast.Words
use mesabox.Sh.Parser.Defs.{Errors, ok, err, is_next, is_one_of}
use mesabox.Sh.Parser.Space.{delimiter, is_token}
use mesabox.Sh.Parser.Names.{no_check, param_name}
use mesabox.Sh.Parser.Params.{
  value_kind, value_signs, value_word, param_subst_value, param_subst_prefix, param_subst_suffix,
  with_colon, large_suffix_of, large_prefix_of, longer, subst_signs, param_subst, length_expr,
  braced, plain, dollar,
}
use mesabox.Sh.Parser.State
use mesabox.Sh.Parser.State.{Parser, Step}
use mesabox.Sh.Parser.Progress.Base.{
  Within, Keeps, Left-refl, and_then-Within, or_else-Within, weaken-Within, and_then-Keeps,
  or_else-Keeps, recover-Keeps, attempt-Keeps, lift-Keeps, ok-Keeps, weaken-Keeps,
}
use mesabox.Sh.Parser.Progress.Space.{is_next-Within, is_one_of-Within, is_token-Within}
use mesabox.Sh.Parser.Progress.Names.{param_name-Within_braces, param_name-Within_plain}

module _ {K : Type 0} where
  with_colon-Within : (k : ParamExprKind K) (rest : Bytes) → Within 0 rest (with_colon k rest)
  unfolding with_colon
  with_colon-Within (assign_null w) rest = Left-refl rest
  with_colon-Within (use_null w) rest = Left-refl rest
  with_colon-Within (error_null w) rest = Left-refl rest
  with_colon-Within error_null_default rest = Left-refl rest
  with_colon-Within (alternate w) rest = Left-refl rest
  with_colon-Within _ rest = tt

  large_suffix_of-Within :
      (k : ParamExprKind K) (rest : Bytes) → Within 0 rest (large_suffix_of k rest)
  unfolding large_suffix_of
  large_suffix_of-Within (small_suffix w) rest = Left-refl rest
  large_suffix_of-Within _ rest = tt

  large_prefix_of-Within :
      (k : ParamExprKind K) (rest : Bytes) → Within 0 rest (large_prefix_of k rest)
  unfolding large_prefix_of
  large_prefix_of-Within (small_prefix w) rest = Left-refl rest
  large_prefix_of-Within _ rest = tt

module _ (K : Type 0) where
  pub length_expr-Within : (input : Bytes) → Within {A = ParamExpr K} 0 input (length_expr input)
  unfolding length_expr
  length_expr-Within input =
      or_else-Within 0 input _ (ok (param_expr (var []) Words.length) input)
        (and_then-Within 1 0 0 input (param_name no_check input) _ (omega arith)
          (param_name-Within_braces input) (λ param rest h. Left-refl rest))
        (Left-refl input)

  pub plain-Within : (input : Bytes) → Within {A = ParamExpr K} 1 input (plain input)
  unfolding plain
  plain-Within input =
      and_then-Within 1 0 1 input (param_name delimiter input) _ (omega arith)
        (param_name-Within_plain input) (λ param rest h. Left-refl rest)

module _ {K : Type 0} (param_word : Step (Word K)) (bound : ℕ)
    (shorter : (p : Parser) (i : Bytes) → length i < bound → Keeps 1 p i (param_word p i)) where
  value_word-Keeps :
      (idx : ℕ) (p : Parser) (input : Bytes)
      → length input < bound
      → Keeps 0 p input (value_word param_word idx p input)
  unfolding value_word
  value_word-Keeps idx p input h =
      recover-Keeps 0 p input _ _
        (and_then-Keeps 1 0 0 p input (param_word p input) _ (omega arith) (shorter p input h)
          (λ w p' rest le. ok-Keeps p' rest (value_kind idx w)))
        (λ e p'. default_step e p' (idx == 2))
    where
      default_step :
          (e : Errors) (p' : Parser) (b : Bool)
          → Keeps {A = ParamExprKind K} 0 p' input
              (if b then (p', ok error_null_default input) else (p', err e))
      default_step e p' true = ok-Keeps {A = ParamExprKind K} p' input error_null_default
      default_step e p' false = lift-Keeps {A = ParamExprKind K} 0 p' input (err e) tt

  param_subst_value-Keeps :
      (p : Parser) (input : Bytes)
      → length input ≤ bound
      → Keeps 1 p input (param_subst_value param_word p input)
  unfolding param_subst_value
  param_subst_value-Keeps p input h =
      and_then-Keeps 1 0 1 p input (p, is_one_of value_signs input) _ (omega arith)
        (lift-Keeps 1 p input _ (is_one_of-Within value_signs input (omega arith)))
        (λ idx p' rest le. value_word-Keeps idx p' rest (omega arith))

  -- A sign, and a word behind it.
  sign_word :
      (v : Bytes) (f : Word K → ParamExprKind K) (p : Parser) (input : Bytes)
      → 0 < length v
      → length input ≤ bound
      → Keeps 1 p input (
          State.and_then
            (p, is_next v input)
            λ u p' rest. State.and_then (param_word p' rest) λ w p'' rest'. (p'', ok (f w) rest'))
  sign_word v f p input proper h =
      and_then-Keeps 1 0 1 p input (p, is_next v input) _ (omega arith)
        (lift-Keeps 1 p input _ (is_next-Within v input proper))
        (λ u p' rest le.
          and_then-Keeps 1 0 0 p' rest (param_word p' rest) _ (omega arith)
            (shorter p' rest (omega arith)) (λ w p'' rest' le'. ok-Keeps p'' rest' (f w)))

  param_subst_prefix-Keeps :
      (p : Parser) (input : Bytes)
      → length input ≤ bound
      → Keeps 1 p input (param_subst_prefix param_word p input)
  unfolding param_subst_prefix
  param_subst_prefix-Keeps p input h = sign_word (codes "#") small_prefix p input (omega arith) h

  param_subst_suffix-Keeps :
      (p : Parser) (input : Bytes)
      → length input ≤ bound
      → Keeps 1 p input (param_subst_suffix param_word p input)
  unfolding param_subst_suffix
  param_subst_suffix-Keeps p input h = sign_word (codes "%") small_suffix p input (omega arith) h

  longer-Keeps :
      (idx : ℕ) (p : Parser) (input : Bytes)
      → length input ≤ bound
      → Keeps 1 p input (longer param_word idx p input)
  unfolding longer
  longer-Keeps zero p input h =
      and_then-Keeps 1 0 1 p input _ _ (omega arith) (param_subst_value-Keeps p input h)
        (λ k p' rest le. lift-Keeps 0 p' rest _ (with_colon-Within k rest))
  longer-Keeps (suc zero) p input h =
      and_then-Keeps 1 0 1 p input _ _ (omega arith) (param_subst_suffix-Keeps p input h)
        (λ k p' rest le. lift-Keeps 0 p' rest _ (large_suffix_of-Within k rest))
  longer-Keeps (suc (suc n)) p input h =
      and_then-Keeps 1 0 1 p input _ _ (omega arith) (param_subst_prefix-Keeps p input h)
        (λ k p' rest le. lift-Keeps 0 p' rest _ (large_prefix_of-Within k rest))

  param_subst-Keeps :
      (p : Parser) (input : Bytes)
      → length input ≤ bound
      → Keeps 1 p input (param_subst param_word p input)
  unfolding param_subst
  param_subst-Keeps p input h =
      attempt-Keeps 1 0 1 p input (p, is_one_of subst_signs input) _ _ (omega arith)
        (lift-Keeps 1 p input _ (is_one_of-Within subst_signs input (omega arith)))
        (λ idx p1 rest le.
          weaken-Keeps 1 0 p1 rest (longer param_word idx p1 rest) (omega arith)
            (longer-Keeps idx p1 rest (omega arith)))
        (λ p1. or_else-Keeps 1 p1 input _ _ (param_subst_value-Keeps p1 input h) (λ p2.
          or_else-Keeps 1 p2 input _ _ (param_subst_suffix-Keeps p2 input h)
            (λ p3. param_subst_prefix-Keeps p3 input h)))

  braced-Keeps :
      (p : Parser) (input : Bytes)
      → length input ≤ bound
      → Keeps 1 p input (braced param_word p input)
  unfolding braced
  braced-Keeps p input h =
      or_else-Keeps 1 p input _ _
        (lift-Keeps 1 p input _ (
          and_then-Within 1 0 1 input (is_next (codes "#") input) _ (omega arith)
            (is_next-Within (codes "#") input (omega arith))
            (λ u rest le. length_expr-Within K rest)))
        (λ p1.
          and_then-Keeps 1 0 1 p1 input (p1, param_name no_check input) _ (omega arith)
            (lift-Keeps 1 p1 input _ (param_name-Within_braces input))
            (λ param p2 i2 le2.
              and_then-Keeps 0 0 0 p2 i2 _ _ (omega arith)
                (or_else-Keeps 0 p2 i2 _ _
                  (weaken-Keeps 1 0 p2 i2 (param_subst param_word p2 i2) (omega arith)
                    (param_subst-Keeps p2 i2 (omega arith)))
                  (λ p3. ok-Keeps {A = ParamExprKind K} p3 i2 value))
                (λ kind p4 i4 le4. ok-Keeps p4 i4 (param_expr param kind))))

  pub dollar-Keeps :
      (p : Parser) (input : Bytes)
      → length input ≤ bound
      → Keeps 1 p input (dollar param_word p input)
  unfolding dollar
  dollar-Keeps p input h =
      and_then-Keeps 1 0 1 p input (p, is_next (codes "$") input) _ (omega arith)
        (lift-Keeps 1 p input _ (is_next-Within (codes "$") input (omega arith)))
        (λ u p1 i1 le1.
          attempt-Keeps 1 0 0 p1 i1 (p1, is_next (codes "{") i1) _ _ (omega arith)
            (lift-Keeps 1 p1 i1 _ (is_next-Within (codes "{") i1 (omega arith)))
            (λ u' p2 i2 le2.
              and_then-Keeps 1 0 0 p2 i2 _ _ (omega arith) (braced-Keeps p2 i2 (omega arith))
                (λ expr p3 i3 le3.
                  and_then-Keeps 1 0 0 p3 i3 (p3, is_token (codes "}") i3) _ (omega arith)
                    (lift-Keeps 1 p3 i3 _ (is_token-Within (codes "}") i3 (omega arith)))
                    (λ u'' p4 i4 le4. ok-Keeps p4 i4 expr)))
            (λ p2.
              lift-Keeps 0 p2 i1 _
                (weaken-Within 1 0 i1 (plain i1) (omega arith) (plain-Within K i1))))
