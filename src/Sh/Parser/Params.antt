-- ===== src/Sh/Parser/Params.antt =====
-- libmesabox/src/posix/sh/parser.rs: parameter expansions. `param_word` stands for `param_value`, the
-- word inside the braces, which is a parser of the next module.
use mesabox.Common.{ℕ, zero, suc, List, [], ◌∷◌, ◌==◌, if◌then◌else◌}
use mesabox.Common.Bytes.{Bytes, codes}
use mesabox.Sh.Ast.Words.{
  Word, var, ParamExpr, param_expr, ParamExprKind, assign, assign_null, use_value, use_null, error,
  error_null, alternate, alternate_null, error_default, error_null_default, small_prefix,
  large_prefix, small_suffix, large_suffix, value, length,
}
use mesabox.Sh.Parser.Defs.{no_fuel, Parsed, ok, err, panic, endless, is_next, is_one_of}
use mesabox.Sh.Parser.Defs
use mesabox.Sh.Parser.Space.{delimiter, is_token}
use mesabox.Sh.Parser.Names.{no_check, param_name}
use mesabox.Sh.Parser.State.{attempt, Parser, Step, and_then, or_else, recover}

abbrev pub value_signs : List Bytes
value_signs = codes "-" ∷ codes "=" ∷ codes "?" ∷ codes "+" ∷ []

abbrev pub subst_signs : List Bytes
subst_signs = codes ":" ∷ codes "%" ∷ codes "#" ∷ []

module _ {K : Type 0} where
  -- What the sign at `idx` of `- = ? +` does with the word.
  abbrev pub value_kind : ℕ → Word K → ParamExprKind K
  value_kind zero w = use_null w
  value_kind (suc zero) w = assign_null w
  value_kind (suc (suc zero)) w = error_null w
  value_kind (suc (suc (suc n))) w = alternate w

  -- What a `:`, `%` or `#` in front makes of the kind; every other kind is `unreachable!()`.
  unfoldable pub with_colon : ParamExprKind K → Bytes → Parsed (ParamExprKind K)
  with_colon (assign_null w) = ok (assign w)
  with_colon (use_null w) = ok (use_value w)
  with_colon (error_null w) = ok (error w)
  with_colon error_null_default = ok error_default
  with_colon (alternate w) = ok (alternate_null w)
  with_colon _ = λ rest. panic

  unfoldable pub large_suffix_of : ParamExprKind K → Bytes → Parsed (ParamExprKind K)
  large_suffix_of (small_suffix w) = ok (large_suffix w)
  large_suffix_of _ = λ rest. panic

  unfoldable pub large_prefix_of : ParamExprKind K → Bytes → Parsed (ParamExprKind K)
  large_prefix_of (small_prefix w) = ok (large_prefix w)
  large_prefix_of _ = λ rest. panic

  -- `${#…}`: the name is empty if none can be read.
  unfoldable pub length_expr : Bytes → Parsed (ParamExpr K)
  unfolding param_name
  length_expr input =
      Defs.or_else
        (Defs.and_then (param_name no_check input) λ param rest. ok (param_expr param length) rest)
        (ok (param_expr (var []) length) input)

  -- Without braces a delimiter must stand behind the name, and it is taken with it.
  unfoldable pub plain : Bytes → Parsed (ParamExpr K)
  unfolding param_name delimiter
  plain input =
      Defs.and_then (param_name delimiter input) λ param rest. ok (param_expr param value) rest

module _ {K : Type 0} (param_word : Step (Word K)) where
  -- Only `?` may stand without a word.
  unfoldable pub value_word : ℕ → Parser → Bytes → Parser × Parsed (ParamExprKind K)
  value_word idx p input =
      recover (and_then (param_word p input) λ w p' rest. (p', ok (value_kind idx w) rest))
        λ e p'. if idx == 2 then (p', ok error_null_default input) else (p', err e)

  unfoldable pub param_subst_value : Step (ParamExprKind K)
  unfolding is_one_of value_word
  param_subst_value p input = and_then (p, is_one_of value_signs input) value_word

  unfoldable pub param_subst_prefix : Step (ParamExprKind K)
  unfolding is_next
  param_subst_prefix p input =
      and_then (p, is_next (codes "#") input)
        λ u p' rest. and_then (param_word p' rest) λ w p'' rest'. (p'', ok (small_prefix w) rest')

  unfoldable pub param_subst_suffix : Step (ParamExprKind K)
  unfolding is_next
  param_subst_suffix p input =
      and_then (p, is_next (codes "%") input)
        λ u p' rest. and_then (param_word p' rest) λ w p'' rest'. (p'', ok (small_suffix w) rest')

  -- By the index in `: % #`.
  unfoldable pub longer : ℕ → Step (ParamExprKind K)
  unfolding param_subst_value param_subst_suffix param_subst_prefix with_colon large_suffix_of
      large_prefix_of
  longer zero p input = and_then (param_subst_value p input) λ k p' rest. (p', with_colon k rest)
  longer (suc zero) p input =
      and_then (param_subst_suffix p input) λ k p' rest. (p', large_suffix_of k rest)
  longer (suc (suc n)) p input =
      and_then (param_subst_prefix p input) λ k p' rest. (p', large_prefix_of k rest)

  unfoldable pub param_subst : Step (ParamExprKind K)
  unfolding is_one_of longer param_subst_value param_subst_suffix param_subst_prefix
  param_subst p input =
      attempt (p, is_one_of subst_signs input) (λ idx p1 rest. longer idx p1 rest)
        (λ p1.
          or_else (param_subst_value p1 input)
            λ p2. or_else (param_subst_suffix p2 input) λ p3. param_subst_prefix p3 input)

  -- `param_expr` of the source, the part between the braces.
  unfoldable pub braced : Step (ParamExpr K)
  unfolding is_next length_expr param_name param_subst
  braced p input =
      or_else (p, Defs.and_then (is_next (codes "#") input) λ u rest. length_expr rest)
        λ p'.
          and_then (p', param_name no_check input)
            λ param p'' rest.
              and_then (or_else (param_subst p'' rest) λ p4. (p4, ok value rest))
                λ kind p4 rest'. (p4, ok (param_expr param kind) rest')

  -- `parameter` of the source.
  unfoldable pub dollar : Step (ParamExpr K)
  unfolding is_next braced is_token plain
  dollar p input =
      and_then (p, is_next (codes "$") input)
        λ u p1 i1.
          attempt (p1, is_next (codes "{") i1)
            (λ u p2 i2.
              and_then (braced p2 i2)
                λ expr p3 i3. and_then (p3, is_token (codes "}") i3) λ u p4 i4. (p4, ok expr i4))
            (λ p2. (p2, plain i1))
