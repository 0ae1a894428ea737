-- ===== src/Sh/Expand/Words.antt =====
-- libmesabox/src/posix/sh/ast.rs: `Word::eval`, `ParamExpr::eval` and `CommandSubst::eval`.
use mesabox.Common.{ℕ, ℤ, pos, Option, none, some, [], ◌∷◌, ◌++◌, length, ◌&&◌, ◌==◌, if◌then◌else◌}
use mesabox.Common.Bytes.{Bytes, codes}
use mesabox.Util.Platform.{Pipe}
use mesabox.Sh.Env.{set_var, get_var, set_fd}
use mesabox.Sh.Env.Fd.{pipe}
use mesabox.Sh.Ast.Run.{Run, returned, unimplemented, unwrap, ◌>>=◌}
use mesabox.Sh.Ast.Shell.{Env}
use mesabox.Sh.Ast.Parts.{set_last_exitcode, fake_subshell}
use mesabox.Sh.Ast.Words.{
  Param, var, Word, parameter, command_subst, single_quote, double_quote, simple, complex, Words,
  no_words, words, ParamExpr, param_expr, ParamExprKind, assign, assign_null, use_value, use_null,
  error, error_null, error_default, error_null_default, alternate, alternate_null, small_prefix,
  large_prefix, small_suffix, large_suffix, value,
}
use mesabox.Sh.Ast.Words
use mesabox.Sh.Expand.Params.{decimal_text, eval_param}
use mesabox.Sh.Expand.Output.{truncated}

-- What the expansion uses of the rest: the process's number, the execution of a command, `Pipe::create`
-- (the end to write to) and `read_to_end` on the other end, which may fail.
pub record System (W R K : Type 0) : Type 0 where
  pub pid : ℕ
  pub execute : K → Env W R → Run (Env W R × ℤ)
  pub create_pipe : Env W R → Option Pipe
  pub read_to_end : Env W R → Option Bytes

abbrev pub filled : Option Bytes → Option Bytes
filled (some (b ∷ v)) = some (b ∷ v)
filled _ = none

abbrev pub length_text : Option Bytes → Bytes
length_text none = codes "0"
length_text (some v) = decimal_text (length v)

abbrev pub or_default : Option Bytes → Bytes
or_default none = []
or_default (some v) = v

module _ {W R K : Type 0} (system : System W R K) where
  -- An expansion leaves the environment and a text.
  abbrev pub Text : Type 0
  Text = Run (Env W R × Bytes)

  -- `write_error`: the text is empty and the exit code 127.
  abbrev pub failed : Env W R → Text
  failed env = returned (set_last_exitcode env (pos 127), [])

  abbrev pub to_pipe : K → Pipe → Env W R → Run (Env W R × ℤ)
  to_pipe command write env =
      unwrap (set_fd env 1 (pipe write)) >>= λ env'. system.execute command env'

  abbrev pub read_output : Env W R → Option Bytes → Text
  read_output env none = failed env
  read_output env (some output) = returned (env, truncated output)

  abbrev pub captured : Env W R × ℤ → Text
  captured (env, code) =
      read_output (set_last_exitcode env code) (system.read_to_end (set_last_exitcode env code))

  abbrev pub through_pipe : K → Env W R → Option Pipe → Text
  through_pipe command env none = failed env
  through_pipe command env (some write) =
      fake_subshell (to_pipe command write) env >>= λ r. captured r

  unfoldable pub eval_subst : K → Env W R → Text
  unfolding set_fd fake_subshell truncated
  eval_subst command env = through_pipe command env (system.create_pipe env)

  -- The value, or what comes instead of it.
  abbrev pub given : Option Bytes → Env W R → Text → Text
  given (some v) env instead = returned (env, v)
  given none env instead = instead

  abbrev pub if_given : Option Bytes → Env W R → Text → Text
  if_given (some v) env instead = instead
  if_given none env instead = returned (env, [])

  -- Only a variable is assigned to.
  abbrev pub assigned : Param → Env W R × Bytes → Text
  assigned (var name) (env, v) = returned ((set_var env name v).0, v)
  assigned _ r = returned r

  abbrev pub append_text : Bytes → Env W R × Bytes → Text
  append_text text (env, rest) = returned (env, text ++ rest)

  unfoldable mutual
    unfolding eval_subst eval_param set_var

    pub eval_word : Word K → Env W R → Text
    eval_word (parameter e) env = eval_expr e env
    eval_word (command_subst command) env = eval_subst command env
    eval_word (single_quote quote) env = returned (env, quote)
    eval_word (double_quote items) env = eval_words items env
    eval_word (simple s) env = returned (env, s)
    eval_word (complex parts) env = eval_words parts env

    -- The fold over the parts.
    pub eval_words : Words K → Env W R → Text
    eval_words no_words env = returned (env, [])
    eval_words (words w ws) env =
        eval_word w env >>= λ r. eval_words ws r.0 >>= λ q. append_text r.1 q

    pub eval_expr : ParamExpr K → Env W R → Text
    eval_expr (param_expr param kind) env =
        eval_param system.pid param env >>= λ pval. eval_kind kind param pval env

    -- The kinds, with the value of the parameter. An error is written and then `unimplemented!()`, as
    -- prefixes and suffixes are.
    pub eval_kind : ParamExprKind K → Param → Option Bytes → Env W R → Text
    eval_kind (assign w) param pval env =
        given (filled pval) env (eval_word w env >>= λ r. assigned param r)
    eval_kind (assign_null w) param pval env =
        given pval env (eval_word w env >>= λ r. assigned param r)
    eval_kind (use_value w) param pval env = given (filled pval) env (eval_word w env)
    eval_kind (use_null w) param pval env = given pval env (eval_word w env)
    eval_kind (error w) param pval env =
        given (filled pval) env (eval_word w env >>= λ r. unimplemented)
    eval_kind (error_null w) param pval env =
        given pval env (eval_word w env >>= λ r. unimplemented)
    eval_kind error_default param pval env = given (filled pval) env unimplemented
    eval_kind error_null_default param pval env = given pval env unimplemented
    eval_kind (alternate w) param pval env = if_given pval env (eval_word w env)
    eval_kind (alternate_null w) param pval env = if_given (filled pval) env (eval_word w env)
    eval_kind (small_prefix w) param pval env = unimplemented
    eval_kind (large_prefix w) param pval env = unimplemented
    eval_kind (small_suffix w) param pval env = unimplemented
    eval_kind (large_suffix w) param pval env = unimplemented
    eval_kind value param pval env = returned (env, or_default pval)
    eval_kind Words.length param pval env = returned (env, length_text pval)

abbrev in_home : Bytes → Option Bytes → Bytes → Bytes
in_home s (some (b ∷ dir)) rest = (b ∷ dir) ++ b'/' ∷ rest
in_home s _ rest = s

module _ {W R : Type 0} where
  -- The closure of `eval_tilde`: `~/` at the start, and a home directory that is set.
  unfoldable pub expand_tilde : Bytes → Env W R → Bytes
  unfolding get_var
  expand_tilde (a ∷ b ∷ rest) env =
      if a == b'~' && b == b'/'
      then in_home (a ∷ b ∷ rest) (get_var env (codes "HOME")) rest
      else a ∷ b ∷ rest
  expand_tilde s env = s

module _ {W R K : Type 0} (system : System W R K) where
  -- The first part of a word whose parts are of several kinds.
  unfoldable pub eval_first : Word K → Env W R → Text system
  unfolding eval_word expand_tilde
  eval_first (simple s) env = returned (env, expand_tilde s env)
  eval_first w env = eval_word system w env

  unfoldable pub eval_parts : Words K → Env W R → Text system
  unfolding eval_first eval_words
  eval_parts no_words env = returned (env, [])
  eval_parts (words w ws) env =
      eval_first w env >>= λ r. eval_words system ws r.0 >>= λ q. append_text system r.1 q

  unfoldable pub eval_tilde : Word K → Env W R → Text system
  unfolding eval_word eval_parts expand_tilde
  eval_tilde (simple s) env = returned (env, expand_tilde s env)
  eval_tilde (complex parts) env = eval_parts parts env
  eval_tilde other env = eval_word system other env
