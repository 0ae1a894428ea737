-- ===== src/Sh/Expand/Safe.antt =====
-- The expansion of words does not panic and keeps the shape of the environment
-- (libmesabox/src/posix/sh/ast.rs).
use mesabox.Common.{ℕ, zero, suc, ℤ, ◌≡◌, refl, ◌∙◌, Option, none, some, [], ◌∷◌, arith}
use mesabox.Common.Bytes.{Bytes}
use mesabox.Util.Platform.{Pipe}
use mesabox.Sh.Env.{set_fd, set_var}
use mesabox.Sh.Env.Fd.{pipe}
use mesabox.Sh.Ast.Run.{Run, unimplemented, ◌>>=◌}
use mesabox.Sh.Ast.Shell.{Env}
use mesabox.Sh.Ast.Parts.{set_last_exitcode, fake_subshell}
use mesabox.Sh.Ast.Safety.Safe.{Safe, bind-Safe, Keeps, SafeAt}
use mesabox.Sh.Ast.Safety.Shape.{Shape, shape, entered, HasStreams, shape-set_var, set_fd-shape}
use mesabox.Sh.Ast.Safety.Loops.{fake_subshell-Safe}
use mesabox.Sh.Ast.Words.{
  Param, var, star, question, at, num_params, shell_pid, background_pid, positional, Word,
  parameter, command_subst, single_quote, double_quote, simple, complex, Words, no_words, words,
  ParamExpr, param_expr, ParamExprKind, assign, assign_null, use_value, use_null, error, error_null,
  error_default, error_null_default, alternate, alternate_null, small_prefix, large_prefix,
  small_suffix, large_suffix, value,
}
use mesabox.Sh.Ast.Words
use mesabox.Sh.Expand.Params.{eval_param}
use mesabox.Sh.Expand.Words.{
  System, eval_subst, eval_word, eval_words, eval_expr, eval_kind, filled, given, assigned,
  captured, read_output, through_pipe, if_given, to_pipe,
}

entered_streams : (s : Shape) → HasStreams s → HasStreams (entered s)
entered_streams (loops, args, n ∷ m ∷ fds) h = omega arith
entered_streams (loops, args, n ∷ []) h = absurd (omega arith)
entered_streams (loops, args, []) h = absurd (omega arith)

-- A parameter is evaluated without a panic.
eval_param-Safe :
    {F : Type 0} (pid : ℕ) (param : Param) (env : mesabox.Sh.Env.Environment F)
    → Safe (λ v. Unit {0}) (eval_param pid param env)
unfolding eval_param
eval_param-Safe pid (var s) env = tt
eval_param-Safe pid star env = tt
eval_param-Safe pid question env = tt
eval_param-Safe pid at env = tt
eval_param-Safe pid num_params env = tt
eval_param-Safe pid shell_pid env = tt
eval_param-Safe pid background_pid env = tt
eval_param-Safe pid (positional zero) env = tt
eval_param-Safe pid (positional (suc n)) env = tt

module _ {W R K : Type 0} (system : System W R K)
    (run : (k : K) (s : Shape) → HasStreams s → SafeAt s (system.execute k)) (s : Shape)
    (hs : HasStreams s) where
  set_last-shape :
      (env : Env W R) (code : ℤ) → shape env ≡ s → shape (set_last_exitcode env code) ≡ s
  unfolding shape
  set_last-shape env code e = e

  captured-Safe : (r : Env W R × ℤ) → shape r.0 ≡ s → Safe (Keeps s) (captured system r)
  captured-Safe (env, code) e = output-Safe (system.read_to_end env')
    where
      env' : Env W R
      env' = set_last_exitcode env code

      output-Safe : (o : Option Bytes) → Safe (Keeps s) (read_output system env' o)
      output-Safe none = set_last-shape env' _ (set_last-shape env code e)
      output-Safe (some output) = set_last-shape env code e

  to_pipe-Safe : (k : K) (write : Pipe) → SafeAt (entered s) (to_pipe system k write)
  to_pipe-Safe k write env e =
      let inside = entered_streams s hs in
      let (env', set, kept) = set_fd-shape env 1 (pipe write) (omega arith) (rw e inside) in
      rw set (run k (entered s) inside env' (kept ∙ e))

  eval_subst-Safe : (k : K) → SafeAt s (eval_subst system k)
  unfolding eval_subst
  eval_subst-Safe k env e = pipe-Safe (system.create_pipe env)
    where
      pipe-Safe : (o : Option Pipe) → Safe (Keeps s) (through_pipe system k env o)
      pipe-Safe none = set_last-shape env _ e
      pipe-Safe (some write) =
          bind-Safe (Keeps s) _ (fake_subshell (to_pipe system k write) env) _
            (fake_subshell-Safe s _ (to_pipe-Safe k write) env e) captured-Safe

  -- What the kinds do with an expansion that is safe.
  given-Safe :
      (o : Option Bytes) (env : Env W R) (m : Run (Env W R × Bytes))
      → shape env ≡ s
      → Safe (Keeps s) m
      → Safe (Keeps s) (given system o env m)
  given-Safe none env m e h = h
  given-Safe (some v) env m e h = e

  if_given-Safe :
      (o : Option Bytes) (env : Env W R) (m : Run (Env W R × Bytes))
      → shape env ≡ s
      → Safe (Keeps s) m
      → Safe (Keeps s) (if_given system o env m)
  if_given-Safe none env m e h = e
  if_given-Safe (some v) env m e h = h

  assigned-Safe :
      (param : Param) (m : Run (Env W R × Bytes))
      → Safe (Keeps s) m
      → Safe (Keeps s) (m >>= λ r. assigned system param r)
  assigned-Safe param m h = bind-Safe (Keeps s) (Keeps s) m _ h (λ r kept. to-Safe param r kept)
    where
      to-Safe :
          (param : Param) (r : Env W R × Bytes)
          → shape r.0 ≡ s
          → Safe (Keeps s) (assigned system param r)
      to-Safe (var name) (env, v) e = shape-set_var env name v ∙ e
      to-Safe star r e = e
      to-Safe question r e = e
      to-Safe at r e = e
      to-Safe num_params r e = e
      to-Safe shell_pid r e = e
      to-Safe background_pid r e = e
      to-Safe (positional n) r e = e

  reported-Safe :
      (m : Run (Env W R × Bytes))
      → Safe (Keeps s) m
      → Safe {A = Env W R × Bytes} (Keeps s) (m >>= λ r. unimplemented)
  reported-Safe m h = bind-Safe (Keeps s) (Keeps s) m _ h (λ r kept. tt)

  mutual
    unfolding eval_word

    eval_word-Safe : (w : Word K) → SafeAt s (eval_word system w)
    eval_word-Safe (parameter e) env h = eval_expr-Safe e env h
    eval_word-Safe (command_subst k) env h = eval_subst-Safe k env h
    eval_word-Safe (single_quote t) env h = h
    eval_word-Safe (double_quote ws) env h = eval_words-Safe ws env h
    eval_word-Safe (simple t) env h = h
    eval_word-Safe (complex ws) env h = eval_words-Safe ws env h

    eval_words-Safe : (ws : Words K) → SafeAt s (eval_words system ws)
    eval_words-Safe no_words env h = h
    eval_words-Safe (words w ws) env h =
        bind-Safe (Keeps s) (Keeps s) (eval_word system w env) _ (eval_word-Safe w env h) (λ r kept.
          bind-Safe (Keeps s) (Keeps s) (eval_words system ws r.0) _ (eval_words-Safe ws r.0 kept)
            (λ q kept'. kept'))

    eval_expr-Safe : (e : ParamExpr K) → SafeAt s (eval_expr system e)
    eval_expr-Safe (param_expr param kind) env h =
        bind-Safe (λ v. Unit {0}) (Keeps s) (eval_param system.pid param env) _
          (eval_param-Safe system.pid param env) (λ v u. eval_kind-Safe kind param v env h)

    eval_kind-Safe :
        (kind : ParamExprKind K) (param : Param) (v : Option Bytes)
        → SafeAt s (eval_kind system kind param v)
    eval_kind-Safe (assign w) param v env h =
        given-Safe (filled v) env _ h (assigned-Safe param _ (eval_word-Safe w env h))
    eval_kind-Safe (assign_null w) param v env h =
        given-Safe v env _ h (assigned-Safe param _ (eval_word-Safe w env h))
    eval_kind-Safe (use_value w) param v env h =
        given-Safe (filled v) env _ h (eval_word-Safe w env h)
    eval_kind-Safe (use_null w) param v env h = given-Safe v env _ h (eval_word-Safe w env h)
    eval_kind-Safe (error w) param v env h =
        given-Safe (filled v) env _ h (reported-Safe _ (eval_word-Safe w env h))
    eval_kind-Safe (error_null w) param v env h =
        given-Safe v env _ h (reported-Safe _ (eval_word-Safe w env h))
    eval_kind-Safe error_default param v env h = given-Safe (filled v) env _ h tt
    eval_kind-Safe error_null_default param v env h = given-Safe v env _ h tt
    eval_kind-Safe (alternate w) param v env h = if_given-Safe v env _ h (eval_word-Safe w env h)
    eval_kind-Safe (alternate_null w) param v env h =
        if_given-Safe (filled v) env _ h (eval_word-Safe w env h)
    eval_kind-Safe (small_prefix w) param v env h = tt
    eval_kind-Safe (large_prefix w) param v env h = tt
    eval_kind-Safe (small_suffix w) param v env h = tt
    eval_kind-Safe (large_suffix w) param v env h = tt
    eval_kind-Safe value param v env h = h
    eval_kind-Safe Words.length param v env h = h

module _ {W R K : Type 0} (system : System W R K)
    (run : (k : K) (s : Shape) → HasStreams s → SafeAt s (system.execute k)) where
  -- If the commands of substitutions do not panic and leave no scope or loop open or closed, then so
  -- does the expansion of a word, from an environment with the standard streams. A case that is
  -- unimplemented in the code is left aside.
  pub eval_word_balanced :
      (w : Word K) (env : Env W R)
      → HasStreams (shape env)
      → Safe (Keeps (shape env)) (eval_word system w env)
  eval_word_balanced w env hs = eval_word-Safe system run (shape env) hs w env refl

  -- The same for the parts of a word.
  pub eval_words_balanced :
      (ws : Words K) (env : Env W R)
      → HasStreams (shape env)
      → Safe (Keeps (shape env)) (eval_words system ws env)
  eval_words_balanced ws env hs = eval_words-Safe system run (shape env) hs ws env refl
