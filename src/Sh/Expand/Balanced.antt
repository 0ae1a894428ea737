-- ===== src/Sh/Expand/Balanced.antt =====
-- The shell of libmesabox/src/posix/sh with its own words, redirections and builtins: panics, and the
-- balance of scopes and loops.
use mesabox.Common.{
  ℕ, zero, suc, ◌<◌, ◌≤◌, Bool, ◌≡◌, ◌≢◌, ℤ, Option, none, some, List, [], ◌∷◌, arith,
}
use mesabox.Common.Bytes.{Bytes}
use mesabox.Common.Result.{Result, ok, err}
use mesabox.Sh.Builtin.Defs.{Builtin}
use mesabox.Sh.Env.Fd.{EnvFd}
use mesabox.Sh.Ast.Run.{out_of_fuel}
use mesabox.Sh.Ast.Shell.{Env, ExecData}
use mesabox.Sh.Ast.Simple.{command_name}
use mesabox.Sh.Ast.Parts.{Action}
use mesabox.Sh.Ast.Exec.{run}
use mesabox.Sh.Ast.Builtins.{execute_builtin-Safe}
use mesabox.Sh.Ast.Words.{
  Word, parameter, command_subst, single_quote, double_quote, simple, complex, Words, no_words,
  words,
}
use mesabox.Sh.Ast.Safety.Safe.{Safe, bind-Safe, then-Safe, Keeps, SafeAt, Names, Lawful}
use mesabox.Sh.Ast.Safety.Shape.{Shape, shape, HasStreams, descriptors}
use mesabox.Sh.Ast.Safety.Commands.{run_balanced}
use mesabox.Sh.Expand.Words.{System, eval_word, eval_words, eval_first, eval_parts, eval_tilde}
use mesabox.Sh.Expand.Safe.{eval_word_balanced, eval_words_balanced}
use mesabox.Sh.Expand.Glob.{eval_glob_fs, matches_glob, word_eval}
use mesabox.Sh.Expand.Redirect.{SetupError, setup_redirect}
use mesabox.Sh.Expand.RedirectSafe.{target, setup_redirect_balanced}
use mesabox.Sh.Expand.Program.{E, StdRedirect, World, system_with, shell_with, succeeded, program}

module _ {W R K : Type 0} (system : System W R K)
    (good : (k : K) (s : Shape) → HasStreams s → SafeAt s (system.execute k)) (s : Shape)
    (hs : HasStreams s) where
  pub eval_word-At : (w : Word K) → SafeAt s (eval_word system w)
  eval_word-At w env e = rw⁻¹ e (eval_word_balanced system good w env (rw e hs))

  eval_words-At : (ws : Words K) → SafeAt s (eval_words system ws)
  eval_words-At ws env e = rw⁻¹ e (eval_words_balanced system good ws env (rw e hs))

  eval_first-At : (w : Word K) → SafeAt s (eval_first system w)
  unfolding eval_first
  eval_first-At (simple t) env e = e
  eval_first-At (parameter p) env e = eval_word-At (parameter p) env e
  eval_first-At (command_subst k) env e = eval_word-At (command_subst k) env e
  eval_first-At (single_quote t) env e = eval_word-At (single_quote t) env e
  eval_first-At (double_quote ws) env e = eval_word-At (double_quote ws) env e
  eval_first-At (complex ws) env e = eval_word-At (complex ws) env e

  eval_parts-At : (ws : Words K) → SafeAt s (eval_parts system ws)
  unfolding eval_parts
  eval_parts-At no_words env e = e
  eval_parts-At (words w ws) env e =
      then-Safe s (eval_first system w env) _ (eval_first-At w env e) (λ r kept.
        then-Safe s (eval_words system ws r.0) _ (eval_words-At ws r.0 kept) (λ q kept'. kept'))

  eval_tilde-At : (w : Word K) → SafeAt s (eval_tilde system w)
  unfolding eval_tilde
  eval_tilde-At (simple t) env e = e
  eval_tilde-At (complex ws) env e = eval_parts-At ws env e
  eval_tilde-At (parameter p) env e = eval_word-At (parameter p) env e
  eval_tilde-At (command_subst k) env e = eval_word-At (command_subst k) env e
  eval_tilde-At (single_quote t) env e = eval_word-At (single_quote t) env e
  eval_tilde-At (double_quote ws) env e = eval_word-At (double_quote ws) env e

  module _ (glob : Bytes → Option (List Bytes))
      (pattern_matches : Bytes → Bytes → Option Bool) where
    -- A pattern that stands for no path is the text of a word.
    word_eval-named : (t : Bytes) (o : Option (List Bytes)) → command_name (word_eval t o) ≢ none
    word_eval-named t none = λ h. cc h
    word_eval-named t (some []) = λ h. cc h
    word_eval-named t (some (path ∷ paths)) = λ h. cc h

    pub eval_glob_fs-At :
        (w : Word K) (env : Env W R)
        → shape env ≡ s
        → Safe (Names s) (eval_glob_fs system glob pattern_matches w env)
    unfolding eval_glob_fs
    eval_glob_fs-At w env e =
        bind-Safe (Keeps s) (Names s) (eval_tilde system w env) _ (eval_tilde-At w env e)
          (λ r kept. (kept, word_eval-named r.1 (glob r.1)))

    pub matches_glob-At :
        (w : Word K) (value : Bytes) → SafeAt s (matches_glob system glob pattern_matches w value)
    unfolding matches_glob
    matches_glob-At w value env e =
        then-Safe s (eval_word system w env) _ (eval_word-At w env e) (λ r kept. kept)

-- What stands outside keeps its promises: the other builtins and the start of a program do not panic, the
-- builtins leave no scope or loop open or closed, and `waitpid` does not fail.
pub record LawfulWorld {K P : Type 0} (world : World K P) : Type 0 where
  pub other_builtin :
      (b : Builtin) (data_ : ExecData) (env : E K)
      → Safe (Keeps (shape env)) (world.other_builtin b data_ env)
  pub start :
      (name : Bytes) (data_ : ExecData) (env : E K)
      → Safe (λ p. Unit {0}) (world.start name data_ env)
  pub waitpid : (code : ℤ) → world.waitpid code ≢ none

module _ {K P : Type 0} (world : World K P) (lawful : LawfulWorld world) where
  succeeded-Keeps :
      (s : Shape) (q : E K × Result SetupError (List EnvFd))
      → Keeps s q
      → Keeps s (succeeded world q)
  succeeded-Keeps s (env, ok fds) h = h
  succeeded-Keeps s (env, err e) h = h

  standard_below : (s : Shape) (n : ℕ) → HasStreams s → n ≤ 1 → n < descriptors s
  standard_below s n hs h = omega (arith, hs, h)

  shell_with-Lawful :
      (execute : K → Action (Word K) (StdRedirect K))
      → ((k : K) (s : Shape) → HasStreams s → SafeAt s (execute k))
      → Lawful (shell_with world (system_with world execute))
  shell_with-Lawful execute good =
      let system = system_with world execute in
      record {
        eval = λ s hs w env e. eval_word-At system good s hs w env e;
        eval_glob_fs = λ s hs w env e.
            eval_glob_fs-At system good s hs world.glob world.pattern_matches w env e;
        matches_glob = λ s hs w value env e.
            matches_glob-At system good s hs world.glob world.pattern_matches w value env e;
        redirect = λ s hs r env e.
            bind-Safe (Keeps s) (Keeps s)
              (setup_redirect system world.open_file world.heredoc_data r.redirect [] env) _
              (rw⁻¹ e (
                setup_redirect_balanced system world.open_file world.heredoc_data good r.redirect []
                  env (rw e hs) r.opens
                  (rw e (standard_below s (target r.redirect) hs r.standard))))
              (succeeded-Keeps s);
        builtin = λ s hs b data_ env e. rw⁻¹ e (
            execute_builtin-Safe world.get_matches world.other_builtin lawful.other_builtin b data_
              env);
        start = lawful.start;
        waitpid = lawful.waitpid;
      }

  pub program-Lawful : (n : ℕ) → Lawful (program world n)
  unfolding program
  program-Lawful zero = shell_with-Lawful (λ k env. out_of_fuel) (λ k s hs env e. tt)
  program-Lawful (suc n) =
      shell_with-Lawful (λ k. run (program world n) n (world.table k))
        (λ k s hs env e.
          run_balanced (program world n) (program-Lawful n) n (world.table k) s hs env e)
