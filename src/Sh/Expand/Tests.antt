-- ===== src/Sh/Expand/Tests.antt =====
-- Words and redirections on small inputs.
use mesabox.Common.{
  inl, ℕ, ℤ, pos, ◌≡◌, refl, false, Option, none, some, [], ◌∷◌, ◌==◌, if◌then◌else◌, arith,
}
use mesabox.Common.Bytes.{Bytes, codes, bytes_eq}
use mesabox.Common.Result.{ok}
use mesabox.Util.Platform.{read, write}
use mesabox.Sh.Env.{from_vars, set_var, get_var, get_fd}
use mesabox.Sh.Env.Fd.{null, try_clone}
use mesabox.Sh.Types.ScopedMap
use mesabox.Sh.Env.Vars.{IsValid}
use mesabox.Sh.Ast.Syntax
use mesabox.Sh.Ast.Syntax.{for_clause, and_or, no_chains, io_redirect}
use mesabox.Sh.Ast.Run.{Run, returned, panicked}
use mesabox.Sh.Ast.Shell.{Env, exited}
use mesabox.Sh.Ast.Exec.{run}
use mesabox.Sh.Ast.Safety.Safe.{Safe, Keeps}
use mesabox.Sh.Ast.Safety.Shape.{shape}
use mesabox.Sh.Ast.Words.{
  Word, words, no_words, parameter, param_expr, var, use_null, complex, simple, command_subst,
  assign, assign_null, value,
}
use mesabox.Sh.Ast.Redirects.{IoRedirectFile, IoRedirectKind, file, output}
use mesabox.Sh.Expand.Words.{System, eval_word, eval_expr}
use mesabox.Sh.Expand.Output.{truncated, truncated_lem}
use mesabox.Sh.Expand.Assign.{eval_expr-assign}
use mesabox.Sh.Expand.Safe.{eval_word_balanced}
use mesabox.Sh.Expand.Redirect.{duplicate, setup_redirect}
use mesabox.Sh.Expand.RedirectSafe.{setup_redirect_balanced, setup_redirect-outside}
use mesabox.Sh.Expand.Copy.{duplicate-copies}
use mesabox.Sh.Expand.Program.{E, StdRedirect, ScriptCommand, World, program}
use mesabox.Sh.Expand.Balanced.{LawfulWorld, program-Lawful}
use mesabox.Sh.Ast.Children.{in_subshell}
use mesabox.Sh.Ast.Safety.Isolation.{OnlyOutput, in_subshell_isolated}

-- Every command does nothing and every file is descriptor 7.
abbrev system : System Bytes Bytes ℕ
system = record {
  pid = 42;
  execute = λ k env. returned (env, pos 0);
  create_pipe = λ env. some (record { fd = 5; kind = write });
  read_to_end = λ env. some (codes "out\n");
}

abbrev open_file : IoRedirectKind → Bytes → Option ℕ
open_file kind name = some 7

abbrev heredoc_data : ℕ → Bytes
heredoc_data doc = codes "text"

abbrev env : Env Bytes Bytes
env = from_vars []

env-IsValid : IsValid env
unfolding from_vars
env-IsValid = record {
  flat_vars = tt;
  flat_export = tt;
  disjoint = λ k. inl (unfold ScopedMap.get in refl);
}

abbrev two_parts : Word ℕ
two_parts = complex (
    words (simple (codes "a")) (
      words (command_subst 3) (
        words (parameter (param_expr (var (codes "x")) (use_null (simple (codes "b"))))) no_words)))

two_parts_text : eval_word system two_parts env ≡ returned (env, codes "aoutb")
unfolding eval_word from_vars
two_parts_text = refl

eval_word_balanced_example : Safe (Keeps (shape env)) (eval_word system two_parts env)
unfolding shape from_vars
eval_word_balanced_example = eval_word_balanced system (λ k s hs e h. h) two_parts env (omega arith)

truncated_lem_example :
    (truncated (codes "a\n\n") ≡ codes "a") × (truncated (codes "\n\n") ≡ codes "\n\n")
truncated_lem_example = truncated_lem [] b'a' 2 refl

eval_expr-assign_example :
    (eval_expr system (param_expr (var (codes "x")) (assign (simple (codes "v")))) env
      ≡ returned ((set_var env (codes "x") (codes "v")).0, codes "v"))
    × (eval_expr system (param_expr (var (codes "x")) (assign_null (simple (codes "v")))) env
        ≡ returned ((set_var env (codes "x") (codes "v")).0, codes "v"))
    × (eval_expr system (param_expr (var (codes "x")) value) (set_var env (codes "x") (codes "v")).0
        ≡ returned ((set_var env (codes "x") (codes "v")).0, codes "v"))
unfolding eval_word from_vars get_var
eval_expr-assign_example =
    eval_expr-assign system env env (simple (codes "v")) (codes "x") (codes "v") refl env-IsValid
      refl

abbrev to_file : IoRedirectFile (Word ℕ)
to_file = record { filename = simple (codes "f"); kind = output }

setup_redirect_balanced_example :
    Safe
      (Keeps (shape env))
      (setup_redirect system open_file heredoc_data (file (some 8) to_file) [] env)
unfolding shape from_vars
setup_redirect_balanced_example =
    setup_redirect_balanced system open_file heredoc_data (λ k s hs e h. h) (file (some 8) to_file)
      [] env (omega arith) tt (omega arith)

setup_redirect-outside_example :
    setup_redirect system open_file heredoc_data (file (some 9) to_file) [] env ≡ panicked
unfolding shape from_vars eval_word
setup_redirect-outside_example =
    setup_redirect-outside system open_file heredoc_data to_file 9 7 [] env env (codes "f") tt refl
      refl (omega arith)

duplicate-copies_example :
    (env' : Env Bytes Bytes) × (duplicate system open_file heredoc_data 2 (codes "1") [] env
      ≡ returned (env', ok []))
    × ((j : ℕ) → get_fd env' j ≡ (if j == 2 then some (try_clone null) else get_fd env j))
unfolding shape from_vars get_fd
duplicate-copies_example =
    duplicate-copies system open_file heredoc_data 2 b'1' null [] env refl (omega arith) refl

-- The program: substitution 0 is an empty list, and no other program can be started.
abbrev world : World ℕ ℕ
world = record {
  table = λ k. and_or no_chains;
  pid = 42;
  read_to_end = λ env. some (codes "a\n");
  open_file = open_file;
  heredoc_data = heredoc_data;
  glob = λ s. some [];
  pattern_matches = λ s value. some (bytes_eq s value);
  util_exists = λ name. false;
  get_matches = λ args. ok (false, args);
  other_builtin = λ b data_ env. returned (env, none);
  start = λ name data_ env. returned none;
  wait_process = λ process. none;
  process_output = λ process. null;
  create_pipe = λ env. some (record { fd = 4; kind = read }, record { fd = 5; kind = write });
  fork_fails = λ env. false;
  waitpid = λ code. some (exited code);
}

world-Lawful : LawfulWorld world
world-Lawful = record {
  other_builtin = λ b data_ env. refl;
  start = λ name data_ env. tt;
  waitpid = λ code h. cc h;
}

abbrev output_to_file : StdRedirect ℕ
output_to_file = record { redirect = file none to_file; opens = tt; standard = omega arith }

-- `for x in $(…) b; do NAME >f; done`
abbrev loop_of : Bytes → ScriptCommand ℕ
loop_of name = for_clause (codes "x") (command_subst 0 ∷ simple (codes "b") ∷ []) (
    Syntax.simple (record {
      name = some (simple name);
      pre_actions = [];
      post_actions = io_redirect output_to_file ∷ [];
    }))

abbrev script_env : E ℕ
script_env = from_vars []

-- The value of `x` after the loop.
abbrev left_in_x : Run (E ℕ × ℤ) → Option Bytes
left_in_x (returned (env, code)) = get_var env (codes "x")
left_in_x _ = none

breaks_at_first :
    (left_in_x (run (program world 2) 3 (loop_of (codes "break")) script_env) ≡ some (codes "a"))
    × (left_in_x (run (program world 2) 3 (loop_of (codes "continue")) script_env)
        ≡ some (codes "b"))
unfolding run program from_vars get_var
breaks_at_first = (refl, refl)

-- A subshell that sets a variable.
abbrev setting : E ℕ → Run (E ℕ × Option ℤ)
setting e = returned ((set_var e (codes "x") (codes "v")).0, some (pos 0))

in_subshell_isolated_example :
    Safe (λ r. OnlyOutput script_env r.0) (in_subshell (program world 2) setting script_env)
unfolding shape from_vars
in_subshell_isolated_example =
    in_subshell_isolated (program world 2) script_env (omega arith)
      (program-Lawful world world-Lawful 2) setting
