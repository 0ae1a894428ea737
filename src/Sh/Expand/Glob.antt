-- ===== src/Sh/Expand/Glob.antt =====
-- libmesabox/src/posix/sh/ast.rs: `Word::eval_glob_fs` and `Word::matches_glob`. The crate glob is a
-- parameter: the paths that a pattern stands for, and whether it matches a text; `none` is an error in
-- the pattern.
use mesabox.Common.{
  Bool, true, false, not, ◌&&◌, Option, none, some, List, [], ◌∷◌, ◌++◌, map, ◌==◌, if◌then◌else◌,
}
use mesabox.Common.Bytes.{Bytes, codes}
use mesabox.Sh.Ast.Run
use mesabox.Sh.Ast.Run.{Run, returned}
use mesabox.Sh.Ast.Shell.{Env, WordEval, text, globbed}
use mesabox.Sh.Ast.Words.{Word}
use mesabox.Sh.Expand.Words.{System, eval_word, eval_tilde}

-- `Path::components` behind a `.` at the start: whether there is a further one. A piece that is empty or a
-- `.` is none; `dot` says that the piece is a `.` so far.
unfoldable pub next_component : Bool → Bytes → Bool
next_component dot [] = false
next_component dot (b ∷ rest) =
    let after_slash = next_component false rest in
    let after_dot = next_component true rest in
    if b == b'/' then after_slash else if b == b'.' && not dot then after_dot else true

-- The prefix that the paths get back.
unfoldable pub path_prefix : Bytes → Bytes
unfolding next_component
path_prefix (a ∷ b ∷ rest) =
    if a == b'.' && (b == b'/' && next_component false rest) then codes "./" else []
path_prefix s = []

abbrev pub word_eval : Bytes → Option (List Bytes) → WordEval
word_eval s none = text s
word_eval s (some []) = text s
word_eval s (some (path ∷ paths)) = globbed (map (λ p. path_prefix s ++ p) (path ∷ paths))

abbrev pub matched : Option Bool → Bool
matched none = false
matched (some b) = b

module _ {W R K : Type 0} (system : System W R K) (glob : Bytes → Option (List Bytes))
    (pattern_matches : Bytes → Bytes → Option Bool) where
  unfoldable pub eval_glob_fs : Word K → Env W R → Run (Env W R × WordEval)
  unfolding eval_tilde path_prefix
  eval_glob_fs w env =
      Run.◌>>=◌ (eval_tilde system w env) (λ r. returned (r.0, word_eval r.1 (glob r.1)))

  unfoldable pub matches_glob : Word K → Bytes → Env W R → Run (Env W R × Bool)
  unfolding eval_word
  matches_glob w value env =
      Run.◌>>=◌ (eval_word system w env) (λ r. returned (r.0, matched (pattern_matches r.1 value)))
