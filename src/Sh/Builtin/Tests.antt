-- ===== src/Sh/Builtin/Tests.antt =====
-- Examples for the theorems on libmesabox/src/posix/sh/builtin.
use mesabox.Common.{ℕ, ◌≤◌, ◌≡◌, refl, ℤ, pos, none, some, [], ◌∷◌, min, true, false}
use mesabox.Common.Bytes.{Bytes, codes}
use mesabox.Common.Result.{ok, ◌>>=◌}
use mesabox.Sh.Builtin.Read.{read_run, set_fields, split_fields, is_in}
use mesabox.Sh.Builtin.ReadLines.{read_run-ends}
use mesabox.Sh.Env.{Environment, from_vars, set_var, break}
use mesabox.Sh.Builtin.Defs.{shift_run, shift_count, run_common, find, other}
use mesabox.Sh.Builtin.Shift.{shifted, shift_run_lem}
use mesabox.Sh.Builtin.Loops.{run_common_lem}

-- A function's body is a number here.
abbrev in_loop : Environment ℕ
in_loop = record (from_vars []) { loop_depth = 2 }

shift_run_lem_example :
    shift_run in_loop (codes "3" ∷ [])
    ≡ some (
        shift_count in_loop (codes "3" ∷ []) >>= λ count.
        ok (record in_loop { special_vars = shifted count in_loop.special_vars }, pos 0))
shift_run_lem_example = shift_run_lem in_loop (codes "3" ∷ [])

abbrev broken : Environment ℕ
broken = record in_loop { break_counter = 2; break_type = break }

break_three : run_common in_loop (codes "3" ∷ []) break ≡ ok (broken, pos 0)
unfolding run_common
break_three = refl

run_common_lem_example :
    (◌≡◌ {A = ℤ} (pos 0) (pos 0))
    × (broken.break_counter ≤ in_loop.loop_depth)
    × (min 1 in_loop.loop_depth ≤ broken.break_counter)
    × (broken ≡ record in_loop { break_counter = broken.break_counter; break_type = break })
run_common_lem_example = run_common_lem in_loop broken (codes "3" ∷ []) break (pos 0) break_three

find_cat : find (λ name. true) (codes "cat") ≡ some (other (codes "cat"))
unfolding find
find_cat = refl

find_sh : find (λ name. true) (codes "sh") ≡ none
unfolding find
find_sh = refl

abbrev two_lines : Bytes
two_lines = codes "ab\\\nc\nd"

read_run-ends_example :
    (r : (Environment ℕ × ℤ) × Bytes) × (read_run in_loop
        (codes "x" ∷ codes "y" ∷ [])
        false
        two_lines
      ≡ some r)
read_run-ends_example = read_run-ends in_loop (codes "x" ∷ codes "y" ∷ []) false two_lines

-- The blank behind the backslash ends the first field, and its backslash is lost.
escaped_blank :
    set_fields false
      (codes "x" ∷ codes "y" ∷ [])
      (split_fields (is_in (codes " ")) 2 [] (codes "a\\ b"))
      in_loop
    ≡ (set_var (set_var in_loop (codes "x") (codes "a")).0 (codes "y") (codes "b")).0
unfolding set_fields split_fields
escaped_blank = refl
