-- ===== src/Sh/Env/Special.antt =====
-- libmesabox/src/posix/sh/env.rs: `SpecialVars`, the last exit code and the positional arguments.
use mesabox.Common.{ℤ, pos, Option, none, some, List, [], ◌∷◌, ◌>>=◌}
use mesabox.Common.Bytes.{Bytes}
use mesabox.Sh.Types.Locality
use mesabox.Sh.Types.Locality.{Locality}

pub record SpecialVars : Type 0 where
  pub last_exitcode : ℤ
  pub args : Locality (List Bytes)

abbrev pub new_vars : SpecialVars
new_vars = record { last_exitcode = pos 0; args = Locality.new [] 0 none }

unfoldable pub get_positionals : SpecialVars → List Bytes
unfolding Locality.current_val
get_positionals s = Locality.current_val s.args

unfoldable pub set_positionals : SpecialVars → List Bytes → SpecialVars
unfolding Locality.set_val
set_positionals s args = record s { args = Locality.set_val s.args args }

-- `Vec::remove(0)`, which panics on an empty vector.
abbrev pub remove_first : List Bytes → Option (List Bytes)
remove_first [] = none
remove_first (a ∷ rest) = some rest

unfoldable pub shift_positionals : SpecialVars → Option SpecialVars
unfolding Locality.current_val Locality.with_current_val
shift_positionals s = remove_first (Locality.current_val s.args) >>= λ rest.
    some (record s { args = Locality.with_current_val s.args rest })
