-- ===== src/Sh/Expand/Params.antt =====
-- libmesabox/src/posix/sh/ast.rs: `Param::eval` and `Param::to_os_string`, with the decimal text of a
-- number that `format!` gives.
use mesabox.Common.{
  ℕ, zero, suc, ◌+◌, ◌/◌, ◌%◌, ℤ, pos, negsuc, Option, some, List, [], ◌∷◌, ◌++◌, length, get_elem?,
  ◌==◌, if◌then◌else◌,
}
use mesabox.Common.Bytes.{Bytes, codes}
use mesabox.Sh.Env.{Environment, get_var, get_positionals}
use mesabox.Sh.Ast.Run.{Run, returned, unimplemented}
use mesabox.Sh.Ast.Words.{
  Param, var, star, question, at, num_params, shell_pid, background_pid, positional,
}

-- The last digits of a number, before the text that is there. A `u64` has 20 digits at most.
abbrev pub digits : ℕ → ℕ → Bytes → Bytes
digits zero n text = text
digits (suc fuel) n text =
    let text' = (b'0' + n % 10) ∷ text in
    let longer = digits fuel (n / 10) text' in if n / 10 == 0 then text' else longer

abbrev pub decimal_text : ℕ → Bytes
decimal_text n = digits 20 n []

abbrev pub integer_text : ℤ → Bytes
integer_text (pos n) = decimal_text n
integer_text (negsuc n) = b'-' ∷ decimal_text (suc n)

-- The fold of `Star` and `At`: a blank behind each argument.
unfoldable pub joined : List Bytes → Bytes
joined [] = []
joined (item ∷ items) = item ++ b' ' ∷ joined items

module _ {F : Type 0} (pid : ℕ) where
  -- `pid` is the number of the process.
  unfoldable pub eval_param : Param → Environment F → Run (Option Bytes)
  unfolding get_var get_positionals joined
  eval_param (var s) env = returned (get_var env s)
  eval_param question env = returned (some (integer_text env.special_vars.last_exitcode))
  eval_param star env = returned (some (joined (get_positionals env.special_vars)))
  eval_param at env = returned (some (joined (get_positionals env.special_vars)))
  eval_param num_params env =
      returned (some (decimal_text (length (get_positionals env.special_vars))))
  eval_param shell_pid env = returned (some (decimal_text pid))
  eval_param (positional zero) env = unimplemented
  eval_param (positional (suc num)) env =
      returned (get_elem? (get_positionals env.special_vars) num)
  eval_param background_pid env = unimplemented

unfoldable pub to_os_string : Param → Bytes
to_os_string (var s) = s
to_os_string star = codes "*"
to_os_string question = codes "?"
to_os_string at = codes "@"
to_os_string num_params = codes "#"
to_os_string shell_pid = codes "$"
to_os_string background_pid = codes "!"
to_os_string (positional num) = decimal_text num
