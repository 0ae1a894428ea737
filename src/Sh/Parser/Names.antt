-- ===== src/Sh/Parser/Names.antt =====
-- libmesabox/src/posix/sh/parser.rs: names, numbers and the parameters behind a `$`.
use Prim.Native.String.{String}
use mesabox.Common.{
  ℕ, zero, suc, ◌-◌, Bool, ◌&&◌, ◌||◌, Option, none, some, [], ◌∷◌, ◌++◌, length, leb, ◌==◌,
  if◌then◌else◌,
}
use mesabox.Common.Bytes.{Bytes, codes}
use mesabox.Common.Number.{is_digit, from_str}
use mesabox.Sh.Parser.Defs.{
  Parsed, ok, err, endless, and_then, or_else, is_next, no_name, no_number, no_io_number,
}
use mesabox.Sh.Ast.Words.{
  Param, var, star, question, at, num_params, shell_pid, background_pid, positional,
}
use mesabox.Sh.Parser.Space.{delimiter, ignore}

unfoldable pub is_name_start : ℕ → Bool
is_name_start unit =
    (leb b'a' unit && leb unit b'z') || (leb b'A' unit && leb unit b'Z') || unit == b'_'

unfoldable pub is_name_unit : ℕ → Bool
unfolding is_name_start
is_name_unit unit = is_name_start unit || is_digit unit

-- The loop of `general_name`: the units that belong to the name, and what is behind them.
unfoldable pub name_units : Bytes → Bytes × Bytes
unfolding is_name_unit
name_units [] = ([], [])
name_units (unit ∷ input) =
    let (name, rest) = name_units input in
    if is_name_unit unit then (unit ∷ name, rest) else ([], unit ∷ input)

-- What `check_fn` takes from the input, the name has taken too.
unfoldable pub general_name : (Bytes → Parsed (Unit {0})) → Bytes → Parsed Bytes
unfolding name_units is_name_start
general_name check_fn [] = err (no_name ∷ [])
general_name check_fn (unit ∷ input) =
    let (name, rest) = name_units input in
    if is_name_start unit
    then and_then (check_fn rest) (λ u rest'. ok (unit ∷ name) rest')
    else err (no_name ∷ [])

-- The `check_fn` of `var_name` and of a name in braces.
abbrev pub no_check : Bytes → Parsed (Unit {0})
no_check input = ok tt input

unfoldable pub var_name : Bytes → Parsed Bytes
unfolding general_name
var_name input = general_name no_check input

unfoldable pub name : Bytes → Parsed Bytes
unfolding general_name delimiter
name input = general_name delimiter input

-- `fname` is `name` with a message of its own.
unfoldable pub fname : Bytes → Parsed Bytes
unfolding name
fname input = name input

-- The loop of `number`. A round looks at the next unit of a copy of the input, so the next round looks
-- at the same unit. `none`: the fuel ran out.
unfoldable pub number_loop : ℕ → Bytes → Bytes → Option Bytes
number_loop zero buffer input = none
number_loop (suc fuel) buffer [] = some buffer
number_loop (suc fuel) buffer (unit ∷ input) =
    let later = number_loop fuel (buffer ++ unit ∷ []) (unit ∷ input) in
    if is_digit unit then later else some buffer

-- What follows the loop.
abbrev pub number_of : (Bytes → Parsed (Unit {0})) → Bytes → Option Bytes → Parsed ℕ
number_of check_fn input none = endless
number_of check_fn input (some buffer) =
    and_then (check_fn input)
      λ u rest. elim (from_str buffer) [ none ↦ err (no_number ∷ []) | some num ↦ ok num rest ]

-- The fuel is a round for each unit of the input and one; no fuel is enough where the loop takes a
-- second digit.
unfoldable pub number : (Bytes → Parsed (Unit {0})) → Bytes → Parsed ℕ
unfolding from_str number_loop
number check_fn [] = err (no_number ∷ [])
number check_fn (unit ∷ input) =
    if is_digit unit
    then number_of check_fn input (number_loop (suc (length input)) (unit ∷ []) input)
    else err (no_number ∷ [])

abbrev sign : String → Param → Bytes → Parsed Param
sign text param input = and_then (is_next (codes text) input) λ u rest. ok param rest

unfoldable pub param_name : (Bytes → Parsed (Unit {0})) → Bytes → Parsed Param
unfolding general_name number is_next
param_name check_fn input =
    or_else (and_then (general_name check_fn input) λ s rest. ok (var s) rest) (
      or_else (sign "*" star input) (
        or_else (sign "?" question input) (
          or_else (sign "@" at input) (
            or_else (sign "#" num_params input) (
              or_else (sign "$" shell_pid input) (
                or_else (sign "!" background_pid input)
                  (and_then (number check_fn input) λ num rest. ok (positional num) rest)))))))

unfoldable pub param_delimiter : Bytes → Parsed (Unit {0})
unfolding delimiter is_next
param_delimiter input =
    or_else (delimiter input) (and_then (is_next (codes "}") input) λ u rest. ok tt input)

unfoldable pub io_number : Bytes → Parsed ℕ
unfolding delimiter ignore
io_number [] = err (no_io_number ∷ [])
io_number (unit ∷ input) =
    if is_digit unit
    then and_then (delimiter input)
        (λ u rest. and_then (ignore input) λ u' rest'. ok (unit - b'0') rest')
    else err (no_io_number ∷ [])
