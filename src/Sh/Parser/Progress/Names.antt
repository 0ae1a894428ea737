-- ===== src/Sh/Parser/Progress/Names.antt =====
-- Names, numbers and parameters of libmesabox/src/posix/sh/parser.rs.
use mesabox.Common.{
  ℕ, suc, ◌<◌, ◌-◌, Bool, true, false, Option, none, some, [], ◌∷◌, ◌++◌, length, ◌≡◌, refl, ap,
  if◌then◌else◌, arith,
}
use mesabox.Common.Bytes.{Bytes, codes}
use mesabox.Common.Number.{is_digit, from_str}
use mesabox.Sh.Ast.Words.{
  Param, var, star, question, at, num_params, shell_pid, background_pid, positional,
}
use mesabox.Sh.Parser.Defs
use mesabox.Sh.Parser.Defs.{Parsed, ok, err, endless, no_number, no_name, no_io_number, is_next}
use mesabox.Sh.Parser.Space.{delimiter, ignore}
use mesabox.Sh.Parser.Names.{
  is_name_start, name_units, general_name, no_check, var_name, name, fname, number_loop, number_of,
  number, param_name, param_delimiter, io_number,
}
use mesabox.Sh.Parser.Progress.Base.{
  Within, Left-refl, check-Within, extend-Within, and_then-Within, or_else-Within, weaken-Within,
}
use mesabox.Sh.Parser.Progress.Space.{
  is_next-Within, delimiter-Within, ignore-Within, peek, peek-Within,
}

name_units-eq : (input : Bytes) → (name_units input).0 ++ (name_units input).1 ≡ input
unfolding name_units
name_units-eq [] = refl
name_units-eq (c ∷ input) = ground (arith, name_units-eq input)

module _ (check_fn : Bytes → Parsed (Unit {0})) (good : (i : Bytes) → Within 0 i (check_fn i)) where
  pub general_name-Within : (input : Bytes) → Within 1 input (general_name check_fn input)
  unfolding general_name
  general_name-Within [] = tt
  general_name-Within (c ∷ input) = name_step (is_name_start c)
    where
      rest : Bytes
      rest = (name_units input).1

      name_step :
          (b : Bool)
          → Within 1 (c ∷ input) (
              if b
              then Defs.and_then (check_fn rest) (λ u i. ok (c ∷ (name_units input).0) i)
              else err (no_name ∷ []))
      name_step false = tt
      name_step true =
          extend-Within 1 0 1 rest (c ∷ input)
            (Defs.and_then (check_fn rest) (λ u i. ok (c ∷ (name_units input).0) i)) (omega arith)
            (c ∷ (name_units input).0, ap (λ t. c ∷ t) (name_units-eq input), omega arith)
            (and_then-Within 0 0 0 rest (check_fn rest) (λ u i. ok (c ∷ (name_units input).0) i)
              (omega arith) (good rest) (λ u i h. Left-refl i))

  parsed-Within :
      (rest : Bytes) (o : Option ℕ)
      → Within 0 rest (elim o [ none ↦ err (no_number ∷ []) | some num ↦ ok num rest ])
  parsed-Within rest none = tt
  parsed-Within rest (some num) = Left-refl rest

  number_of-Within :
      (input : Bytes) (o : Option Bytes) → Within 0 input (number_of check_fn input o)
  number_of-Within input none = tt
  number_of-Within input (some buffer) =
      and_then-Within 0 0 0 input (check_fn input) _ (omega arith) (good input)
        (λ u rest h. parsed-Within rest (from_str buffer))

  pub number-Within : (input : Bytes) → Within 1 input (number check_fn input)
  unfolding number
  number-Within [] = tt
  number-Within (c ∷ input) =
      number_step (is_digit c) (number_loop (suc (length input)) (c ∷ []) input)
    where
      number_step :
          (b : Bool) (o : Option Bytes)
          → Within 1 (c ∷ input) (if b then number_of check_fn input o else err (no_number ∷ []))
      number_step false o = tt
      number_step true o =
          extend-Within 1 0 1 input (c ∷ input) (number_of check_fn input o) (omega arith)
            (c ∷ [], refl, omega arith) (number_of-Within input o)

  abbrev sign_of : Bytes → Param → Bytes → Parsed Param
  sign_of v param input = Defs.and_then (is_next v input) λ u rest. ok param rest

  sign_of-Within :
      (v : Bytes) (param : Param) (input : Bytes)
      → 0 < length v
      → Within 1 input (sign_of v param input)
  sign_of-Within v param input h =
      and_then-Within 1 0 1 input (is_next v input) (λ u rest. ok param rest) (omega arith)
        (is_next-Within v input h) (λ u rest le. Left-refl rest)

  -- `r`, or a sign and what may follow it.
  sign_else :
      (v : Bytes) (param : Param) (input : Bytes) (q : Parsed Param)
      → 0 < length v
      → Within 1 input q
      → Within 1 input (Defs.or_else (sign_of v param input) q)
  sign_else v param input q h w =
      or_else-Within 1 input (sign_of v param input) q (sign_of-Within v param input h) w

  pub param_name-Within : (input : Bytes) → Within 1 input (param_name check_fn input)
  unfolding param_name
  param_name-Within input =
      or_else-Within 1 input (Defs.and_then (general_name check_fn input) λ s rest. ok (var s) rest)
        _
        (and_then-Within 1 0 1 input (general_name check_fn input) (λ s rest. ok (var s) rest)
          (omega arith) (general_name-Within input) (λ s rest h. Left-refl rest))
        (sign_else (codes "*") star input _ (omega arith) (
          sign_else (codes "?") question input _ (omega arith) (
            sign_else (codes "@") at input _ (omega arith) (
              sign_else (codes "#") num_params input _ (omega arith) (
                sign_else (codes "$") shell_pid input _ (omega arith) (
                  sign_else (codes "!") background_pid input _ (omega arith) (
                    and_then-Within 1 0 1 input (number check_fn input)
                      (λ num rest. ok (positional num) rest) (omega arith) (number-Within input)
                      (λ num rest h. Left-refl rest))))))))

no_check-Within : (i : Bytes) → Within 0 i (no_check i)
no_check-Within i = Left-refl i

pub var_name-Within : (input : Bytes) → Within 1 input (var_name input)
unfolding var_name
var_name-Within input = general_name-Within no_check no_check-Within input

pub name-Within : (input : Bytes) → Within 1 input (name input)
unfolding name
name-Within input = general_name-Within delimiter delimiter-Within input

pub fname-Within : (input : Bytes) → Within 1 input (fname input)
unfolding fname
fname-Within input = name-Within input

-- In braces, and without them.
pub param_name-Within_braces : (input : Bytes) → Within 1 input (param_name no_check input)
param_name-Within_braces input = param_name-Within no_check no_check-Within input

pub param_name-Within_plain : (input : Bytes) → Within 1 input (param_name delimiter input)
param_name-Within_plain input = param_name-Within delimiter delimiter-Within input

pub param_delimiter-Within : (input : Bytes) → Within 0 input (param_delimiter input)
unfolding param_delimiter
param_delimiter-Within input =
    or_else-Within 0 input (delimiter input) (peek input (is_next (codes "}") input))
      (delimiter-Within input)
      (peek-Within input (is_next (codes "}") input) (
        weaken-Within 1 0 input (is_next (codes "}") input) (omega arith)
          (is_next-Within (codes "}") input (omega arith))))

pub io_number-Within : (input : Bytes) → Within 1 input (io_number input)
unfolding io_number
io_number-Within [] = tt
io_number-Within (c ∷ input) = io_step (is_digit c)
  where
    taken : Parsed ℕ
    taken = Defs.and_then (ignore input) λ u' rest'. ok (c - b'0') rest'

    after : Parsed ℕ
    after = Defs.and_then (delimiter input) λ u rest. taken

    io_step : (b : Bool) → Within 1 (c ∷ input) (if b then after else err (no_io_number ∷ []))
    io_step false = tt
    io_step true =
        extend-Within 1 0 1 input (c ∷ input) after (omega arith) (c ∷ [], refl, omega arith)
          (check-Within 0 0 input (delimiter input) taken (delimiter-Within input) (
            and_then-Within 0 0 0 input (ignore input) (λ u' rest'. ok (c - b'0') rest')
              (omega arith) (ignore-Within input) (λ u' rest' h'. Left-refl rest')))
