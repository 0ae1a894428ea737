-- ===== src/Sh/Parser/Defs.antt =====
-- libmesabox/src/posix/sh/parser.rs: results, and the parsers that the others are made of. The input
-- is the list of the bytes that are left; a parser that keeps `input` after a failure tries again on
-- the same list.
use mesabox.Common.{
  ℕ, zero, suc, Option, none, some, List, [], ◌∷◌, ◌++◌, length, ◌==◌, if◌then◌else◌,
}
use mesabox.Common.Bytes.{Bytes}

pub data ParserErrorKind : Type 0 where
  in_if in_case in_for in_while in_until in_brace_group in_sub_shell : ParserErrorKind
  in_function_def in_simple_command in_param_expand in_command_subst : ParserErrorKind
  in_double_quote in_single_quote in_word : ParserErrorKind
  no_name no_io_number no_number no_and_or_sep unexpected take_until : ParserErrorKind
  heredoc_marker compound_command_keyword incomplete : ParserErrorKind
  one_of : List Bytes → ParserErrorKind
  cmd_name_keyword token keyword item : Bytes → ParserErrorKind

abbrev pub Errors : Type 0
Errors = List ParserErrorKind

-- `ParseResult`: a value with the rest of the input, or the errors. `panic` is an `unwrap()` of
-- nothing or an `unimplemented!()`, and `endless` a loop that does not end. `no_fuel` says that the
-- rounds or the depth allowed here were not enough.
pub data Parsed {ℓ} (A : Type ℓ) : Type ℓ where
  ok : A → Bytes → Parsed A
  err : Errors → Parsed A
  panic : Parsed A
  endless : Parsed A
  no_fuel : Parsed A

-- `and_then` and `?`
abbrev pub and_then {ℓ κ} : {A : Type ℓ} {B : Type κ} → Parsed A → (A → Bytes → Parsed B) → Parsed B
and_then (ok a input) f = f a input
and_then (err e) f = err e
and_then panic f = panic
and_then endless f = endless
and_then no_fuel f = no_fuel

-- `or_else`, which here never looks at the errors
abbrev pub or_else {ℓ} : {A : Type ℓ} → Parsed A → Parsed A → Parsed A
or_else (ok a input) q = ok a input
or_else (err e) q = q
or_else panic q = panic
or_else endless q = endless
or_else no_fuel q = no_fuel

abbrev pub map_err {ℓ} : {A : Type ℓ} → (Errors → Errors) → Parsed A → Parsed A
map_err f (ok a input) = ok a input
map_err f (err e) = err (f e)
map_err f panic = panic
map_err f endless = endless
map_err f no_fuel = no_fuel

-- `e.errors.push(kind)`
abbrev pub with_kind {ℓ} : {A : Type ℓ} → ParserErrorKind → Parsed A → Parsed A
with_kind kind = map_err (λ e. e ++ kind ∷ [])

-- `e.errors.clear()` and then `push`
abbrev pub only_kind {ℓ} : {A : Type ℓ} → ParserErrorKind → Parsed A → Parsed A
only_kind kind = map_err (λ e. kind ∷ [])

-- The loop of `is_next` over the bytes of the value: the input behind them.
unfoldable pub strip : Bytes → Bytes → Option Bytes
strip [] input = some input
strip (v ∷ value) [] = none
strip (v ∷ value) (ch ∷ input) = if ch == v then strip value input else none

unfoldable pub is_next : Bytes → Bytes → Parsed (Unit {0})
unfolding strip
is_next value input = elim (strip value input) [
  | none ↦ err (item value ∷ [])
  | some rest ↦ ok tt rest
]

-- The loop of `is_one_of`, from the index `idx`.
unfoldable pub first_of : List Bytes → ℕ → Bytes → Option (ℕ × Bytes)
unfolding strip
first_of [] idx input = none
first_of (value ∷ values) idx input = elim (strip value input) [
  | some rest ↦ some (idx, rest)
  | none ↦ first_of values (suc idx) input
]

unfoldable pub is_one_of : List Bytes → Bytes → Parsed ℕ
unfolding first_of
is_one_of values input = elim (first_of values 0 input) [
  | none ↦ err (one_of values ∷ [])
  | some (idx, rest) ↦ ok idx rest
]

unfoldable pub is_heredoc_marker : Bytes → Bytes → Parsed (Unit {0})
unfolding strip
is_heredoc_marker value input = elim (strip value input) [
  | none ↦ err (heredoc_marker ∷ [])
  | some rest ↦ ok tt rest
]

-- The loop of `skip_values_many`. A value has a byte at least, so as many rounds as there are bytes
-- are enough.
unfoldable pub skip_loop : ℕ → List Bytes → Bytes → Bytes
unfolding first_of
skip_loop zero values input = input
skip_loop (suc fuel) values input = elim (first_of values 0 input) [
  | none ↦ input
  | some (idx, rest) ↦ skip_loop fuel values rest
]

unfoldable pub skip_values_many : List Bytes → Bytes → Bytes
unfolding skip_loop
skip_values_many values input = skip_loop (length input) values input

-- The parsers that take another one take it as a function of the input.
module _ {R : Type 0} (func : Bytes → Parsed R) where
  unfoldable pub is_not : Bytes → Parsed (Unit {0})
  is_not input = elim (func input) [
    | ok a rest ↦ err (unexpected ∷ [])
    | err e ↦ ok tt input
    | panic ↦ panic
    | endless ↦ endless
    | no_fuel ↦ no_fuel
  ]

  -- The loop of `take_while_matches1`. At the end of the input nothing is taken, so it goes on for
  -- ever if `func` still succeeds there.
  unfoldable pub take_loop : Bytes → Bytes → Parsed Bytes
  take_loop buffer [] = elim (func []) [
    | ok a rest ↦ endless
    | err e ↦ ok buffer []
    | panic ↦ panic
    | endless ↦ endless
    | no_fuel ↦ no_fuel
  ]
  take_loop buffer (unit ∷ input) =
      let later = take_loop (buffer ++ unit ∷ []) input in
      elim (func (unit ∷ input)) [
        | ok a rest ↦ later
        | err e ↦ ok buffer (unit ∷ input)
        | panic ↦ panic
        | endless ↦ endless
        | no_fuel ↦ no_fuel
      ]

  -- `unwrap()` on the first byte panics if there is none.
  unfoldable pub take_first : Bytes → Parsed Bytes
  unfolding take_loop
  take_first [] = panic
  take_first (unit ∷ input) = take_loop (unit ∷ []) input

  unfoldable pub take_while_matches1 : Bytes → Parsed Bytes
  unfolding take_first
  take_while_matches1 input = and_then (func input) λ a rest. take_first input

  unfoldable pub skip_until_matches : Bytes → Bytes
  skip_until_matches [] = []
  skip_until_matches (unit ∷ input) = elim (func (unit ∷ input)) [
    | ok a rest ↦ unit ∷ input
    | _ ↦ skip_until_matches input
  ]

  -- The loop of `take_until_consuming_matches0`, with the bytes that it has taken.
  unfoldable pub take_until_loop : Bytes → Bytes → Parsed Bytes
  take_until_loop buffer [] = elim (func []) [
    | ok a rest ↦ ok buffer rest
    | err e ↦ ok buffer []
    | panic ↦ panic
    | endless ↦ endless
    | no_fuel ↦ no_fuel
  ]
  take_until_loop buffer (unit ∷ input) =
      let later = take_until_loop (buffer ++ unit ∷ []) input in
      elim (func (unit ∷ input)) [
        | ok a rest ↦ ok buffer rest
        | err e ↦ later
        | panic ↦ panic
        | endless ↦ endless
        | no_fuel ↦ no_fuel
      ]

unfoldable pub take_until_consuming_value0 : Bytes → Bytes → Parsed Bytes
unfolding is_next take_until_loop
take_until_consuming_value0 value = take_until_loop (is_next value) []
