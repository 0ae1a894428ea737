-- ===== src/Sh/Parser/Hangs.antt =====
-- Loops of libmesabox/src/posix/sh/parser.rs that do not end: numbers of two digits behind a `$`.
use mesabox.Common.{
  ℕ, zero, suc, ◌-◌, Bool, true, false, Bool-cases, inl, inr, ◌≡◌, refl, ap, ◌∙◌, none, some, [],
  ◌∷◌, ◌++◌, length, ◌==◌, if◌then◌else◌, arith,
}
use mesabox.Common.Bytes.{Bytes, codes}
use mesabox.Common.Number.{is_digit, from_str}
use mesabox.Sh.Ast.Words.{Word, Param, positional, ParamExpr, param_expr, value}
use mesabox.Sh.Parser.Defs
use mesabox.Sh.Parser.Defs.{Parsed, ok, err, panic, endless, no_fuel, item, is_next, take_loop}
use mesabox.Sh.Parser.Space.{delimiter, is_token}
use mesabox.Sh.Parser.Names.{number, number_loop, number_of, param_name}
use mesabox.Sh.Parser.Params.{plain, braced, dollar}
use mesabox.Sh.Parser.Steps.{is_next-ne}
use mesabox.Sh.Parser.State
use mesabox.Sh.Parser.State.{Parser, Step}

from_str-digit : (d : ℕ) → is_digit d ≡ true → from_str (d ∷ []) ≡ some (d - b'0')
unfolding from_str
from_str-digit d h = ground arith

-- Whether a digit follows.
abbrev pub next_is_digit : Bytes → Bool
next_is_digit [] = false
next_is_digit (unit ∷ input) = is_digit unit

-- No fuel is enough if a digit follows, since the loop never takes it; if none does, the first round is
-- the last.
number_loop_lem :
    (fuel : ℕ) (buffer input : Bytes)
    → number_loop (suc fuel) buffer input ≡ (if next_is_digit input then none else some buffer)
unfolding number_loop
number_loop_lem fuel buffer [] = refl
number_loop_lem zero buffer (unit ∷ input) = refl
number_loop_lem (suc fuel) buffer (unit ∷ input) =
    let later = number_loop_lem fuel (buffer ++ unit ∷ []) (unit ∷ input) in
    elim (Bool-cases (is_digit unit)) [ inl e ↦ rw (later, e) refl | inr e ↦ rw e refl ]

number_of-if :
    (check_fn : Bytes → Parsed (Unit {0})) (rest : Bytes) (b : Bool) (buffer : Bytes)
    → number_of check_fn rest (if b then none else some buffer)
      ≡ (if b then endless else number_of check_fn rest (some buffer))
number_of-if check_fn rest true buffer = refl
number_of-if check_fn rest false buffer = refl

number-digit :
    (check_fn : Bytes → Parsed (Unit {0})) (d : ℕ) (rest : Bytes)
    → is_digit d ≡ true
    → number check_fn (d ∷ rest) ≡ (
        if next_is_digit rest
        then endless
        else Defs.and_then (check_fn rest) λ u after. ok (d - b'0') after)
unfolding number
number-digit check_fn d rest h =
    rw (h, number_loop_lem (length rest) (d ∷ []) rest)
      (number_of-if check_fn rest (next_is_digit rest) (d ∷ []) ∙ rw (from_str-digit d h) refl)

param_name-digit :
    (check_fn : Bytes → Parsed (Unit {0})) (d : ℕ) (rest : Bytes)
    → is_digit d ≡ true
    → param_name check_fn (d ∷ rest)
      ≡ Defs.and_then (number check_fn (d ∷ rest)) (λ num after. ok (positional num) after)
unfolding param_name
param_name-digit check_fn d rest h = ground arith

abbrev as_value : {K : Type 0} → Parsed Param → Parsed (ParamExpr K)
as_value r = Defs.and_then r λ param rest. ok (param_expr param value) rest

plain_lem :
    {K : Type 0} (input : Bytes) → plain {K = K} input ≡ as_value (param_name delimiter input)
unfolding plain
plain_lem input = refl

-- What `$` and one digit give.
abbrev digit_value : {K : Type 0} → ℕ → Bytes → Parsed (ParamExpr K)
digit_value d rest =
    Defs.and_then (delimiter rest) λ u after. ok (param_expr (positional (d - b'0')) value) after

number_step :
    {K : Type 0} (d : ℕ) (rest : Bytes) (b : Bool) (r : Parsed (Unit {0}))
    → as_value {K = K} (
        Defs.and_then
          (if b then endless else Defs.and_then r λ u after. ok (d - b'0') after)
          (λ num after. ok (positional num) after))
      ≡ (if b
          then endless
          else Defs.and_then r λ u after. ok (param_expr (positional (d - b'0')) value) after)
number_step d rest true r = refl
number_step d rest false (ok u after) = refl
number_step d rest false (err e) = refl
number_step d rest false panic = refl
number_step d rest false endless = refl
number_step d rest false no_fuel = refl

plain-digit :
    {K : Type 0} (d : ℕ) (rest : Bytes)
    → is_digit d ≡ true
    → plain {K = K} (d ∷ rest) ≡ (if next_is_digit rest then endless else digit_value d rest)
plain-digit {K} d rest h =
    plain_lem (d ∷ rest)
    ∙ ap (λ r. as_value {K = K} r) (param_name-digit delimiter d rest h)
    ∙ ap (λ r. as_value {K = K} (Defs.and_then r (λ num after. ok (positional num) after)))
        (number-digit delimiter d rest h)
    ∙ number_step {K = K} d rest (next_is_digit rest) (delimiter rest)

digit_ne_brace : (d : ℕ) → is_digit d ≡ true → (d == b'{') ≡ false
digit_ne_brace d h = ground arith

module _ {K : Type 0} (param_word : Step (Word K)) (p : Parser) where
  dollar-plain :
      (c : ℕ) (rest : Bytes)
      → (c == b'{') ≡ false
      → dollar param_word p (b'$' ∷ c ∷ rest) ≡ (p, plain (c ∷ rest))
  unfolding dollar
  dollar-plain c rest h =
      ap
        (λ r.
          State.attempt (p, r)
            (λ u p2 i2. State.and_then (braced param_word p2 i2) λ expr p3 i3.
              State.and_then (p3, is_token (codes "}") i3) λ u p4 i4. (p4, ok expr i4))
            (λ p2. (p2, plain (c ∷ rest))))
        (is_next-ne b'{' [] c rest h)

  -- The loop over the digits of a number behind a `$` looks at the second unit for ever if that is a
  -- digit: whatever the fuel, it runs out; if it is none, one round is enough. So two digits are never
  -- read, and one digit is the parameter if a delimiter follows.
  pub dollar-digits :
      (fuel d : ℕ) (rest : Bytes)
      → is_digit d ≡ true
      → (number_loop (suc fuel) (d ∷ []) rest
          ≡ (if next_is_digit rest then none else some (d ∷ [])))
        × (dollar param_word p (b'$' ∷ d ∷ rest)
            ≡ (if next_is_digit rest then (p, endless) else (p, digit_value d rest)))
  dollar-digits fuel d rest h = (number_loop_lem fuel (d ∷ []) rest, read)
    where
      pair_if :
          (b : Bool) (x y : Parsed (ParamExpr K))
          → ◌≡◌ {A = Parser × Parsed (ParamExpr K)}
              (p, if b then x else y)
              (if b then (p, x) else (p, y))
      pair_if true x y = refl
      pair_if false x y = refl

      read :
          dollar param_word p (b'$' ∷ d ∷ rest)
          ≡ (if next_is_digit rest then (p, endless) else (p, digit_value d rest))
      read =
          dollar-plain d rest (digit_ne_brace d h)
          ∙ ap (λ r. (p, r)) (plain-digit {K = K} d rest h)
          ∙ pair_if (next_is_digit rest) endless (digit_value d rest)
