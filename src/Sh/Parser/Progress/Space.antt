-- ===== src/Sh/Parser/Progress/Space.antt =====
-- The parsers of libmesabox/src/posix/sh/parser.rs that look only at the input.
use mesabox.Common.{
  ℕ, zero, suc, ◌<◌, Option, none, some, List, [], ◌∷◌, ◌++◌, length, All, ◌≡◌, refl, ap, inl, inr,
  Option-cases, arith,
}
use mesabox.Common.Bytes.{Bytes, codes}
use mesabox.Sh.Parser.Defs
use mesabox.Sh.Parser.Defs.{
  unexpected, token, keyword, Parsed, ok, err, panic, endless, no_fuel, strip, is_next, is_one_of,
  first_of, is_heredoc_marker, skip_loop, skip_values_many, is_not, take_loop, take_first,
  take_while_matches1, skip_until_matches, take_until_loop, take_until_consuming_value0,
}
use mesabox.Sh.Parser.Space.{
  newline, blanks, operators, skip_space0, skip_space1, line_continuation, comment, op,
  delimiter_loop, delimiter_no_op, delimiter, ignore_loop, ignore, is_token, is_keyword,
}
use mesabox.Sh.Parser.Progress.Base.{
  Left, Within, Left-refl, Left-trans, Left-length, extend-Within, and_then-Within, or_else-Within,
  map_err-Within, weaken-Within,
}

strip-eq : (v input rest : Bytes) → strip v input ≡ some rest → v ++ rest ≡ input
unfolding strip
strip-eq [] input rest h = ground arith
strip-eq (v ∷ value) [] rest h = cc
strip-eq (v ∷ value) (ch ∷ input) rest h = ground (arith, strip-eq value input rest)

abbrev IsProper : Bytes → Type 0
IsProper v = 0 < length v

module _ (v input : Bytes) (h : IsProper v) where
  pub is_next-Within : Within 1 input (is_next v input)
  unfolding is_next
  is_next-Within = elim (Option-cases (strip v input)) [
    | inl e ↦ rw (e, Within) tt
    | inr (rest, e) ↦ rw (e, Within) (v, strip-eq v input rest e, omega arith)
  ]

  pub is_heredoc_marker-Within : Within 1 input (is_heredoc_marker v input)
  unfolding is_heredoc_marker
  is_heredoc_marker-Within = elim (Option-cases (strip v input)) [
    | inl e ↦ rw (e, Within) tt
    | inr (rest, e) ↦ rw (e, Within) (v, strip-eq v input rest e, omega arith)
  ]

-- An empty marker takes nothing.
pub is_heredoc_marker-Within_any : (v input : Bytes) → Within 0 input (is_heredoc_marker v input)
unfolding is_heredoc_marker
is_heredoc_marker-Within_any v input = elim (Option-cases (strip v input)) [
  | inl e ↦ rw (e, Within) tt
  | inr (rest, e) ↦ rw (e, Within) (v, strip-eq v input rest e, omega arith)
]

first_of-Left :
    (values : List Bytes) (idx : ℕ) (input : Bytes) (r : ℕ × Bytes)
    → All IsProper values
    → first_of values idx input ≡ some r
    → Left 1 r.1 input
unfolding first_of
first_of-Left [] idx input r h e = cc
first_of-Left (v ∷ values) idx input r h e = elim (Option-cases (strip v input)) [
  | inl f ↦ first_of-Left values (suc idx) input r h.1 (rw (f, first_of) at e)
  | inr (rest, f) ↦
      let g : some (idx, rest) ≡ some r = rw (f, first_of) at e in
      let same : r.1 ≡ rest = cc in rw same (v, strip-eq v input rest f, omega arith)
]

pub is_one_of-Within :
    (values : List Bytes) (input : Bytes)
    → All IsProper values
    → Within 1 input (is_one_of values input)
unfolding is_one_of
is_one_of-Within values input h = elim (Option-cases (first_of values 0 input)) [
  | inl e ↦ rw (e, Within) tt
  | inr ((idx, rest), e) ↦ rw (e, Within) (first_of-Left values 0 input (idx, rest) h e)
]

skip_loop-Left :
    (fuel : ℕ) (values : List Bytes) (input : Bytes)
    → All IsProper values
    → Left 0 (skip_loop fuel values input) input
unfolding skip_loop
skip_loop-Left zero values input h = Left-refl input
skip_loop-Left (suc fuel) values input h =
    skip_step (first_of values 0 input) refl (λ rest. skip_loop-Left fuel values rest h)
  where
    skip_step :
        (o : Option (ℕ × Bytes))
        → first_of values 0 input ≡ o
        → ((rest : Bytes) → Left 0 (skip_loop fuel values rest) rest)
        → Left 0 (elim o [ none ↦ input | some (idx, rest) ↦ skip_loop fuel values rest ]) input
    skip_step none e later = Left-refl input
    skip_step (some (idx, rest)) e later =
        Left-trans 1 0 0 (skip_loop fuel values rest) rest input (omega arith)
          (first_of-Left values 0 input (idx, rest) h e) (later rest)

blanks-IsProper : All IsProper blanks
blanks-IsProper = omega arith

operators-IsProper : All IsProper operators
operators-IsProper = omega arith

pub skip_space0-Left : (input : Bytes) → Left 0 (skip_space0 input) input
unfolding skip_space0 skip_values_many
skip_space0-Left input = skip_loop-Left (length input) blanks input blanks-IsProper

pub newline-Within : (input : Bytes) → Within 1 input (newline input)
unfolding newline
newline-Within input = is_next-Within (codes "\n") input (omega arith)

skip_space1-Within : (input : Bytes) → Within 1 input (skip_space1 input)
unfolding skip_space1 skip_values_many
skip_space1-Within input =
    and_then-Within 1 0 1 input (is_one_of blanks input)
      (λ idx rest. ok tt (skip_values_many blanks rest)) (omega arith)
      (is_one_of-Within blanks input blanks-IsProper)
      (λ idx rest h. skip_loop-Left (length rest) blanks rest blanks-IsProper)

pub line_continuation-Within : (input : Bytes) → Within 1 input (line_continuation input)
unfolding line_continuation
line_continuation-Within input =
    and_then-Within 1 1 1 input (is_next (codes "\\") input) (λ u rest. newline rest) (omega arith)
      (is_next-Within (codes "\\") input (omega arith)) (λ u rest h. newline-Within rest)

skip_until_matches-Left :
    (func : Bytes → Parsed (Unit {0})) (input : Bytes)
    → Left 0 (skip_until_matches func input) input
unfolding skip_until_matches
skip_until_matches-Left func [] = Left-refl []
skip_until_matches-Left func (c ∷ input) =
    let (s, e, le) = skip_until_matches-Left func input in
    skip_step (func (c ∷ input)) (c ∷ s, ap (λ t. c ∷ t) e, omega arith)
  where
    skip_step :
        (r : Parsed (Unit {0}))
        → Left 0 (skip_until_matches func input) (c ∷ input)
        → Left 0 (elim r [ ok a rest ↦ c ∷ input | _ ↦ skip_until_matches func input ]) (c ∷ input)
    skip_step (ok a rest) h = Left-refl (c ∷ input)
    skip_step (err e) h = h
    skip_step panic h = h
    skip_step endless h = h
    skip_step no_fuel h = h

comment-Within : (input : Bytes) → Within 1 input (comment input)
unfolding comment
comment-Within input =
    and_then-Within 1 0 1 input (is_next (codes "#") input)
      (λ u rest. ok tt (skip_until_matches newline rest)) (omega arith)
      (is_next-Within (codes "#") input (omega arith))
      (λ u rest h. skip_until_matches-Left newline rest)

-- What looks at the input and takes nothing.
abbrev pub peek : {A : Type 0} → Bytes → Parsed A → Parsed (Unit {0})
peek input r = Defs.and_then r λ a rest. ok tt input

pub peek-Within :
    {A : Type 0} (input : Bytes) (r : Parsed A) → Within 0 input r → Within 0 input (peek input r)
peek-Within input (ok a rest) w = Left-refl input
peek-Within input (err e) w = tt
peek-Within input panic w = tt
peek-Within input endless w = tt
peek-Within input no_fuel w = w

pub op-Within : (input : Bytes) → Within 0 input (op input)
unfolding op
op-Within input =
    or_else-Within 0 input (peek input (is_one_of operators input)) (peek input (newline input))
      (peek-Within input (is_one_of operators input) (
        weaken-Within 1 0 input (is_one_of operators input) (omega arith)
          (is_one_of-Within operators input operators-IsProper)))
      (peek-Within input (newline input)
        (weaken-Within 1 0 input (newline input) (omega arith) (newline-Within input)))

abbrev gap : Bytes → Parsed (Unit {0})
gap start =
    Defs.or_else (skip_space1 start) (Defs.or_else (line_continuation start) (comment start))

gap-Within : (input : Bytes) → Within 1 input (gap input)
gap-Within input =
    or_else-Within 1 input (skip_space1 input)
      (Defs.or_else (line_continuation input) (comment input)) (skip_space1-Within input)
      (or_else-Within 1 input (line_continuation input) (comment input)
        (line_continuation-Within input) (comment-Within input))

delimiter_loop-Within :
    (fuel : ℕ) (input : Bytes) → length input < fuel → Within 0 input (delimiter_loop fuel input)
unfolding delimiter_loop
delimiter_loop-Within zero [] h = Left-refl []
delimiter_loop-Within (suc fuel) [] h = Left-refl []
delimiter_loop-Within zero (c ∷ input) h = absurd (omega arith)
delimiter_loop-Within (suc fuel) (c ∷ input) h =
    and_then-Within 1 0 0 (c ∷ input) (gap (c ∷ input))
      (λ u rest. Defs.or_else (delimiter_loop fuel rest) (ok tt rest)) (omega arith)
      (gap-Within (c ∷ input))
      (λ u rest le.
        or_else-Within 0 rest (delimiter_loop fuel rest) (ok tt rest)
          (delimiter_loop-Within fuel rest (omega arith)) (Left-refl rest))

pub delimiter-Within : (input : Bytes) → Within 0 input (delimiter input)
unfolding delimiter delimiter_no_op
delimiter-Within input =
    or_else-Within 0 input (delimiter_no_op input) (op input)
      (delimiter_loop-Within (suc (length input)) input (omega arith)) (op-Within input)

abbrev after_blanks : (Bytes → Parsed (Unit {0})) → Bytes → Parsed (Unit {0})
after_blanks more start =
    Defs.or_else (Defs.and_then (line_continuation start) λ u rest. more rest)
      (Defs.or_else (comment start) (ok tt start))

ignore_loop-Within :
    (fuel : ℕ) (input : Bytes) → length input < fuel → Within 0 input (ignore_loop fuel input)
unfolding ignore_loop
ignore_loop-Within zero input h = absurd (omega arith)
ignore_loop-Within (suc fuel) input h =
    let start = skip_space0 input in
    let left = skip_space0-Left input in
    let shorter = Left-length 0 start input left in
    extend-Within 0 0 0 start input (after_blanks (ignore_loop fuel) start) (omega arith) left (
      or_else-Within 0 start
        (Defs.and_then (line_continuation start) λ u rest. ignore_loop fuel rest)
        (Defs.or_else (comment start) (ok tt start))
        (and_then-Within 1 0 0 start (line_continuation start) (λ u rest. ignore_loop fuel rest)
          (omega arith) (line_continuation-Within start)
          (λ u rest le. ignore_loop-Within fuel rest (omega arith)))
        (or_else-Within 0 start (comment start) (ok tt start)
          (weaken-Within 1 0 start (comment start) (omega arith) (comment-Within start))
          (Left-refl start)))

pub ignore-Within : (input : Bytes) → Within 0 input (ignore input)
unfolding ignore
ignore-Within input = ignore_loop-Within (suc (length input)) input (omega arith)

module _ (v input : Bytes) (h : IsProper v) where
  pub is_token-Within : Within 1 input (is_token v input)
  unfolding is_token
  is_token-Within =
      map_err-Within 1 input (λ e. token v ∷ [])
        (Defs.and_then (is_next v input) λ u rest. ignore rest)
        (and_then-Within 1 0 1 input (is_next v input) (λ u rest. ignore rest) (omega arith)
          (is_next-Within v input h) (λ u rest le. ignore-Within rest))

  pub is_keyword-Within : Within 1 input (is_keyword v input)
  unfolding is_keyword
  is_keyword-Within =
      map_err-Within 1 input (λ e. keyword v ∷ [])
        (Defs.and_then (is_next v input) λ u rest. delimiter rest)
        (and_then-Within 1 0 1 input (is_next v input) (λ u rest. delimiter rest) (omega arith)
          (is_next-Within v input h) (λ u rest le. delimiter-Within rest))
