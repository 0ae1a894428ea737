-- ===== src/Sh/Parser/Progress/Words.antt =====
-- Words of libmesabox/src/posix/sh/parser.rs. The words in braces and the commands of substitutions
-- are shorter than the word that they stand in.
use mesabox.Common.{ℕ, zero, suc, ◌+◌, ◌≤◌, ◌<◌, Option, none, some, List, [], ◌∷◌, ◌++◌, arith}
use mesabox.Common.{length}
use mesabox.Common.Bytes.{Bytes}
use mesabox.Sh.Ast.Words.{Word, complex, to_words}
use mesabox.Sh.Parser.Defs.{endless, no_fuel, Parsed, ok, err, panic, in_word}
use mesabox.Sh.Parser.Space.{delimiter, ignore}
use mesabox.Sh.Parser.Names.{param_delimiter}
use mesabox.Sh.Parser.State
use mesabox.Sh.Parser.State.{Parser, Step}
use mesabox.Sh.Parser.Words.{
  combine_simple_words, word_part, next_word_part, complex_loop, word_inner, general_word, word,
}
use mesabox.Sh.Parser.Progress.Base.{
  Left, Keeps, Left-refl, Left-trans, Left-length, Extends-trans, extend-Within, and_then-Within,
  and_then-Keeps, attempt-Keeps, with_kind-Keeps, lift-Keeps, ok-Keeps,
}
use mesabox.Sh.Parser.Progress.Space.{ignore-Within, delimiter-Within}
use mesabox.Sh.Parser.Progress.Names.{param_delimiter-Within}
use mesabox.Sh.Parser.Progress.Parts.{IsDelim, word_part-Keeps}

-- If `next_word_part` returns a part, it has taken a byte at least.
module _ {K : Type 0} where
  abbrev SomeTakes : Bytes → Parsed (Word K × Option (Word K)) → Type 0
  SomeTakes input (ok (prev, some w) rest) = Left 1 rest input
  SomeTakes input (ok (prev, none) rest) = Unit {0}
  SomeTakes input _ = Unit {0}

  extend-SomeTakes :
      (k : ℕ) (i input : Bytes) (r : Parsed (Word K × Option (Word K)))
      → Left k i input
      → SomeTakes i r
      → SomeTakes input r
  extend-SomeTakes k i input (ok (prev, some w) rest) l t =
      Left-trans k 1 1 rest i input (omega arith) l t
  extend-SomeTakes k i input (ok (prev, none) rest) l t = tt
  extend-SomeTakes k i input (err e) l t = tt
  extend-SomeTakes k i input panic l t = tt
  extend-SomeTakes k i input endless l t = tt
  extend-SomeTakes k i input no_fuel l t = tt

module _ {K : Type 0} (compound_list : Step K) (bound : ℕ)
    (lists : (p : Parser) (i : Bytes) → length i < bound → Keeps 0 p i (compound_list p i)) where
  module _ (param_word : Step (Word K))
      (shorter : (p : Parser) (i : Bytes) → length i < bound → Keeps 1 p i (param_word p i)) where
    module _ (delim : Bytes → Parsed (Unit {0})) (d : IsDelim delim) where
      part-Keeps :
          (p : Parser) (input : Bytes)
          → length input ≤ bound
          → Keeps 1 p input (word_part compound_list param_word delim p input)
      part-Keeps p input h =
          word_part-Keeps compound_list bound lists param_word shorter delim d p input h

      next_word_part-Keeps :
          (fuel : ℕ) (prev : Word K) (p : Parser) (input : Bytes)
          → length input < fuel
          → length input ≤ bound
          → Keeps 0 p input (next_word_part compound_list param_word delim fuel prev p input)
      unfolding next_word_part
      next_word_part-Keeps zero prev p input h b = absurd (omega arith)
      next_word_part-Keeps (suc fuel) prev p input h b =
          attempt-Keeps 1 0 0 p input _ _ _ (omega arith) (part-Keeps p input b)
            (λ part p1 i1 le.
              part_step p1 i1 (combine_simple_words part prev).0 (combine_simple_words part prev).1
                (next_word_part-Keeps fuel (combine_simple_words part prev).0 p1 i1 (omega arith)
                  (omega arith)))
            (λ p1. ok-Keeps {A = Word K × Option (Word K)} p1 input (prev, none))
        where
          part_step :
              (p1 : Parser) (i1 : Bytes) (prev' : Word K) (second : Option (Word K))
              → Keeps 0 p1 i1 (next_word_part compound_list param_word delim fuel prev' p1 i1)
              → Keeps {A = Word K × Option (Word K)} 0 p1 i1 (elim second [
                | none ↦ next_word_part compound_list param_word delim fuel prev' p1 i1
                | some w ↦ (p1, ok (prev', some w) i1)
              ])
          part_step p1 i1 prev' none later = later
          part_step p1 i1 prev' (some w) later =
              ok-Keeps {A = Word K × Option (Word K)} p1 i1 (prev', some w)

      next_word_part-SomeTakes :
          (fuel : ℕ) (prev : Word K) (p : Parser) (input : Bytes)
          → length input ≤ bound
          → SomeTakes input (next_word_part compound_list param_word delim fuel prev p input).1
      unfolding next_word_part
      next_word_part-SomeTakes zero prev p input b = tt
      next_word_part-SomeTakes (suc fuel) prev p input b =
          take_step (word_part compound_list param_word delim p input) (part-Keeps p input b)
            (λ prev' p1 i1 le. next_word_part-SomeTakes fuel prev' p1 i1 (omega arith))
        where
          next : Word K → Parser → Bytes → Parser × Parsed (Word K × Option (Word K))
          next prev' p1 i1 = next_word_part compound_list param_word delim fuel prev' p1 i1

          second_step :
              (p1 : Parser) (i1 : Bytes) (prev' : Word K) (second : Option (Word K))
              → Left 1 i1 input
              → SomeTakes i1 (next prev' p1 i1).1
              → SomeTakes input
                  (elim second as (λ o. Parser × Parsed (Word K × Option (Word K))) [
                    | none ↦ next prev' p1 i1
                    | some w ↦ (p1, ok (prev', some w) i1)
                  ]).1
          second_step p1 i1 prev' none l t = extend-SomeTakes 1 i1 input (next prev' p1 i1).1 l t
          second_step p1 i1 prev' (some w) l t = l

          take_step :
              (r : Parser × Parsed (Word K))
              → Keeps 1 p input r
              → ((prev' : Word K) (p1 : Parser) (i1 : Bytes)
                  → length i1 + 1 ≤ length input
                  → SomeTakes i1 (next prev' p1 i1).1)
              → SomeTakes input
                  (State.attempt r
                    (λ part p1 i1.
                      elim (combine_simple_words part prev).1
                        as (λ o. Parser × Parsed (Word K × Option (Word K))) [
                          | none ↦ next (combine_simple_words part prev).0 p1 i1
                          | some w ↦ (p1, ok ((combine_simple_words part prev).0, some w) i1)
                        ])
                    (λ p1. (p1, ok (prev, none) input))).1
          take_step (p1, ok part i1) (e, w) later =
              second_step p1 i1 (combine_simple_words part prev).0
                (combine_simple_words part prev).1 w
                (later (combine_simple_words part prev).0 p1 i1 (Left-length 1 i1 input w))
          take_step (p1, err e') h later = tt
          take_step (p1, panic) h later = tt
          take_step (p1, endless) h later = tt
          take_step (p1, no_fuel) h later = tt

      complex_loop-Keeps :
          (fuel : ℕ) (parts : List (Word K)) (last : Word K) (p : Parser) (input : Bytes)
          → length input < fuel
          → length input ≤ bound
          → Keeps 0 p input (complex_loop compound_list param_word delim fuel parts last p input)
      unfolding complex_loop
      complex_loop-Keeps zero parts last p input h b = absurd (omega arith)
      complex_loop-Keeps (suc fuel) parts last p input h b =
          complex_step
            (next_word_part compound_list param_word delim (suc (length input)) last p input)
            (next_word_part-Keeps (suc (length input)) last p input (omega arith) b)
            (next_word_part-SomeTakes (suc (length input)) last p input b)
            (λ parts' w p1 i1 le.
              complex_loop-Keeps fuel parts' w p1 i1 (omega arith) (omega arith))
        where
          loop : List (Word K) → Word K → Step (Word K)
          loop parts' w p1 i1 = complex_loop compound_list param_word delim fuel parts' w p1 i1

          complex_step :
              (r : Parser × Parsed (Word K × Option (Word K)))
              → Keeps 0 p input r
              → SomeTakes input r.1
              → ((parts' : List (Word K)) (w : Word K) (p1 : Parser) (i1 : Bytes)
                  → length i1 + 1 ≤ length input
                  → Keeps 0 p1 i1 (loop parts' w p1 i1))
              → Keeps {A = Word K} 0 p input (
                  State.and_then r λ (last', part) p1 i1. elim part [
                    | some w ↦ loop (parts ++ last' ∷ []) w p1 i1
                    | none ↦ (p1, ok (complex (to_words (parts ++ last' ∷ []))) input)
                  ])
          complex_step (p1, ok (last', some w) i1) (e, l) t later =
              let after = later (parts ++ last' ∷ []) w p1 i1 (Left-length 1 i1 input t) in
              (
                Extends-trans p p1 (loop (parts ++ last' ∷ []) w p1 i1).0 e after.0,
                extend-Within 1 0 0 i1 input (loop (parts ++ last' ∷ []) w p1 i1).1 (omega arith) t
                    after.1,
              )
          complex_step (p1, ok (last', none) i1) (e, l) t later = (e, Left-refl input)
          complex_step (p1, err e') (e, l) t later = (e, tt)
          complex_step (p1, panic) (e, l) t later = (e, tt)
          complex_step (p1, endless) (e, l) t later = (e, tt)
          complex_step (p1, no_fuel) (e, l) t later = (e, l)

      word_inner-Keeps :
          (p : Parser) (input : Bytes)
          → length input ≤ bound
          → Keeps 1 p input (word_inner compound_list param_word delim p input)
      unfolding word_inner
      word_inner-Keeps p input b =
          and_then-Keeps 1 0 1 p input _ _ (omega arith) (part-Keeps p input b) (λ first p1 i1 le1.
            and_then-Keeps 0 0 0 p1 i1 _ _ (omega arith)
              (next_word_part-Keeps (suc (length i1)) first p1 i1 (omega arith) (omega arith))
              (λ (first', second) p2 i2 le2.
                and_then-Keeps 0 0 0 p2 i2 _ _ (omega arith)
                  (rest_step p2 i2 first' second (omega arith))
                  (λ w p3 i3 le3. lift-Keeps 0 p3 i3 _ (
                    and_then-Within 0 0 0 i3 (ignore i3) _ (omega arith) (ignore-Within i3)
                      (λ u i4 le4. Left-refl i4)))))
        where
          rest_step :
              (p2 : Parser) (i2 : Bytes) (first' : Word K) (second : Option (Word K))
              → length i2 ≤ bound
              → Keeps {A = Word K} 0 p2 i2 (elim second [
                | some w ↦
                    complex_loop compound_list param_word delim
                      (suc (length i2))
                      (first' ∷ [])
                      w
                      p2
                      i2
                | none ↦ (p2, ok first' i2)
              ])
          rest_step p2 i2 first' none b2 = ok-Keeps {A = Word K} p2 i2 first'
          rest_step p2 i2 first' (some w) b2 =
              complex_loop-Keeps (suc (length i2)) (first' ∷ []) w p2 i2 (omega arith) b2

module _ {K : Type 0} (compound_list : Step K) (bound : ℕ)
    (lists : (p : Parser) (i : Bytes) → length i < bound → Keeps 0 p i (compound_list p i)) where
  general_word-Keeps :
      (fuel : ℕ) (delim : Bytes → Parsed (Unit {0})) (p : Parser) (input : Bytes)
      → IsDelim delim
      → length input < fuel
      → length input ≤ bound
      → Keeps 1 p input (general_word compound_list fuel delim p input)
  unfolding general_word
  general_word-Keeps zero delim p input d h b = absurd (omega arith)
  general_word-Keeps (suc fuel) delim p input d h b = with_kind-Keeps 1 p input in_word _ (
      word_inner-Keeps compound_list (length input) (λ p1 i1 le. lists p1 i1 (omega arith))
        (general_word compound_list fuel param_delimiter)
        (λ p1 i1 le.
          general_word-Keeps fuel param_delimiter p1 i1 param_delimiter-Within (omega arith)
            (omega arith))
        delim d p input (omega arith))

  pub word-Keeps :
      (p : Parser) (input : Bytes)
      → length input ≤ bound
      → Keeps 1 p input (word compound_list p input)
  unfolding word
  word-Keeps p input b =
      general_word-Keeps (suc (length input)) delimiter p input delimiter-Within (omega arith) b
