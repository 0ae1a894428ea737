-- ===== src/Sh/Builtin/ReadLines.antt =====
-- The lines that `read` reads (libmesabox/src/posix/sh/builtin/read.rs).
use mesabox.Common.{
  ℕ, zero, suc, ◌+◌, ◌≤◌, ◌<◌, ◌≡◌, refl, ap, ◌∙◌, ℤ, Bool, true, false, Option, some, List, [],
  ◌∷◌, length, All, ◌==◌, if◌then◌else◌, arith, Bool-cases, inl, inr,
}
use mesabox.Common.Bytes.{Bytes}
use mesabox.Sh.Env.{Environment}
use mesabox.Sh.Builtin.Read.{
  read_line, reversed_onto, drop_newlines, even_backslashes, check_backslash, without_first,
  read_loop, with_buffer, read_run,
}

length-read_line :
    (input : Bytes) → length (read_line input).0 + length (read_line input).1 ≡ length input
unfolding read_line
length-read_line [] = refl
length-read_line (c ∷ input) = ground (arith, length-read_line input)

length-reversed_onto :
    (line back : Bytes) → length (reversed_onto line back) ≡ length line + length back
length-reversed_onto [] back = omega arith
length-reversed_onto (c ∷ line) back = omega (arith, length-reversed_onto line (c ∷ back))

length-drop_newlines : (back : Bytes) → length (drop_newlines back) ≤ length back
unfolding drop_newlines
length-drop_newlines [] = omega arith
length-drop_newlines (c ∷ back) = ground (arith, length-drop_newlines back)

-- A buffer that ends in a backslash has a byte.
length-without_first :
    (back : Bytes) → even_backslashes back ≡ false → suc (length (without_first back)) ≡ length back
unfolding even_backslashes
length-without_first [] h = absurd (cc h)
length-without_first (c ∷ back) h = omega arith

-- The buffer after a line, without its newlines.
abbrev stripped : Bytes → Bytes → Bytes
stripped back input = drop_newlines (reversed_onto (read_line input).0 back)

-- As many rounds as there are bytes in the buffer and in the input are enough, with one more.
read_loop-ends :
    (fuel : ℕ) (ignore_backslash : Bool) (back input : Bytes)
    → length back + length input < fuel
    → (r : Bytes × Bytes) × (read_loop fuel ignore_backslash back input ≡ some r)
unfolding read_loop check_backslash
read_loop-ends zero ignore_backslash back input h = absurd (omega arith)
read_loop-ends (suc fuel) true back input h = ((stripped back input, (read_line input).1), refl)
read_loop-ends (suc fuel) false back input h =
    elim (Bool-cases (even_backslashes (stripped back input))) [
      | inl e ↦ (
        (stripped back input, (read_line input).1),
        ap (λ b. if b then some (stripped back input, (read_line input).1) else again) e,
      )
      | inr e ↦
          let (r, f) =
            read_loop-ends fuel false (without_first (stripped back input)) (read_line input).1 (
              omega (
                arith,
                length-without_first (stripped back input) e,
                length-drop_newlines (reversed_onto (read_line input).0 back),
                length-reversed_onto (read_line input).0 back,
                length-read_line input,
              )) in
          (r, ap (λ b. if b then some (stripped back input, (read_line input).1) else again) e ∙ f)
    ]
  where
    again : Option (Bytes × Bytes)
    again = read_loop fuel false (without_first (stripped back input)) (read_line input).1

abbrev pub IsPlain : Bytes → Type 0
IsPlain s = All (λ c. ((c == b'\n') ≡ false) × ((c == b'\\') ≡ false)) s

module _ {F : Type 0} (env : Environment F) where
  -- `read` always ends: its loop over the lines comes to an end, whatever the input is.
  pub read_run-ends :
      (vars : List Bytes) (ignore_backslash : Bool) (input : Bytes)
      → (r : (Environment F × ℤ) × Bytes) × (read_run env vars ignore_backslash input ≡ some r)
  unfolding read_run
  read_run-ends vars ignore_backslash input =
      let (r, e) = read_loop-ends (suc (length input)) ignore_backslash [] input (omega arith) in
      (_, ap (with_buffer env vars ignore_backslash) e)
