-- ===== src/Gnu/Yes.antt =====
-- libmesabox/src/gnu/yes.rs: the text that is printed again and again, and the buffer it is put
-- in. The buffer is the list of the bytes that were copied to it so far.
use native.Mathlib.Decide.{dec_le}
use mesabox.Common.{
  lt→ltb, ℕ, zero, suc, ◌+◌, ◌-◌, ◌<◌, ◌≤◌, ◌/◌, ◌≡◌, refl, sym, ap, ◌∙◌, Option, none, some, List,
  [], ◌∷◌, ◌++◌, append-nil, append_assoc, length, length-append, replicate, concat, ltb, arith,
  if◌then◌else◌,
}
use mesabox.Common.Bytes.{Bytes, codes}

abbrev pub buf_size : ℕ
buf_size = 16384

-- The arguments with spaces between them and a newline, or `y`.
abbrev push_all : Bytes → List Bytes → Bytes
push_all res [] = res
push_all res (s ∷ rest) = push_all (res ++ codes " " ++ s) rest

unfoldable pub string_of : List Bytes → Bytes
string_of [] = codes "y\n"
string_of (start ∷ values) = push_all start values ++ codes "\n"

-- The `while` loop; `none`: the fuel ran out.
unfoldable pub fill_buffer : ℕ → Bytes → Bytes → Option Bytes
fill_buffer zero input buffer = none
fill_buffer (suc fuel) input buffer =
    let later = fill_buffer fuel input (buffer ++ input) in
    if ltb (length buffer) (buf_size - length input) then later else some buffer

-- A round copies a byte at least, unless the input is empty; then the loop does not end.
unfoldable pub prepare_buffer : Bytes → Option Bytes
prepare_buffer input =
    if ltb (length input) (buf_size / 2) then fill_buffer (suc buf_size) input [] else some input

concat-replicate-suc :
    (k : ℕ) (input : Bytes) → concat (replicate k input) ++ input ≡ concat (replicate (suc k) input)
concat-replicate-suc zero input = sym (append-nil input)
concat-replicate-suc (suc k) input =
    append_assoc input (concat (replicate k input)) input
    ∙ ap (λ s. input ++ s) (concat-replicate-suc k input)

fill_buffer-stop :
    (fuel : ℕ) (input buffer : Bytes)
    → buf_size - length input ≤ length buffer
    → fill_buffer (suc fuel) input buffer ≡ some buffer
unfolding fill_buffer
fill_buffer-stop fuel input buffer h = ground arith

fill_buffer-step :
    (fuel : ℕ) (input buffer : Bytes)
    → length buffer < buf_size - length input
    → fill_buffer (suc fuel) input buffer ≡ fill_buffer fuel input (buffer ++ input)
unfolding fill_buffer
fill_buffer-step fuel input buffer h = ground arith

-- The copies are shorter than the buffer, and what is left of it is no longer than the input.
abbrev pub IsFull : Bytes → Bytes → Type 0
IsFull input buffer = (length buffer < buf_size) × (buf_size - length input ≤ length buffer)

fill_buffer-copies :
    (fuel : ℕ) (input : Bytes) (k : ℕ)
    → 0 < length input
    → length (concat (replicate k input)) < buf_size
    → buf_size < fuel + length (concat (replicate k input))
    → (j : ℕ) × (fill_buffer fuel input (concat (replicate k input))
        ≡ some (concat (replicate j input)))
      × IsFull input (concat (replicate j input))
fill_buffer-copies zero input k hi hl hf = absurd (omega arith)
fill_buffer-copies (suc fuel) input k hi hl hf =
    let buffer = concat (replicate k input) in
    let longer : length (concat (replicate (suc k) input)) ≡ length input + length buffer =
      length-append input buffer in
    elim (dec_le (buf_size - length input) (length buffer)) [
      | yes full ↦ (k, fill_buffer-stop fuel input buffer full, (hl, full))
      | no room ↦
          let (j, e, full) =
            fill_buffer-copies fuel input (suc k) hi (omega (arith, longer, room))
              (omega (arith, longer, room)) in
          (
            j,
            fill_buffer-step fuel input buffer (omega (arith, room))
                ∙ ap (λ b. fill_buffer fuel input b) (concat-replicate-suc k input)
                ∙ e,
            full,
          )
    ]

prepare_buffer-short :
    (input : Bytes) → length input < 8192 → prepare_buffer input ≡ fill_buffer 16385 input []
unfolding prepare_buffer
prepare_buffer-short input h = rw (lt→ltb _ _ h) refl

-- For an input that is not empty and shorter than half the buffer, the loop ends with whole copies
-- of the input that are together shorter than the buffer, and what is left of the buffer is no longer
-- than the input. (So the copies never fill it: if one more would fill it exactly, it is left out.)
pub prepare_buffer-copies :
    (input : Bytes)
    → 0 < length input
    → length input < 8192
    → (k : ℕ) × (prepare_buffer input ≡ some (concat (replicate k input)))
      × IsFull input (concat (replicate k input))
prepare_buffer-copies input hi hl =
    let (k, e, full) = fill_buffer-copies (suc buf_size) input 0 hi (omega arith) (omega arith) in
    (k, prepare_buffer-short input hl ∙ e, full)

-- The text that is repeated is never empty.
pub string_of-nonempty : (values : List Bytes) → 0 < length (string_of values)
unfolding string_of
string_of-nonempty [] = omega arith
string_of-nonempty (start ∷ values) =
    omega (arith, length-append (push_all start values) (codes "\n"))
