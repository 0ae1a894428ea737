-- ===== src/Sh/Expand/Output.antt =====
-- libmesabox/src/posix/sh/ast.rs: what `CommandSubst::eval` keeps of the output of its command.
use mesabox.Common.{
  ℕ, zero, suc, ◌≡◌, refl, false, Option, none, some, [], ◌∷◌, ◌++◌, replicate, ◌==◌, if◌then◌else◌,
  arith,
}
use mesabox.Common.Bytes.{Bytes}

-- The output up to its last byte that is no newline (`rsplitn(2, …)`), if there is one.
unfoldable pub up_to_text : Bytes → Option Bytes
up_to_text [] = none
up_to_text (byte ∷ output) = elim (up_to_text output) [
  | some text ↦ some (byte ∷ text)
  | none ↦ if byte == b'\n' then none else some (byte ∷ [])
]

unfoldable pub truncated : Bytes → Bytes
unfolding up_to_text
truncated output = elim (up_to_text output) [ some text ↦ text | none ↦ output ]

up_to_text-newlines : (n : ℕ) → up_to_text (replicate n b'\n') ≡ none
unfolding up_to_text
up_to_text-newlines zero = refl
up_to_text-newlines (suc n) = ground (arith, up_to_text-newlines n)

up_to_text-append :
    (s : Bytes) (c n : ℕ)
    → (c == b'\n') ≡ false
    → up_to_text (s ++ c ∷ replicate n b'\n') ≡ some (s ++ c ∷ [])
unfolding up_to_text
up_to_text-append [] c n h = ground (arith, up_to_text-newlines n, h)
up_to_text-append (b ∷ s) c n h = ground (arith, up_to_text-append s c n h)

-- The newlines at the end of an output that has another byte are cut off, all of them and nothing else;
-- an output of nothing but newlines is kept as it is.
pub truncated_lem :
    (s : Bytes) (c n : ℕ)
    → (c == b'\n') ≡ false
    → (truncated (s ++ c ∷ replicate n b'\n') ≡ s ++ c ∷ [])
      × (truncated (replicate n b'\n') ≡ replicate n b'\n')
unfolding truncated
truncated_lem s c n h =
    (ground (arith, up_to_text-append s c n h), ground (arith, up_to_text-newlines n))
