-- ===== src/Posix/Head/Lines.antt =====
-- The lines of an input, each with its newline, for the loops of libmesabox/src/posix/head.rs.
use mesabox.Common.{
  ℕ, ◌<◌, ◌≡◌, refl, List, [], ◌∷◌, ◌++◌, length, concat, ◌==◌, arith, if◌then◌else◌,
}
use mesabox.Common.Bytes.{Bytes}
use mesabox.Posix.Head.Defs.{newline, read_until}

abbrev pub add_to_first : ℕ → List Bytes → List Bytes
add_to_first b [] = (b ∷ []) ∷ []
add_to_first b (line ∷ rest) = (b ∷ line) ∷ rest

-- The last line may lack its newline.
unfoldable pub split_lines : Bytes → List Bytes
split_lines [] = []
split_lines (b ∷ input) =
    let rest = split_lines input in if b == newline then (b ∷ []) ∷ rest else add_to_first b rest

concat-add_to_first : (b : ℕ) (ls : List Bytes) → concat (add_to_first b ls) ≡ b ∷ concat ls
concat-add_to_first b [] = refl
concat-add_to_first b (l ∷ ls) = refl

-- Nothing is lost: the lines put together are the input.
pub concat-split_lines : (input : Bytes) → concat (split_lines input) ≡ input
unfolding split_lines
concat-split_lines [] = refl
concat-split_lines (b ∷ input) =
    ground (arith, concat-split_lines input, concat-add_to_first b (split_lines input))

-- It takes a byte at least, if there is one.
pub length-read_until :
    (b : ℕ) (input : Bytes)
    → (0 < length (read_until (b ∷ input)).0)
      × (length (read_until (b ∷ input)).1 < length (b ∷ input))
unfolding read_until
length-read_until b [] = ground arith
length-read_until b (c ∷ input) = ground (arith, length-read_until c input)

-- `read_until` takes the first line.
pub split_lines-read_until :
    (b : ℕ) (input : Bytes)
    → split_lines (b ∷ input) ≡ (read_until (b ∷ input)).0 ∷ split_lines (read_until (b ∷ input)).1
unfolding split_lines read_until
split_lines-read_until b [] = ground arith
split_lines-read_until b (c ∷ input) = ground (arith, split_lines-read_until c input)

-- What `read_until` takes and leaves is the input.
pub append-read_until : (input : Bytes) → (read_until input).0 ++ (read_until input).1 ≡ input
unfolding read_until
append-read_until [] = refl
append-read_until (b ∷ input) = ground (arith, append-read_until input)
