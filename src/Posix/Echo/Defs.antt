-- ===== src/Posix/Echo/Defs.antt =====
-- libmesabox/src/posix/echo.rs. What is written is the result; writing does not fail here.
use mesabox.Common.{
  ◌≡◌, refl, ℕ, zero, suc, ◌+◌, ◌-◌, ◌*◌, Bool, true, false, not, ◌&&◌, Option, none, some, List,
  [], ◌∷◌, ◌++◌, length, drop, ltb, leb, ◌==◌, if◌then◌else◌,
}
use mesabox.Common.Bytes.{Bytes, codes}

abbrev pub backslash : ℕ
backslash = 92

abbrev pub newline : ℕ
newline = b'\n'

abbrev pub space : ℕ
space = b' '

-- `s.split(|&byte| byte == b'\\')`: the first piece, and the others.
unfoldable pub split : Bytes → Bytes × List Bytes
split [] = ([], [])
split (b ∷ s) =
    let pieces = split s in
    if b == backslash then ([], pieces.0 ∷ pieces.1) else (b ∷ pieces.0, pieces.1)

-- A number is `none` if it does not fit a byte.
pub data ByteResult : Type 0 where
  nothing : ByteResult
  escape : ℕ → Bytes → ByteResult
  num : Option ℕ → Bytes → ByteResult
  slice : Bytes → ByteResult
  one_backslash : ByteResult
  stop : ByteResult

abbrev is_octal : ℕ → Bool
is_octal b = leb b'0' b && leb b b'7'

-- The octal digits at the start, `n` at most.
unfoldable octal_digits : ℕ → Bytes → List ℕ
octal_digits zero s = []
octal_digits (suc n) [] = []
octal_digits (suc n) (b ∷ s) = let later = octal_digits n s in if is_octal b then b ∷ later else []

-- `u8::from_str_radix(_, 8)`
abbrev octal : ℕ → List ℕ → ℕ
octal acc [] = acc
octal acc (b ∷ s) = octal (acc * 8 + (b - b'0')) s

abbrev as_byte : ℕ → Option ℕ
as_byte n = if ltb n 256 then some n else none

unfoldable pub map_num : Bytes → ByteResult
unfolding octal_digits
map_num s = let digits = octal_digits 3 s in num (as_byte (octal 0 digits)) (drop (length digits) s)

-- A piece that is not empty, by its first byte.
unfoldable pub map_escape : ℕ → Bytes → ByteResult
unfolding map_num
map_escape c s =
    if c == b'a'
    then escape 7 s
    else if c == b'b'
    then escape 8 s
    else if c == b'c'
    then stop
    else if c == b'f'
    then escape 12 s
    else if c == b'n'
    then escape newline s
    else if c == b'r'
    then escape 13 s
    else if c == b't'
    then escape 9 s
    else if c == b'v'
    then escape 11 s
    else if c == backslash
    then escape backslash s
    else if c == b'0'
    then map_num s
    else escape backslash (c ∷ s)

-- The closure of `scan` over the pieces, with its state `found_backslash`.
unfoldable pub map_pieces : Bool → List Bytes → List ByteResult
unfolding map_escape
map_pieces found_backslash [] = []
map_pieces found_backslash ([] ∷ rest) =
    (if not found_backslash then one_backslash else nothing) ∷ map_pieces (not found_backslash) rest
map_pieces found_backslash ((c ∷ s) ∷ rest) = map_escape c s ∷ map_pieces found_backslash rest

unfoldable pub map_bytes : Bytes → List ByteResult
unfolding split map_pieces
map_bytes s = let (first, rest) = split s in slice first ∷ map_pieces false rest

-- How a text ends: `\c` was found, or a number did not fit, or neither.
pub data End : Type 0 where
  finished found_c failed : End

abbrev pub prepend : Bytes → Bytes × End → Bytes × End
prepend s (out, end) = (s ++ out, end)

-- The loop of `write_str`.
unfoldable pub write_results : List ByteResult → Bytes × End
write_results [] = ([], finished)
write_results (nothing ∷ rest) = write_results rest
write_results (escape b s ∷ rest) = prepend (b ∷ s) (write_results rest)
write_results (num none s ∷ rest) = ([], failed)
write_results (num (some b) s ∷ rest) = prepend (b ∷ s) (write_results rest)
write_results (slice s ∷ rest) = prepend s (write_results rest)
write_results (one_backslash ∷ rest) = prepend (backslash ∷ []) (write_results rest)
write_results (stop ∷ rest) = ([], found_c)

unfoldable pub write_str : Bytes → Bytes × End
unfolding map_bytes write_results
write_str s = write_results (map_bytes s)

-- What follows a text that was written; the flag says if `execute` succeeds.
abbrev pub then_write : Bytes × End → Bytes × Bool → Bytes × Bool
then_write (out, finished) (later, success) = (out ++ later, success)
then_write (out, found_c) later = (out, true)
then_write (out, failed) later = (out, false)

unfoldable pub write_rest : List Bytes → Bytes × Bool
unfolding write_str
write_rest [] = (newline ∷ [], true)
write_rest (s ∷ args) = then_write (prepend (space ∷ []) (write_str s)) (write_rest args)

-- `execute` on the arguments behind the program's name.
unfoldable pub execute : List Bytes → Bytes × Bool
unfolding write_str write_rest
execute [] = (newline ∷ [], true)
execute (s ∷ args) = then_write (write_str s) (write_rest args)

-- Cases of tests/posix/echo.rs.
seven : execute (codes "\\\\\\\\\\\\\\" ∷ []) ≡ (codes "\\\\\\\\\n", true)
unfolding execute
seven = refl

unknown : execute (codes "\\o" ∷ []) ≡ (codes "\\o\n", true)
unfolding execute
unknown = refl
