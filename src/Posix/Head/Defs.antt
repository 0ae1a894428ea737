-- ===== src/Posix/Head/Defs.antt =====
-- libmesabox/src/posix/head.rs: the writers and `handle_data`. A reader is the bytes that it has
-- left, and what is written is the result; reading and writing do not fail here.
use mesabox.Common.{
  ℕ, zero, suc, ◌-◌, max, min, Bool, true, false, Option, none, some, List, [], ◌∷◌, ◌++◌, length,
  take, drop, ltb, ◌==◌, ◌>>=◌, if◌then◌else◌,
}
use mesabox.Common.Bytes.{Bytes, codes}

abbrev pub newline : ℕ
newline = b'\n'

-- `read_until(b'\n', …)`: the line with its newline, and the bytes behind it.
unfoldable pub read_until : Bytes → Bytes × Bytes
read_until [] = ([], [])
read_until (b ∷ input) =
    let (line, rest) = read_until input in
    if b == newline then (b ∷ [], input) else (b ∷ line, rest)

-- The loop over `line_count`: what it writes, and what it leaves of the input.
unfoldable pub write_lines_forward : ℕ → Bytes → Bytes × Bytes
unfolding read_until
write_lines_forward zero input = ([], input)
write_lines_forward (suc line_count) input =
    let (buffer, rest) = read_until input in
    let later = write_lines_forward line_count rest in
    if length buffer == 0 then ([], rest) else (buffer ++ later.0, later.1)

-- The first loop of `write_lines_backward`; `none` is its early return at the end of the input.
unfoldable pub fill : ℕ → List Bytes → Bytes → Option (List Bytes × Bytes)
unfolding read_until
fill zero store input = some (store, input)
fill (suc line_count) store input =
    let (line, rest) = read_until input in
    let later = fill line_count (store ++ line ∷ []) rest in
    if length line == 0 then none else later

-- The second loop, which writes the oldest line and reads another; each round reads a byte at
-- least. `none`: the fuel ran out, or `unwrap` panicked on an empty store.
unfoldable pub drain : ℕ → List Bytes → Bytes → Option Bytes
unfolding read_until
drain zero store input = none
drain (suc fuel) [] input = none
drain (suc fuel) (oldest ∷ store) input =
    let (line, rest) = read_until input in
    let later = drain fuel (store ++ line ∷ []) rest >>= λ out. some (oldest ++ out) in
    if length line == 0 then some oldest else later

-- What follows the first loop.
unfoldable pub after_fill : List Bytes → Bytes → Option Bytes
unfolding drain read_until
after_fill store input =
    let (line, rest) = read_until input in
    let drained = drain (suc (length input)) (store ++ line ∷ []) rest in
    if length line == 0 then some [] else drained

unfoldable pub write_lines_backward : ℕ → Bytes → Option Bytes
unfolding fill after_fill
write_lines_backward line_count input = elim (fill line_count [] input) [
  | none ↦ some []
  | some (store, input') ↦ after_fill store input'
]

abbrev pub buf_size : ℕ
buf_size = 32768

-- The loop over chunks: what it wrote, the last full chunk, and the chunk that was cut short.
unfoldable pub copy_chunks : ℕ → ℕ → Bytes → Bytes → Option (Bytes × Bytes × Bytes)
copy_chunks zero size prev input = none
copy_chunks (suc fuel) size prev input =
    let cur = take size input in
    let later = copy_chunks fuel size cur (drop size input) >>= λ r. some (prev ++ r.0, r.1, r.2) in
    if length cur == size then later else some ([], prev, cur)

-- What is written after the loop.
unfoldable pub last_chunks : ℕ → Bytes → Bytes → Bytes
last_chunks bytes prev cur =
    if length cur == 0
    then (if ltb bytes (length prev) then take (length prev - bytes) prev else [])
    else if ltb bytes (length cur)
    then prev ++ take (length cur - bytes) cur
    else take (length prev - min (bytes - length cur) (length prev)) prev

abbrev pub finish : ℕ → Option (Bytes × Bytes × Bytes) → Option Bytes
finish bytes none = none
finish bytes (some (out, prev, cur)) = some (out ++ last_chunks bytes prev cur)

-- Each round takes `size` bytes, so one round more than there are bytes is enough.
unfoldable pub write_bytes_backward : ℕ → Bytes → Option Bytes
unfolding copy_chunks last_chunks
write_bytes_backward bytes input =
    finish bytes (copy_chunks (suc (length input)) (max bytes buf_size) [] input)

-- A count, and whether it is positive.
pub data Mode : Type 0 where
  bytes lines : ℕ → Bool → Mode

pub record Options : Type 0 where
  pub method : Mode
  pub previous_printed : Bool

-- The header line for an input, and the options after it. `name` is the text that is displayed.
unfoldable pub header : Option Bytes → Options → Bytes × Options
header none options = ([], options)
header (some name) options =
    if options.previous_printed
    then (codes "\n==> " ++ name ++ codes " <==\n", options)
    else (codes "==> " ++ name ++ codes " <==\n", record options { previous_printed = true })

-- What the method writes, and what it leaves of the input.
unfoldable pub write_data : Mode → Bytes → Option (Bytes × Bytes)
unfolding write_lines_forward write_lines_backward write_bytes_backward
write_data (lines n true) input = some (write_lines_forward n input)
write_data (lines n false) input = write_lines_backward n input >>= λ out. some (out, [])
write_data (bytes n true) input = some (take n input, drop n input)
write_data (bytes n false) input = write_bytes_backward n input >>= λ out. some (out, [])

unfoldable pub handle_data : Bytes → Option Bytes → Options → Option (Bytes × Bytes × Options)
unfolding header write_data
handle_data input filename options =
    let (head, options') = header filename options in
    write_data options'.method input >>= λ r. some (head ++ r.0, r.1, options')
