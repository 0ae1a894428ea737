-- ===== src/Posix/Cat/Defs.antt =====
-- libmesabox/src/posix/cat.rs: the options and the writers of lines. A file is the list of the chunks
-- that `read` returns, none of them empty; what is written is the result, and writing does not fail.
use mesabox.Common.{
  ℕ, zero, suc, ◌+◌, ◌-◌, ◌/◌, ◌%◌, Bool, true, false, not, ◌&&◌, ◌||◌, Option, none, some, List,
  [], ◌∷◌, ◌++◌, length, take, drop, replicate, ltb, ◌==◌, ◌>>=◌, if◌then◌else◌,
}
use mesabox.Common.Bytes.{Bytes, codes}

abbrev pub newline : ℕ
newline = b'\n'

abbrev pub tab_byte : ℕ
tab_byte = 9

pub data NumberingMode : Type 0 where
  number_none number_non_empty number_all : NumberingMode

pub record OutputOptions : Type 0 where
  pub number : NumberingMode
  pub squeeze_blank : Bool
  pub show_ends : Bool
  pub show_tabs : Bool
  pub tab : Bytes
  pub end_of_line : Bytes
  pub show_nonprint : Bool

abbrev pub is_none : NumberingMode → Bool
is_none number_none = true
is_none _ = false

abbrev pub is_all : NumberingMode → Bool
is_all number_all = true
is_all _ = false

unfoldable pub can_write_fast : OutputOptions → Bool
can_write_fast o =
    not (o.show_tabs || o.show_nonprint || o.show_ends || o.squeeze_blank || not (is_none o.number))

-- `run`: the texts for tabs and for the ends of lines.
unfoldable pub with_texts : OutputOptions → OutputOptions
with_texts o = record o {
  tab = if o.show_tabs then codes "^I" else tab_byte ∷ [];
  end_of_line = if o.show_ends then codes "$\n" else newline ∷ [];
}

pub record OutputState : Type 0 where
  pub line_number : ℕ
  pub at_line_start : Bool

-- `{0:6}\t`
abbrev digits : ℕ → ℕ → List ℕ → List ℕ
digits zero n acc = acc
digits (suc fuel) n acc =
    let later = digits fuel (n / 10) ((b'0' + n % 10) ∷ acc) in
    if ltb n 10 then (b'0' + n % 10) ∷ acc else later

unfoldable pub number_text : ℕ → Bytes
number_text n =
    let text = digits (suc n) n [] in replicate (6 - length text) b' ' ++ text ++ tab_byte ∷ []

-- The first newline.
abbrev pub position : Bytes → Option ℕ
position [] = none
position (b ∷ s) =
    let later = position s >>= λ p. some (suc p) in if b == newline then some 0 else later

unfoldable pub write_to_end : Bytes → Bytes × ℕ
write_to_end in_buf = elim (position in_buf) [
  | some p ↦ (take p in_buf, p + 1)
  | none ↦ (in_buf, 0)
]

-- The first newline or tab, with the byte.
abbrev pub find_special : Bytes → Option (ℕ × ℕ)
find_special [] = none
find_special (b ∷ s) =
    let later = find_special s >>= λ r. some (suc r.0, r.1) in
    if b == newline || b == tab_byte then some (0, b) else later

-- The loop; each round takes a tab at least. `none`: the fuel ran out.
unfoldable pub tab_loop : ℕ → ℕ → Bytes → Option (Bytes × ℕ)
tab_loop zero count in_buf = none
tab_loop (suc fuel) count in_buf = elim (find_special in_buf) [
  | none ↦ some (in_buf, 0)
  | some (p, c) ↦
      let later = tab_loop fuel (count + p + 1) (drop (p + 1) in_buf) >>= λ r.
      some (take p in_buf ++ codes "^I" ++ r.0, r.1) in
      if c == newline then some (take p in_buf, p + 1 + count) else later
]

unfoldable pub write_tab_to_end : Bytes → Option (Bytes × ℕ)
unfolding tab_loop
write_tab_to_end in_buf = tab_loop (suc (length in_buf)) 0 in_buf

-- `^` and `M-` notation.
unfoldable pub nonprint : Bytes → ℕ → Bytes
nonprint tab byte =
    if byte == 9
    then tab
    else if ltb byte 32
    then b'^' ∷ (byte + 64) ∷ []
    else if ltb byte 127
    then byte ∷ []
    else if byte == 127
    then b'^' ∷ (byte - 64) ∷ []
    else if ltb byte 160
    then b'M' ∷ b'-' ∷ b'^' ∷ (byte - 64) ∷ []
    else if ltb byte 255
    then b'M' ∷ b'-' ∷ (byte - 128) ∷ []
    else b'M' ∷ b'-' ∷ b'^' ∷ 63 ∷ []

-- The loop over the bytes, from index `i`.
unfoldable pub write_nonprint_to_end : ℕ → Bytes → Bytes → Bytes × ℕ
unfolding nonprint
write_nonprint_to_end i tab [] = ([], 0)
write_nonprint_to_end i tab (byte ∷ in_buf) =
    let (out, offset) = write_nonprint_to_end (suc i) tab in_buf in
    if byte == newline then ([], i + 1) else (nonprint tab byte ++ out, offset)

unfoldable pub write_line : OutputOptions → Bytes → Option (Bytes × ℕ)
unfolding write_to_end write_tab_to_end write_nonprint_to_end
write_line o in_buf =
    if o.show_nonprint
    then some (write_nonprint_to_end 0 o.tab in_buf)
    else if o.show_tabs
    then write_tab_to_end in_buf
    else some (write_to_end in_buf)

-- What is written, `one_blank_kept` and the state.
abbrev pub Step : Type 0
Step = Bytes × Bool × OutputState

abbrev pub numbered : Bool → OutputState → Bytes × OutputState
numbered true st = (number_text st.line_number, record st { line_number = st.line_number + 1 })
numbered false st = ([], st)

abbrev pub started : OutputState → OutputState
started st = record st { at_line_start = true }

-- A newline where a round of the loop begins.
unfoldable pub blank : OutputOptions → Bool → OutputState → Step
blank o kept st =
    if not st.at_line_start || not o.squeeze_blank || not kept
    then (
      (numbered (st.at_line_start && is_all o.number) st).0 ++ o.end_of_line,
      true,
      started (numbered (st.at_line_start && is_all o.number) st).1,
    )
    else ([], kept, started st)

abbrev pub then_step : Bytes → Step → Step
then_step out (later, kept, st) = (out ++ later, kept, st)

-- `while pos < n`, on the bytes from `pos` on; each round takes a byte at least.
unfoldable pub chunk_loop : ℕ → OutputOptions → Bool → OutputState → Bytes → Option Step
chunk_loop zero o kept st in_buf = none
chunk_loop (suc fuel) o kept st [] = some ([], kept, st)
chunk_loop (suc fuel) o kept st (b ∷ in_buf) =
    let empty = blank o kept st in
    let after_blank =
      chunk_loop fuel o empty.1 empty.2 in_buf >>= λ r. some (then_step empty.0 r) in
    let (prefix, st') = numbered (st.at_line_start && not (is_none o.number)) st in
    let line = write_line o (b ∷ in_buf) >>= λ w.
    let after_line = chunk_loop fuel o false (started st') (drop w.1 (b ∷ in_buf)) >>= λ r.
    some (then_step (prefix ++ w.0 ++ o.end_of_line) r) in
    if w.1 == 0
    then some (prefix ++ w.0, false, record st' { at_line_start = false })
    else after_line in
    if b == newline then after_blank else line

-- The loop over the reads of a file.
unfoldable pub file_loop : OutputOptions → Bool → OutputState → List Bytes → Option Step
unfolding chunk_loop
file_loop o kept st [] = some ([], kept, st)
file_loop o kept st (chunk ∷ chunks) = chunk_loop (suc (length chunk)) o kept st chunk >>= λ r.
    file_loop o r.1 r.2 chunks >>= λ later. some (then_step r.0 later)

unfoldable pub write_file_lines :
    OutputOptions → OutputState → List Bytes → Option (Bytes × OutputState)
unfolding file_loop
write_file_lines o st chunks = file_loop o false st chunks >>= λ r. some (r.0, r.2)

-- The files of `write_lines`, all of which can be opened.
unfoldable pub write_files : OutputOptions → OutputState → List (List Bytes) → Option Bytes
unfolding write_file_lines
write_files o st [] = some []
write_files o st (file ∷ files) =
    write_file_lines o st file >>= λ r. write_files o r.1 files >>= λ later. some (r.0 ++ later)

unfoldable pub write_lines : OutputOptions → List (List Bytes) → Option Bytes
unfolding write_files
write_lines o files = write_files o (record { line_number = 1; at_line_start = true }) files
