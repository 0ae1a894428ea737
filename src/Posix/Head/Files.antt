-- ===== src/Posix/Head/Files.antt =====
-- libmesabox/src/posix/head.rs: the loop of `execute` over the files. The standard input is the bytes
-- that are left in it; a file is its bytes, or `none` if it cannot be opened.
use mesabox.Common.{
  concat, take, drop, ◌-◌, ◌≡◌, refl, Bool, true, false, not, ◌&&◌, ◌||◌, Option, none, some, List,
  [], ◌∷◌, ◌++◌, length, ltb, ◌>>=◌, if◌then◌else◌,
}
use mesabox.Common.Bytes.{Bytes, codes}
use mesabox.Posix.Head.Defs.{
  Mode, bytes, lines, Options, header, write_lines_forward, write_data, handle_data,
}
use mesabox.Posix.Head.Lines.{split_lines}
use mesabox.Posix.Head.Backward.{write_lines_backward_lem}
use mesabox.Posix.Head.BytesBackward.{write_bytes_backward_lem}

pub data Input : Type 0 where
  standard_input : Input
  file : Bytes → Option Bytes → Input

-- Whether headers are written.
unfoldable pub shows_names : List Input → Bool → Bool → Bool
shows_names inputs quiet verbose = (ltb 1 (length inputs) && not quiet) || verbose

abbrev pub name_if : Bool → Bytes → Option Bytes
name_if shown name = if shown then some name else none

-- The output, and whether no file failed.
unfoldable pub files_loop : Bool → List Input → Bytes → Options → Option (Bytes × Bool)
files_loop shown [] stdin options = some ([], true)
files_loop shown (standard_input ∷ rest) stdin options =
    handle_data stdin (name_if shown (codes "standard input")) options >>= λ r.
    files_loop shown rest r.1 r.2 >>= λ later. some (r.0 ++ later.0, later.1)
files_loop shown (file name none ∷ rest) stdin options =
    files_loop shown rest stdin options >>= λ later. some (later.0, false)
files_loop shown (file name (some content) ∷ rest) stdin options =
    handle_data content (name_if shown name) options >>= λ r.
    files_loop shown rest stdin r.2 >>= λ later. some (r.0 ++ later.0, later.1)

unfoldable pub execute_files : List Input → Bool → Bool → Bytes → Mode → Option (Bytes × Bool)
execute_files inputs quiet verbose stdin method =
    files_loop (shows_names inputs quiet verbose) inputs stdin
      (record { method = method; previous_printed = false })

-- Every file can be opened.
abbrev pub all_open : List Input → Bool
all_open [] = true
all_open (standard_input ∷ rest) = all_open rest
all_open (file name none ∷ rest) = false
all_open (file name (some content) ∷ rest) = all_open rest

write_data-ends : (m : Mode) (input : Bytes) → (r : Bytes × Bytes) × (write_data m input ≡ some r)
unfolding write_data
write_data-ends (lines n true) input = (write_lines_forward n input, refl)
write_data-ends (lines n false) input = (
  (concat (take (length (split_lines input) - n) (split_lines input)), []),
  rw (write_lines_backward_lem n input) refl,
)
write_data-ends (bytes n true) input = ((take n input, drop n input), refl)
write_data-ends (bytes n false) input =
    ((take (length input - n) input, []), rw (write_bytes_backward_lem n input) refl)

handle_data-ends :
    (input : Bytes) (name : Option Bytes) (options : Options)
    → (r : Bytes × Bytes × Options) × (handle_data input name options ≡ some r)
unfolding handle_data
handle_data-ends input name options =
    let (r, e) = write_data-ends (header name options).1.method input in
    (((header name options).0 ++ r.0, r.1, (header name options).1), rw e refl)

-- The files that can be opened, and the standard input.
abbrev pub opened : List Input → List Input
opened [] = []
opened (standard_input ∷ rest) = standard_input ∷ opened rest
opened (file name none ∷ rest) = opened rest
opened (file name (some content) ∷ rest) = file name (some content) ∷ opened rest

-- The output is that of the files that can be opened.
files_loop-ends :
    (shown : Bool) (inputs : List Input) (stdin : Bytes) (options : Options)
    → (out : Bytes) × (files_loop shown (opened inputs) stdin options ≡ some (out, true))
      × (files_loop shown inputs stdin options ≡ some (out, all_open inputs))
unfolding files_loop
files_loop-ends shown [] stdin options = ([], refl, refl)
files_loop-ends shown (standard_input ∷ rest) stdin options =
    let (r, e) = handle_data-ends stdin (name_if shown (codes "standard input")) options in
    let (out, alone, ih) = files_loop-ends shown rest r.1 r.2 in
    (r.0 ++ out, rw (e, alone) refl, rw (e, ih) refl)
files_loop-ends shown (file name none ∷ rest) stdin options =
    let (out, alone, ih) = files_loop-ends shown rest stdin options in (out, alone, rw ih refl)
files_loop-ends shown (file name (some content) ∷ rest) stdin options =
    let (r, e) = handle_data-ends content (name_if shown name) options in
    let (out, alone, ih) = files_loop-ends shown rest stdin r.2 in
    (r.0 ++ out, rw (e, alone) refl, rw (e, ih) refl)

-- `head` ends for every method and every list of files. What it writes is what it writes for the files
-- that can be opened (with the same choice of headers), and it succeeds exactly if all of them could be
-- opened.
pub execute_files-ends :
    (inputs : List Input) (quiet verbose : Bool) (stdin : Bytes) (method : Mode)
    → (out : Bytes) × (files_loop
          (shows_names inputs quiet verbose)
          (opened inputs)
          stdin
          (record { method = method; previous_printed = false })
        ≡ some (out, true))
      × (execute_files inputs quiet verbose stdin method ≡ some (out, all_open inputs))
unfolding execute_files
execute_files-ends inputs quiet verbose stdin method =
    files_loop-ends (shows_names inputs quiet verbose) inputs stdin
      (record { method = method; previous_printed = false })
