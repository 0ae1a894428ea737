-- ===== src/Sh/Builtin/Read.antt =====
-- libmesabox/src/posix/sh/builtin/read.rs. The crate `clap` parses the arguments: the names and the flag
-- `-r` are parameters. The input is the list of the bytes that are left in it.
use mesabox.Common.{
  ℕ, zero, suc, ℤ, pos, Bool, true, false, not, ◌||◌, Option, none, some, List, [], ◌∷◌, ◌++◌,
  length, ◌==◌, if◌then◌else◌,
}
use mesabox.Common.Bytes.{Bytes, codes}
use mesabox.Sh.Env.{Environment, get_var, set_var}

-- `read_until(b'\n', …)`: a line with its newline, or what is left.
unfoldable pub read_line : Bytes → Bytes × Bytes
read_line [] = ([], [])
read_line (byte ∷ input) =
    let (line, rest) = read_line input in
    if byte == b'\n' then (byte ∷ [], input) else (byte ∷ line, rest)

-- The buffer backwards: `buffer.pop()` takes its first byte.
abbrev pub reversed_onto : Bytes → Bytes → Bytes
reversed_onto [] back = back
reversed_onto (byte ∷ line) back = reversed_onto line (byte ∷ back)

-- The newlines at the end are dropped.
unfoldable pub drop_newlines : Bytes → Bytes
drop_newlines [] = []
drop_newlines (byte ∷ back) =
    let rest = drop_newlines back in if byte == b'\n' then rest else byte ∷ back

-- Whether the number of backslashes at the end is even.
unfoldable pub even_backslashes : Bytes → Bool
even_backslashes [] = true
even_backslashes (byte ∷ back) =
    let rest = even_backslashes back in if byte == b'\\' then not rest else true

-- `check_backslash`: the buffer without its newlines, and that its last byte is no backslash or an
-- escaped one.
unfoldable pub check_backslash : Bytes → Bytes × Bool
unfolding drop_newlines even_backslashes
check_backslash back = (drop_newlines back, even_backslashes (drop_newlines back))

abbrev pub without_first : Bytes → Bytes
without_first [] = []
without_first (byte ∷ back) = back

-- The loop over the lines: the buffer (backwards) and the input that is left. `none`: the fuel has run
-- out.
unfoldable pub read_loop : ℕ → Bool → Bytes → Bytes → Option (Bytes × Bytes)
unfolding read_line check_backslash
read_loop zero ignore_backslash back input = none
read_loop (suc fuel) ignore_backslash back input =
    let (line, rest) = read_line input in
    let (back', not_backslash) = check_backslash (reversed_onto line back) in
    let later = read_loop fuel ignore_backslash (without_first back') rest in
    if ignore_backslash || not_backslash then some (back', rest) else later

-- `splitn(n, …)`: at most `n` fields, of which the last one is the rest of the buffer.
unfoldable pub split_fields : (ℕ → Bool) → ℕ → Bytes → Bytes → List Bytes
split_fields is_ifs zero field buffer = []
split_fields is_ifs (suc zero) field buffer = (field ++ buffer) ∷ []
split_fields is_ifs (suc (suc n)) field [] = field ∷ []
split_fields is_ifs (suc (suc n)) field (byte ∷ buffer) =
    let next = split_fields is_ifs (suc n) [] buffer in
    let longer = split_fields is_ifs (suc (suc n)) (field ++ byte ∷ []) buffer in
    if is_ifs byte then field ∷ next else longer

-- The value of a field: the flag is `in_escape`.
unfoldable pub unescaped : Bool → Bytes → Bytes
unescaped in_escape [] = []
unescaped true (byte ∷ value) = byte ∷ unescaped false value
unescaped false (byte ∷ value) =
    let escaped = unescaped true value in
    let plain = byte ∷ unescaped false value in if byte == b'\\' then escaped else plain

abbrev pub is_in : Bytes → ℕ → Bool
is_in [] byte = false
is_in (c ∷ ifs) byte = c == byte || is_in ifs byte

abbrev pub or_blanks : Option Bytes → Bytes
or_blanks none = codes " \t\n"
or_blanks (some ifs) = ifs

module _ {F : Type 0} where
  -- The loop over the names and the fields, which ends with the shorter of both.
  unfoldable pub set_fields : Bool → List Bytes → List Bytes → Environment F → Environment F
  unfolding unescaped set_var
  set_fields ignore_backslash [] fields env = env
  set_fields ignore_backslash (var ∷ vars) [] env = env
  set_fields ignore_backslash (var ∷ vars) (field ∷ fields) env =
      set_fields ignore_backslash vars fields
        (set_var env var (if ignore_backslash then field else unescaped false field)).0

  unfoldable pub setup_vars : Environment F → List Bytes → Bytes → Bool → Environment F × ℤ
  unfolding get_var split_fields set_fields
  setup_vars env vars buffer ignore_backslash =
      let ifs = or_blanks (get_var env (codes "IFS")) in
      (
        set_fields ignore_backslash vars (split_fields (is_in ifs) (length vars) [] buffer) env,
        pos 0,
      )

  -- What follows the loop.
  abbrev pub with_buffer :
      Environment F
      → List Bytes
      → Bool
      → Option (Bytes × Bytes)
      → Option ((Environment F × ℤ) × Bytes)
  with_buffer env vars ignore_backslash none = none
  with_buffer env vars ignore_backslash (some (back, rest)) =
      some (setup_vars env vars (reversed_onto back []) ignore_backslash, rest)

  -- Each round that is not the last one takes a backslash away, so one round more than there are bytes
  -- is enough.
  unfoldable pub read_run :
      Environment F → List Bytes → Bool → Bytes → Option ((Environment F × ℤ) × Bytes)
  unfolding read_loop setup_vars
  read_run env vars ignore_backslash input =
      with_buffer env vars ignore_backslash
        (read_loop (suc (length input)) ignore_backslash [] input)
