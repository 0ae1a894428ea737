-- ===== src/Sh/Parser/State.antt =====
-- libmesabox/src/posix/sh/parser.rs: `Parser`, the state of a parse. A here-document is shared between
-- the tree and the marker that waits for its text (`Rc<RefCell<HereDoc>>`); `heredocs` is the store of
-- these, and both refer to it by the index. What a branch has put into the state stays there if the
-- branch fails and another is tried.
use mesabox.Common.{ℕ, Bool, List, []}
use mesabox.Common.Bytes.{Bytes}
use mesabox.Sh.Parser.Defs
use mesabox.Sh.Parser.Defs.{no_fuel, ParserErrorKind, Errors, Parsed, ok, err, panic, endless}

pub record HereDocMarker : Type 0 where
  pub marker : Bytes
  pub strip_tabs : Bool
  pub heredoc : ℕ

pub record Parser : Type 0 where
  pub heredoc_markers : List HereDocMarker
  pub heredocs : List Bytes
  pub linenum : ℕ

unfoldable pub new_parser : Parser
new_parser = record { heredoc_markers = []; heredocs = []; linenum = 1 }

abbrev pub Step : Type 0 → Type 0
Step A = Parser → Bytes → Parser × Parsed A

-- `and_then`, `or_else` and `map_err` with the state.
abbrev pub and_then :
    {A B : Type 0}
    → Parser × Parsed A
    → (A → Parser → Bytes → Parser × Parsed B)
    → Parser × Parsed B
and_then (p, ok a input) f = f a p input
and_then (p, err e) f = (p, err e)
and_then (p, panic) f = (p, panic)
and_then (p, endless) f = (p, endless)
and_then (p, no_fuel) f = (p, no_fuel)

abbrev pub or_else :
    {A : Type 0} → Parser × Parsed A → (Parser → Parser × Parsed A) → Parser × Parsed A
or_else (p, ok a input) f = (p, ok a input)
or_else (p, err e) f = f p
or_else (p, panic) f = (p, panic)
or_else (p, endless) f = (p, endless)
or_else (p, no_fuel) f = (p, no_fuel)

-- `e.errors.push(kind)`
abbrev pub with_kind : {A : Type 0} → ParserErrorKind → Parser × Parsed A → Parser × Parsed A
with_kind kind (p, r) = (p, Defs.with_kind kind r)

-- `or_else` that looks at the errors
abbrev pub recover :
    {A : Type 0} → Parser × Parsed A → (Errors → Parser → Parser × Parsed A) → Parser × Parsed A
recover (p, ok a input) f = (p, ok a input)
recover (p, err e) f = f e p
recover (p, panic) f = (p, panic)
recover (p, endless) f = (p, endless)
recover (p, no_fuel) f = (p, no_fuel)

-- `match r { Ok((rest, a)) => …, Err(_) => … }`
abbrev pub attempt :
    {A B : Type 0}
    → Parser × Parsed A
    → (A → Parser → Bytes → Parser × Parsed B)
    → (Parser → Parser × Parsed B)
    → Parser × Parsed B
attempt (p, ok a input) f g = f a p input
attempt (p, err e) f g = g p
attempt (p, panic) f g = (p, panic)
attempt (p, endless) f g = (p, endless)
attempt (p, no_fuel) f g = (p, no_fuel)
