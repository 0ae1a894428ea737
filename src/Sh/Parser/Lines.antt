-- ===== src/Sh/Parser/Lines.antt =====
-- libmesabox/src/posix/sh/parser.rs: here-documents, line breaks and separators.
use mesabox.Common.{
  ℕ, zero, suc, Bool, true, false, not, ◌&&◌, List, [], ◌∷◌, ◌++◌, length, set, if◌then◌else◌,
}
use mesabox.Common.Bytes.{Bytes, codes}
use mesabox.Sh.Parser.Defs.{no_fuel, Parsed, ok, err, panic, endless, is_heredoc_marker, is_one_of}
use mesabox.Sh.Parser.Defs
use mesabox.Sh.Parser.Space.{newline, ignore, is_token}
use mesabox.Sh.Parser.State.{attempt, HereDocMarker, Step, and_then, or_else}

-- A newline, or the end of the input.
unfoldable pub line_end : Bytes → Parsed (Unit {0})
unfolding newline
line_end [] = ok tt []
line_end (c ∷ input) = newline (c ∷ input)

-- The closure of `parse_heredoc`, with its flags `first` and `very_first`.
unfoldable pub heredoc_end : Bool → Bool → Bytes → Bytes → Parsed (Unit {0})
unfolding newline is_heredoc_marker line_end
heredoc_end first very_first marker input =
    Defs.and_then (if first && not very_first then newline input else ok tt input)
      λ u start. Defs.and_then (is_heredoc_marker marker start) λ u' rest. line_end rest

-- `take_until_consuming_matches0` with that closure, which clears both flags at its first call; a match
-- is tried again, and `unwrap()` panics if it fails then.
unfoldable pub heredoc_text : Bool → Bool → Bytes → Bytes → Bytes → Parsed Bytes
unfolding heredoc_end
heredoc_text first very_first marker buffer [] = elim (heredoc_end first very_first marker []) [
  | ok u rest ↦ elim (heredoc_end false false marker []) [
    | ok u' rest' ↦ ok buffer rest'
    | _ ↦ panic
  ]
  | err e ↦ ok buffer []
  | panic ↦ panic
  | endless ↦ endless
  | no_fuel ↦ no_fuel
]
heredoc_text first very_first marker buffer (unit ∷ input) =
    let later = heredoc_text false false marker (buffer ++ unit ∷ []) input in
    elim (heredoc_end first very_first marker (unit ∷ input)) [
      | ok u rest ↦ elim (heredoc_end false false marker (unit ∷ input)) [
        | ok u' rest' ↦ ok buffer rest'
        | _ ↦ panic
      ]
      | err e ↦ later
      | panic ↦ panic
      | endless ↦ endless
      | no_fuel ↦ no_fuel
    ]

-- The loop over the markers: the text of each goes to the store. The flags are set before the first
-- marker only.
unfoldable pub heredoc_loop :
    Bool → Bool → List HereDocMarker → List Bytes → Bytes → Parsed (List Bytes)
unfolding heredoc_text
heredoc_loop first very_first [] store input = ok store input
heredoc_loop first very_first (m ∷ markers) store input =
    Defs.and_then (heredoc_text first very_first m.marker [] input)
      λ text rest. heredoc_loop false false markers (set store m.heredoc text) rest

unfoldable pub parse_heredoc : Step (Unit {0})
unfolding heredoc_loop
parse_heredoc p input =
    and_then (p, heredoc_loop true true p.heredoc_markers p.heredocs input)
      λ store p' rest. (record p' { heredocs = store; heredoc_markers = [] }, ok tt rest)

abbrev pub is_empty : List HereDocMarker → Bool
is_empty [] = true
is_empty (m ∷ markers) = false

-- A round of `newline_list` behind the newline.
unfoldable pub after_newline : Step (Unit {0})
unfolding parse_heredoc ignore
after_newline p input =
    and_then (if is_empty p.heredoc_markers then (p, ok tt input) else parse_heredoc p input)
      λ u p' rest. (p', ignore rest)

-- The rounds behind the first. A round takes a byte at least.
unfoldable pub newline_loop : ℕ → Step (Unit {0})
unfolding newline after_newline
newline_loop zero p input = (p, no_fuel)
newline_loop (suc fuel) p input =
    attempt (p, newline input)
      (λ u p1 rest. and_then (after_newline p1 rest) λ u' p2 rest'. newline_loop fuel p2 rest')
      (λ p1. (p1, ok tt input))

unfoldable pub newline_list : Step (Unit {0})
unfolding newline after_newline newline_loop
newline_list p input =
    and_then (p, newline input)
      λ u p1 i1. and_then (after_newline p1 i1) λ u p2 i2. newline_loop (suc (length i2)) p2 i2

unfoldable pub linebreak : Step (Unit {0})
unfolding newline_list
linebreak p input = or_else (newline_list p input) λ p'. (p', ok tt input)

unfoldable pub separator_op : Bytes → Parsed (Unit {0})
unfolding is_one_of ignore
separator_op input =
    Defs.and_then (is_one_of (codes "&" ∷ codes ";" ∷ []) input) λ idx rest. ignore rest

unfoldable pub separator : Step (Unit {0})
unfolding separator_op linebreak newline_list
separator p input =
    or_else (and_then (p, separator_op input) λ u p' rest. linebreak p' rest)
      λ p'. newline_list p' input

unfoldable pub sequential_sep : Step (Unit {0})
unfolding is_token linebreak newline_list
sequential_sep p input =
    or_else (and_then (p, is_token (codes ";") input) λ u p' rest. linebreak p' rest)
      λ p'. newline_list p' input
