-- ===== src/Sh/Parser/Progress/Lines.antt =====
-- Here-documents, line breaks and separators of libmesabox/src/posix/sh/parser.rs.
use mesabox.Common.{
  ℕ, zero, suc, ◌<◌, Bool, true, false, not, ◌&&◌, List, [], ◌∷◌, ◌++◌, length, set, ◌≡◌, refl, ◌∙◌,
  if◌then◌else◌, arith,
}
use mesabox.Common.Bytes.{Bytes, codes}
use mesabox.Sh.Parser.Defs
use mesabox.Sh.Parser.Defs.{Parsed, ok, err, panic, endless, no_fuel, is_heredoc_marker, is_one_of}
use mesabox.Sh.Parser.Space.{newline, ignore, is_token}
use mesabox.Sh.Parser.State
use mesabox.Sh.Parser.State.{HereDocMarker, Parser}
use mesabox.Sh.Parser.Lines.{
  is_empty, line_end, heredoc_end, heredoc_text, heredoc_loop, parse_heredoc, after_newline,
  newline_loop, newline_list, linebreak, separator_op, separator, sequential_sep,
}
use mesabox.Sh.Parser.Progress.Base.{
  Within, Keeps, Left-refl, Extends-refl, extend-Within, and_then-Within, weaken-Within,
  and_then-Keeps, or_else-Keeps, attempt-Keeps, lift-Keeps, ok-Keeps, weaken-Keeps,
}
use mesabox.Sh.Parser.Progress.Space.{
  is_one_of-Within, is_token-Within, newline-Within, ignore-Within, is_heredoc_marker-Within_any,
}

line_end-Within : (input : Bytes) → Within 0 input (line_end input)
unfolding line_end
line_end-Within [] = Left-refl []
line_end-Within (c ∷ input) =
    weaken-Within 1 0 (c ∷ input) (newline (c ∷ input)) (omega arith) (newline-Within (c ∷ input))

abbrev start : Bool → Bytes → Parsed (Unit {0})
start b input = if b then newline input else ok tt input

start-Within : (b : Bool) (input : Bytes) → Within 0 input (start b input)
start-Within true input =
    weaken-Within 1 0 input (newline input) (omega arith) (newline-Within input)
start-Within false input = Left-refl input

heredoc_end-Within :
    (first very_first : Bool) (marker input : Bytes)
    → Within 0 input (heredoc_end first very_first marker input)
unfolding heredoc_end
heredoc_end-Within first very_first marker input =
    and_then-Within 0 0 0 input (start (first && not very_first) input)
      (λ u i. Defs.and_then (is_heredoc_marker marker i) λ u' rest. line_end rest) (omega arith)
      (start-Within (first && not very_first) input)
      (λ u i h.
        and_then-Within 0 0 0 i (is_heredoc_marker marker i) (λ u' rest. line_end rest)
          (omega arith) (is_heredoc_marker-Within_any marker i)
          (λ u' rest h'. line_end-Within rest))

-- A match that is tried again.
again-Within :
    (buffer input : Bytes) (r : Parsed (Unit {0}))
    → Within 0 input r
    → Within 0 input (elim r [ ok u rest ↦ ok buffer rest | _ ↦ panic ])
again-Within buffer input (ok u rest) w = w
again-Within buffer input (err e) w = tt
again-Within buffer input panic w = tt
again-Within buffer input endless w = tt
again-Within buffer input no_fuel w = tt

-- A round of the loop, with the result of a match that is tried again and of the rounds to come.
round-Within :
    (input : Bytes) (r : Parsed (Unit {0})) (matched later : Parsed Bytes)
    → Within 0 input r
    → Within 0 input matched
    → Within 0 input later
    → Within 0 input (elim r [
      | ok u rest ↦ matched
      | err e ↦ later
      | panic ↦ panic
      | endless ↦ endless
      | no_fuel ↦ no_fuel
    ])
round-Within input (ok u rest) matched later w v l = v
round-Within input (err e) matched later w v l = l
round-Within input panic matched later w v l = tt
round-Within input endless matched later w v l = tt
round-Within input no_fuel matched later w v l = w

heredoc_text-Within :
    (first very_first : Bool) (marker buffer input : Bytes)
    → Within 0 input (heredoc_text first very_first marker buffer input)
unfolding heredoc_text
heredoc_text-Within first very_first marker buffer [] =
    round-Within [] (heredoc_end first very_first marker []) _ (ok buffer [])
      (heredoc_end-Within first very_first marker [])
      (again-Within buffer [] (heredoc_end false false marker [])
        (heredoc_end-Within false false marker []))
      (Left-refl [])
heredoc_text-Within first very_first marker buffer (c ∷ input) =
    round-Within (c ∷ input) (heredoc_end first very_first marker (c ∷ input)) _
      (heredoc_text false false marker (buffer ++ c ∷ []) input)
      (heredoc_end-Within first very_first marker (c ∷ input))
      (again-Within buffer (c ∷ input) (heredoc_end false false marker (c ∷ input))
        (heredoc_end-Within false false marker (c ∷ input)))
      (extend-Within 1 0 0 input (c ∷ input)
        (heredoc_text false false marker (buffer ++ c ∷ []) input) (omega arith)
        (c ∷ [], refl, omega arith)
        (heredoc_text-Within false false marker (buffer ++ c ∷ []) input))

length-set {ℓ} : {A : Type ℓ} (xs : List A) (i : ℕ) (v : A) → length (set xs i v) ≡ length xs
length-set [] i v = refl
length-set (x ∷ xs) zero v = refl
length-set (x ∷ xs) (suc i) v = omega (arith, length-set xs i v)

-- The store keeps its length.
abbrev SameLength : List Bytes → Parsed (List Bytes) → Type 0
SameLength store (ok store' rest) = length store' ≡ length store
SameLength store _ = Unit {0}

heredoc_loop-Within :
    (first very_first : Bool) (markers : List HereDocMarker) (store : List Bytes) (input : Bytes)
    → Within 0 input (heredoc_loop first very_first markers store input)
      × SameLength store (heredoc_loop first very_first markers store input)
unfolding heredoc_loop
heredoc_loop-Within first very_first [] store input = (Left-refl input, refl)
heredoc_loop-Within first very_first (m ∷ markers) store input =
    loop_step (heredoc_text first very_first m.marker [] input)
      (heredoc_text-Within first very_first m.marker [] input)
      (λ text rest. heredoc_loop-Within false false markers (set store m.heredoc text) rest)
  where
    next : Bytes → Bytes → Parsed (List Bytes)
    next text rest = heredoc_loop false false markers (set store m.heredoc text) rest

    same :
        (text : Bytes) (r : Parsed (List Bytes))
        → SameLength (set store m.heredoc text) r
        → SameLength store r
    same text (ok s rest) h = h ∙ length-set store m.heredoc text
    same text (err e) h = tt
    same text panic h = tt
    same text endless h = tt
    same text no_fuel h = tt

    loop_step :
        (r : Parsed Bytes)
        → Within 0 input r
        → ((text rest : Bytes)
            → Within 0 rest (next text rest)
              × SameLength (set store m.heredoc text) (next text rest))
        → Within 0 input (Defs.and_then r next) × SameLength store (Defs.and_then r next)
    loop_step (ok text rest) w later = (
      extend-Within 0 0 0 rest input (next text rest) (omega arith) w (later text rest).0,
      same text (next text rest) (later text rest).1,
    )
    loop_step (err e) w later = (tt, tt)
    loop_step panic w later = (tt, tt)
    loop_step endless w later = (tt, tt)
    loop_step no_fuel w later = (w, tt)

pub parse_heredoc-Keeps : (p : Parser) (input : Bytes) → Keeps 0 p input (parse_heredoc p input)
unfolding parse_heredoc
parse_heredoc-Keeps p input =
    store_step (heredoc_loop true true p.heredoc_markers p.heredocs input)
      (heredoc_loop-Within true true p.heredoc_markers p.heredocs input)
  where
    store_step :
        (r : Parsed (List Bytes))
        → Within 0 input r × SameLength p.heredocs r
        → Keeps 0 p input (
            State.and_then
              (p, r)
              λ store p' rest. (record p' { heredocs = store; heredoc_markers = [] }, ok tt rest))
    store_step (ok store rest) (w, e) = ((omega (arith, e), (λ v. tt), refl), w)
    store_step (err e') h = (Extends-refl p, tt)
    store_step panic h = (Extends-refl p, tt)
    store_step endless h = (Extends-refl p, tt)
    store_step no_fuel h = (Extends-refl p, h.0)

after_newline-Keeps : (p : Parser) (input : Bytes) → Keeps 0 p input (after_newline p input)
unfolding after_newline
after_newline-Keeps p input =
    and_then-Keeps 0 0 0 p input
      (if is_empty p.heredoc_markers then (p, ok tt input) else parse_heredoc p input)
      (λ u p' rest. (p', ignore rest)) (omega arith) (text_step (is_empty p.heredoc_markers))
      (λ u p' rest h. lift-Keeps 0 p' rest (ignore rest) (ignore-Within rest))
  where
    text_step : (b : Bool) → Keeps 0 p input (if b then (p, ok tt input) else parse_heredoc p input)
    text_step true = ok-Keeps p input tt
    text_step false = parse_heredoc-Keeps p input

newline_loop-Keeps :
    (fuel : ℕ) (p : Parser) (input : Bytes)
    → length input < fuel
    → Keeps 0 p input (newline_loop fuel p input)
unfolding newline_loop
newline_loop-Keeps zero p input h = absurd (omega arith)
newline_loop-Keeps (suc fuel) p input h =
    attempt-Keeps 1 0 0 p input (p, newline input)
      (λ u p1 rest.
        State.and_then (after_newline p1 rest) λ u' p2 rest'. newline_loop fuel p2 rest')
      (λ p1. (p1, ok tt input)) (omega arith)
      (lift-Keeps 1 p input (newline input) (newline-Within input))
      (λ u p1 i1 h1.
        and_then-Keeps 0 0 0 p1 i1 (after_newline p1 i1) (λ u' p2 rest'. newline_loop fuel p2 rest')
          (omega arith) (after_newline-Keeps p1 i1)
          (λ u' p2 i2 h2. newline_loop-Keeps fuel p2 i2 (omega arith)))
      (λ p1. ok-Keeps p1 input tt)

pub newline_list-Keeps : (p : Parser) (input : Bytes) → Keeps 1 p input (newline_list p input)
unfolding newline_list
newline_list-Keeps p input =
    and_then-Keeps 1 0 1 p input (p, newline input) _ (omega arith)
      (lift-Keeps 1 p input (newline input) (newline-Within input))
      (λ u p1 i1 h1.
        and_then-Keeps 0 0 0 p1 i1 (after_newline p1 i1) _ (omega arith) (after_newline-Keeps p1 i1)
          (λ u' p2 i2 h2. newline_loop-Keeps (suc (length i2)) p2 i2 (omega arith)))

pub linebreak-Keeps : (p : Parser) (input : Bytes) → Keeps 0 p input (linebreak p input)
unfolding linebreak
linebreak-Keeps p input =
    or_else-Keeps 0 p input (newline_list p input) _
      (weaken-Keeps 1 0 p input (newline_list p input) (omega arith) (newline_list-Keeps p input))
      (λ p'. ok-Keeps p' input tt)

pub separator_op-Within : (input : Bytes) → Within 1 input (separator_op input)
unfolding separator_op
separator_op-Within input =
    and_then-Within 1 0 1 input (is_one_of (codes "&" ∷ codes ";" ∷ []) input)
      (λ idx rest. ignore rest) (omega arith)
      (is_one_of-Within (codes "&" ∷ codes ";" ∷ []) input (omega arith))
      (λ idx rest h. ignore-Within rest)

-- A separator with a line break behind it, or line breaks alone.
break_after :
    (p : Parser) (input : Bytes) (r : Parsed (Unit {0}))
    → Within 1 input r
    → Keeps 1 p input (
        State.or_else
          (State.and_then (p, r) λ u p' rest. linebreak p' rest)
          λ p'. newline_list p' input)
break_after p input r w =
    or_else-Keeps 1 p input _ _
      (and_then-Keeps 1 0 1 p input (p, r) _ (omega arith) (lift-Keeps 1 p input r w)
        (λ u p' rest h. linebreak-Keeps p' rest))
      (λ p'. newline_list-Keeps p' input)

pub separator-Keeps : (p : Parser) (input : Bytes) → Keeps 1 p input (separator p input)
unfolding separator
separator-Keeps p input = break_after p input (separator_op input) (separator_op-Within input)

pub sequential_sep-Keeps : (p : Parser) (input : Bytes) → Keeps 1 p input (sequential_sep p input)
unfolding sequential_sep
sequential_sep-Keeps p input =
    break_after p input (is_token (codes ";") input)
      (is_token-Within (codes ";") input (omega arith))
