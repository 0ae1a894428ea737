-- ===== src/Posix/Echo/Escapes.antt =====
-- libmesabox/src/posix/echo.rs: what is written for texts without and with escapes.
use mesabox.Common.{
  ℕ, ◌≡◌, ◌≢◌, refl, sym, ap, ◌∙◌, true, false, List, [], ◌∷◌, ◌++◌, All, append-nil, append_assoc,
  arith,
}
use mesabox.Common.Bytes.{Bytes}
use mesabox.Posix.Echo.Defs.{
  backslash, newline, space, split, escape, map_bytes, map_pieces, map_escape, write_results,
  write_str, write_rest, execute, then_write, prepend, finished, found_c, End,
}

abbrev pub IsPlain : Bytes → Type 0
IsPlain s = All (λ b. b ≢ backslash) s

split-plain : (s : Bytes) → IsPlain s → split s ≡ (s, [])
unfolding split
split-plain [] h = refl
split-plain (b ∷ s) h = ground (arith, h.0, split-plain s h.1)

-- A text is cut at its first backslash.
split-first :
    (s rest : Bytes)
    → IsPlain s
    → split (s ++ backslash ∷ rest) ≡ (s, (split rest).0 ∷ (split rest).1)
unfolding split
split-first [] rest h = refl
split-first (b ∷ s) rest h = ground (arith, h.0, split-first s rest h.1)

write_str-plain : (s : Bytes) → IsPlain s → write_str s ≡ (s, finished)
unfolding write_str map_bytes
write_str-plain s h =
    rw (split-plain s h) (unfold map_pieces write_results in rw (append-nil s) refl)

-- The words, each behind a space, and a newline.
abbrev pub joined : List Bytes → Bytes
joined [] = newline ∷ []
joined (s ∷ args) = (space ∷ s) ++ joined args

write_rest-step :
    (s : Bytes) (args : List Bytes)
    → write_rest (s ∷ args) ≡ then_write (prepend (space ∷ []) (write_str s)) (write_rest args)
unfolding write_rest
write_rest-step s args = refl

write_rest-plain : (args : List Bytes) → All IsPlain args → write_rest args ≡ (joined args, true)
write_rest-plain [] h = unfold write_rest in refl
write_rest-plain (s ∷ args) h =
    write_rest-step s args ∙ rw (write_str-plain s h.0, write_rest-plain args h.1) refl

execute-step :
    (s : Bytes) (args : List Bytes)
    → execute (s ∷ args) ≡ then_write (write_str s) (write_rest args)
unfolding execute
execute-step s args = refl

-- Texts without a backslash are written as they are, with a space between them and a newline at
-- the end, and `echo` succeeds.
pub execute-plain :
    (s : Bytes) (args : List Bytes)
    → IsPlain s
    → All IsPlain args
    → execute (s ∷ args) ≡ (s ++ joined args, true)
execute-plain s args h hs =
    execute-step s args ∙ rw (write_str-plain s h, write_rest-plain args hs) refl

-- A letter that stands for a control character behind a backslash.
pub data Letter : Type 0 where
  bell backspace feed line carriage tab vertical : Letter

abbrev pub spelled : Letter → ℕ
spelled bell = b'a'
spelled backspace = b'b'
spelled feed = b'f'
spelled line = b'n'
spelled carriage = b'r'
spelled tab = b't'
spelled vertical = b'v'

abbrev pub control : Letter → ℕ
control bell = 7
control backspace = 8
control feed = 12
control line = 10
control carriage = 13
control tab = 9
control vertical = 11

map_escape-letter : (l : Letter) (s : Bytes) → map_escape (spelled l) s ≡ escape (control l) s
unfolding map_escape
map_escape-letter bell s = refl
map_escape-letter backspace s = refl
map_escape-letter feed s = refl
map_escape-letter line s = refl
map_escape-letter carriage s = refl
map_escape-letter tab s = refl
map_escape-letter vertical s = refl

-- A text of pieces, each behind a letter with its backslash, and `tail` behind them.
abbrev pub escaped : List (Letter × Bytes) → Bytes → Bytes
escaped [] tail = tail
escaped ((l, s) ∷ pieces) tail = backslash ∷ spelled l ∷ (s ++ escaped pieces tail)

-- What is written for it.
abbrev pub shown : List (Letter × Bytes) → Bytes
shown [] = []
shown ((l, s) ∷ pieces) = control l ∷ (s ++ shown pieces)

abbrev pub ArePlain : List (Letter × Bytes) → Type 0
ArePlain pieces = All (λ p. IsPlain p.1) pieces

-- Texts that are written in full, each with a space behind it.
abbrev pub spaced : List Bytes → Bytes
spaced [] = []
spaced (s ∷ args) = s ++ space ∷ spaced args

-- `\c` behind the pieces, and anything behind that.
abbrev pub stopped : List (Letter × Bytes) → Bytes → Bytes
stopped pieces rest = escaped pieces (backslash ∷ b'c' ∷ rest)

split-letter :
    (l : Letter) (s : Bytes) → split (spelled l ∷ s) ≡ (spelled l ∷ (split s).0, (split s).1)
unfolding split
split-letter bell s = refl
split-letter backspace s = refl
split-letter feed s = refl
split-letter line s = refl
split-letter carriage s = refl
split-letter tab s = refl
split-letter vertical s = refl

write_str-split :
    (s rest : Bytes)
    → IsPlain s
    → write_str (s ++ backslash ∷ rest)
      ≡ prepend s (write_results (map_pieces false ((split rest).0 ∷ (split rest).1)))
unfolding write_str map_bytes
write_str-split s rest h = rw (split-first s rest h) (unfold write_results in refl)

prepend-cons :
    (b : ℕ) (s : Bytes) (r : Bytes × End) → prepend (b ∷ s) r ≡ prepend (b ∷ []) (prepend s r)
prepend-cons b s (out, end) = refl

write_results-letter :
    (l : Letter) (s : Bytes)
    → write_results (map_pieces false ((split (spelled l ∷ s)).0 ∷ (split (spelled l ∷ s)).1))
      ≡ prepend (control l ∷ []) (write_str s)
unfolding write_str map_bytes map_pieces write_results
write_results-letter l s =
    rw (split-letter l s, map_escape-letter l (split s).0)
      (prepend-cons (control l) (split s).0 (write_results (map_pieces false (split s).1)))

write_str-stopped :
    (s : Bytes) (pieces : List (Letter × Bytes)) (rest : Bytes)
    → IsPlain s
    → ArePlain pieces
    → write_str (s ++ stopped pieces rest) ≡ (s ++ shown pieces, found_c)
write_str-stopped s [] rest h hs =
    write_str-split s (b'c' ∷ rest) h ∙ (unfold split map_pieces map_escape write_results in refl)
write_str-stopped s ((l, t) ∷ pieces) rest h hs =
    write_str-split s (spelled l ∷ (t ++ stopped pieces rest)) h
    ∙ ap (prepend s) (write_results-letter l (t ++ stopped pieces rest))
    ∙ ap (λ r. prepend s (prepend (control l ∷ []) r)) (write_str-stopped t pieces rest hs.0 hs.1)

write_rest-stopped :
    (before : List Bytes) (text out : Bytes) (after : List Bytes)
    → All IsPlain before
    → write_str text ≡ (out, found_c)
    → write_rest (before ++ text ∷ after) ≡ (space ∷ (spaced before ++ out), true)
write_rest-stopped [] text out after h e = write_rest-step text after ∙ rw e refl
write_rest-stopped (s ∷ before) text out after h e =
    write_rest-step s (before ++ text ∷ after)
    ∙ rw (write_str-plain s h.0, write_rest-stopped before text out after h.1 e)
        (ap (λ t. (space ∷ t, true)) (sym (append_assoc s (space ∷ spaced before) out)))

-- At the first `\c` the output ends, without the newline: behind arguments without a backslash, which are
-- written with a space behind each, and behind text and escapes of letters in the same argument, which are
-- written too, neither the rest of the argument nor any further argument is written, and `echo` succeeds.
pub execute-stop :
    (before : List Bytes) (s : Bytes) (pieces : List (Letter × Bytes)) (rest : Bytes)
    (after : List Bytes)
    → All IsPlain before
    → IsPlain s
    → ArePlain pieces
    → execute (before ++ (s ++ stopped pieces rest) ∷ after)
      ≡ (spaced before ++ (s ++ shown pieces), true)
execute-stop [] s pieces rest after hb h hs =
    execute-step (s ++ stopped pieces rest) after ∙ rw (write_str-stopped s pieces rest h hs) refl
execute-stop (b ∷ before) s pieces rest after hb h hs =
    execute-step b (before ++ (s ++ stopped pieces rest) ∷ after)
    ∙ rw
        (
          write_str-plain b hb.0,
          write_rest-stopped before (s ++ stopped pieces rest) (s ++ shown pieces) after hb.1
              (write_str-stopped s pieces rest h hs),
        )
        (ap (λ t. (t, true)) (sym (append_assoc b (space ∷ spaced before) (s ++ shown pieces))))

-- The state `found_backslash` is not asked where a piece has a first byte: after an escaped backslash the
-- text goes on as an escape, so `\\n` writes a backslash and a newline.
pub write_str-pair :
    (s rest : Bytes)
    → IsPlain s
    → IsPlain rest
    → write_str (s ++ backslash ∷ backslash ∷ b'n' ∷ rest)
      ≡ (s ++ backslash ∷ newline ∷ rest, finished)
unfolding write_str map_bytes
write_str-pair s rest h hr = rw (split-first s (backslash ∷ b'n' ∷ rest) h) (
    unfold split map_pieces map_escape write_results in
    rw (split-plain rest hr, append-nil rest) refl)
