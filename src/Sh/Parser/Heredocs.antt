-- ===== src/Sh/Parser/Heredocs.antt =====
-- The texts of here-documents (parse_heredoc of libmesabox/src/posix/sh/parser.rs).
use mesabox.Common.{
  ℕ, Bool, true, false, ◌≡◌, refl, ap, sym, ◌∙◌, some, [], ◌∷◌, ◌++◌, append-nil, append_assoc,
  arith, set, not, ◌&&◌,
}
use mesabox.Common.Bytes.{Bytes}
use mesabox.Sh.Parser.Defs.{Errors, ok, err, strip, is_heredoc_marker}
use mesabox.Sh.Parser.State.{HereDocMarker, Parser}
use mesabox.Sh.Parser.Lines.{line_end, heredoc_end, heredoc_text, heredoc_loop, parse_heredoc}

strip-append : (v rest : Bytes) → strip v (v ++ rest) ≡ some rest
unfolding strip
strip-append [] rest = refl
strip-append (c ∷ v) rest = ground (arith, strip-append v rest)

-- The marker and a newline.
abbrev pub marker_line : Bytes → Bytes → Bytes
marker_line marker rest = marker ++ b'\n' ∷ rest

heredoc_end-marker :
    (marker rest : Bytes) → heredoc_end false false marker (marker_line marker rest) ≡ ok tt rest
unfolding heredoc_end is_heredoc_marker line_end
heredoc_end-marker marker rest = ground (arith, strip-append marker (b'\n' ∷ rest))

-- No newline is asked for.
heredoc_end-flags :
    (first very_first : Bool) (marker input : Bytes)
    → (first && not very_first) ≡ false
    → heredoc_end first very_first marker input ≡ heredoc_end false false marker input
unfolding heredoc_end
heredoc_end-flags first very_first marker input h = rw h refl

-- The marker and the end of a line do not stand at any place of the text.
abbrev pub IsText : Bytes → Bytes → Bytes → Type 0
IsText marker [] rest = Unit
IsText marker (c ∷ s) rest =
    ((e : Errors) × (heredoc_end false false marker (c ∷ s ++ rest) ≡ err e)) × IsText marker s rest

heredoc_text_now :
    (first very_first : Bool) (marker buffer input rest : Bytes)
    → heredoc_end first very_first marker input ≡ ok tt rest
    → heredoc_end false false marker input ≡ ok tt rest
    → heredoc_text first very_first marker buffer input ≡ ok buffer rest
unfolding heredoc_text
heredoc_text_now first very_first marker buffer [] rest h k = ground (arith, h, k)
heredoc_text_now first very_first marker buffer (c ∷ input) rest h k = ground (arith, h, k)

heredoc_text_later :
    (first very_first : Bool) (marker buffer : Bytes) (c : ℕ) (input : Bytes) (e : Errors)
    → heredoc_end first very_first marker (c ∷ input) ≡ err e
    → heredoc_text first very_first marker buffer (c ∷ input)
      ≡ heredoc_text false false marker (buffer ++ c ∷ []) input
unfolding heredoc_text
heredoc_text_later first very_first marker buffer c input e h = ground (arith, h)

heredoc_text-found :
    (first very_first : Bool) (marker buffer text rest : Bytes)
    → (first && not very_first) ≡ false
    → IsText marker text (marker_line marker rest)
    → heredoc_text first very_first marker buffer (text ++ marker_line marker rest)
      ≡ ok (buffer ++ text) rest
unfolding heredoc_text
heredoc_text-found first very_first marker buffer [] rest h k =
    heredoc_text_now first very_first marker buffer (marker_line marker rest) rest
      (heredoc_end-flags first very_first marker (marker_line marker rest) h
        ∙ heredoc_end-marker marker rest)
      (heredoc_end-marker marker rest)
    ∙ ap (λ b. ok b rest) (sym (append-nil buffer))
heredoc_text-found first very_first marker buffer (c ∷ text) rest h ((e, at_c), k) =
    heredoc_text_later first very_first marker buffer c (text ++ marker_line marker rest) e
      (heredoc_end-flags first very_first marker (c ∷ text ++ marker_line marker rest) h ∙ at_c)
    ∙ heredoc_text-found false false marker (buffer ++ c ∷ []) text rest refl k
    ∙ ap (λ b. ok b rest) (append_assoc buffer (c ∷ []) text)

module _ (p : Parser) (m : HereDocMarker) where
  -- If one here-document waits for its text, that text is all that stands before the first place where
  -- its marker is followed by the end of a line: it goes to the store, the marker is done with, and the
  -- parse goes on behind that line. The place need not be at the start of a line.
  pub parse_heredoc-one :
      (text rest : Bytes)
      → IsText m.marker text (marker_line m.marker rest)
      → p.heredoc_markers ≡ m ∷ []
      → parse_heredoc p (text ++ marker_line m.marker rest)
        ≡ (record p { heredocs = set p.heredocs m.heredoc text; heredoc_markers = [] }, ok tt rest)
  unfolding parse_heredoc heredoc_loop
  parse_heredoc-one text rest k e =
      rw (e, heredoc_text-found true true m.marker [] text rest refl k) refl
