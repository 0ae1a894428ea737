-- ===== src/Sh/Parser/Progress/Redirect.antt =====
-- Redirections of libmesabox/src/posix/sh/parser.rs, and lists of what one parser reads.
use mesabox.Common.{
  ◌≡◌, ℕ, zero, suc, ◌+◌, ◌<◌, Bool, Option, none, some, List, [], ◌∷◌, ◌++◌, length, length-append,
  get_elem?, All, refl, arith,
}
use mesabox.Common.Bytes.{Bytes, codes}
use mesabox.Sh.Ast.Redirects.{IoRedirectKind, IoRedirectFile, IoRedirect, file, heredoc}
use mesabox.Sh.Parser.Defs.{ok, panic, is_next, is_one_of}
use mesabox.Sh.Parser.Space.{ignore}
use mesabox.Sh.Parser.Names.{name, io_number}
use mesabox.Sh.Parser.State.{HereDocMarker, Parser, Step}
use mesabox.Sh.Parser.Redirect.{
  str_table, kind_table, here_end, add_heredoc, skip_dash, io_here, io_file, io_redirect, many_loop,
  many_matches0, many_matches1,
}
use mesabox.Sh.Parser.Progress.Base.{
  Within, Extends, Keeps, Left-refl, and_then-Within, or_else-Within, and_then-Keeps, or_else-Keeps,
  attempt-Keeps, lift-Keeps, ok-Keeps,
}
use mesabox.Sh.Parser.Progress.Space.{is_next-Within, is_one_of-Within, ignore-Within}
use mesabox.Sh.Parser.Progress.Names.{name-Within, io_number-Within}

-- The markers stay valid when the store grows, and the new one is too.
markers_grow :
    (n : ℕ) (m : HereDocMarker) (ms : List HereDocMarker)
    → m.heredoc ≡ n
    → All (λ k. k.heredoc < n) ms
    → All (λ k. k.heredoc < n + 1) (ms ++ m ∷ [])
markers_grow n m [] e h = (omega arith, tt)
markers_grow n m (k ∷ ms) e h = (omega arith, markers_grow n m ms e h.1)

add_heredoc-Extends :
    (delim : Bytes) (dash : Bool) (p : Parser) → Extends p (add_heredoc delim dash p)
unfolding add_heredoc
add_heredoc-Extends delim dash p =
    let longer : length (p.heredocs ++ [] ∷ []) ≡ length p.heredocs + 1 =
      omega (arith, length-append p.heredocs ([] ∷ [])) in
    (
      omega arith,
      (λ v. rw longer (markers_grow (length p.heredocs) _ p.heredoc_markers refl v)),
      refl,
    )

skip_dash-Within : (input : Bytes) → Within 0 input (skip_dash input)
unfolding skip_dash
skip_dash-Within input =
    or_else-Within 0 input _ _
      (and_then-Within 1 0 0 input (is_next (codes "-") input) _ (omega arith)
        (is_next-Within (codes "-") input (omega arith)) (λ u rest h. Left-refl rest))
      (Left-refl input)

io_here-Keeps : (p : Parser) (input : Bytes) → Keeps 1 p input (io_here p input)
unfolding io_here here_end
io_here-Keeps p input =
    and_then-Keeps 1 0 1 p input (p, is_next (codes "<<") input) _ (omega arith)
      (lift-Keeps 1 p input _ (is_next-Within (codes "<<") input (omega arith)))
      (λ u p1 i1 le1.
        and_then-Keeps 0 0 0 p1 i1 (p1, skip_dash i1) _ (omega arith)
          (lift-Keeps 0 p1 i1 _ (skip_dash-Within i1))
          (λ dash p2 i2 le2.
            and_then-Keeps 0 0 0 p2 i2 (p2, ignore i2) _ (omega arith)
              (lift-Keeps 0 p2 i2 _ (ignore-Within i2))
              (λ u p3 i3 le3.
                and_then-Keeps 1 0 0 p3 i3 (p3, name i3) _ (omega arith)
                  (lift-Keeps 1 p3 i3 _ (name-Within i3))
                  (λ delim p4 i4 le4. (add_heredoc-Extends delim dash p4, Left-refl i4)))))

module _ {A : Type 0} (func : Step A) (bound : ℕ)
    (good : (p : Parser) (i : Bytes) → length i < bound → Keeps 1 p i (func p i)) where
  many_loop-Keeps :
      (fuel : ℕ) (result : List A) (p : Parser) (input : Bytes)
      → length input < fuel
      → length input < bound
      → Keeps 0 p input (many_loop func fuel result p input)
  unfolding many_loop
  many_loop-Keeps zero result p input h b = absurd (omega arith)
  many_loop-Keeps (suc fuel) result p input h b =
      attempt-Keeps 1 0 0 p input (func p input) _ _ (omega arith) (good p input b)
        (λ value p1 i1 le.
          many_loop-Keeps fuel (result ++ value ∷ []) p1 i1 (omega arith) (omega arith))
        (λ p1. ok-Keeps p1 input result)

  pub many_matches0-Keeps :
      (p : Parser) (input : Bytes)
      → length input < bound
      → Keeps 0 p input (many_matches0 func p input)
  unfolding many_matches0
  many_matches0-Keeps p input b = many_loop-Keeps (suc (length input)) [] p input (omega arith) b

  pub many_matches1-Keeps :
      (p : Parser) (input : Bytes)
      → length input < bound
      → Keeps 1 p input (many_matches1 func p input)
  unfolding many_matches1
  many_matches1-Keeps p input b =
      and_then-Keeps 1 0 1 p input (func p input) _ (omega arith) (good p input b)
        (λ value p1 i1 le.
          many_loop-Keeps (suc (length i1)) (value ∷ []) p1 i1 (omega arith) (omega arith))

module _ {W : Type 0} (word : Step W) (bound : ℕ)
    (words : (p : Parser) (i : Bytes) → length i < bound → Keeps 1 p i (word p i)) where
  io_file-Keeps :
      (p : Parser) (input : Bytes) → length input < bound → Keeps 1 p input (io_file word p input)
  unfolding io_file
  io_file-Keeps p input b =
      and_then-Keeps 1 0 1 p input (p, is_one_of str_table input) _ (omega arith)
        (lift-Keeps 1 p input _ (is_one_of-Within str_table input (omega arith)))
        (λ idx p1 i1 le1.
          and_then-Keeps 1 0 0 p1 i1 (word p1 i1) _ (omega arith) (words p1 i1 (omega arith))
            (λ w p2 i2 le2. kind_step w p2 i2 (get_elem? kind_table idx)))
    where
      kind_step :
          (w : W) (p2 : Parser) (i2 : Bytes) (k : Option IoRedirectKind)
          → Keeps {A = IoRedirectFile W} 0 p2 i2 (elim k [
            | some k ↦ (p2, ok (record { filename = w; kind = k }) i2)
            | none ↦ (p2, panic)
          ])
      kind_step w p2 i2 none = lift-Keeps {A = IoRedirectFile W} 0 p2 i2 panic tt
      kind_step w p2 i2 (some k) =
          ok-Keeps {A = IoRedirectFile W} p2 i2 (record { filename = w; kind = k })

  pub io_redirect-Keeps :
      (p : Parser) (input : Bytes)
      → length input < bound
      → Keeps 1 p input (io_redirect word p input)
  unfolding io_redirect
  io_redirect-Keeps p input b =
      and_then-Keeps 0 1 1 p input _ _ (omega arith)
        (lift-Keeps 0 p input _ (
          or_else-Within 0 input _ _
            (and_then-Within 1 0 0 input (io_number input) _ (omega arith) (io_number-Within input)
              (λ n rest le. Left-refl rest))
            (Left-refl input)))
        (λ num p1 i1 le1.
          or_else-Keeps 1 p1 i1 _ _
            (and_then-Keeps 1 0 1 p1 i1 _ _ (omega arith) (io_file-Keeps p1 i1 (omega arith))
              (λ f p2 i2 le2. ok-Keeps {A = IoRedirect W} p2 i2 (file num f)))
            (λ p2.
              and_then-Keeps 1 0 1 p2 i1 _ _ (omega arith) (io_here-Keeps p2 i1)
                (λ h p3 i3 le3. ok-Keeps {A = IoRedirect W} p3 i3 (heredoc num h))))
