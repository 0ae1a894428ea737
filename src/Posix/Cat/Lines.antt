-- ===== src/Posix/Cat/Lines.antt =====
-- libmesabox/src/posix/cat.rs: the three writers of a line.
use mesabox.Common.{
  ℕ, zero, suc, ◌+◌, ◌<◌, ◌≡◌, refl, ap, ◌∙◌, true, false, Option, none, some, [], ◌∷◌, ◌++◌,
  length, take, drop, ◌==◌, ◌>>=◌, arith, Bool-cases, inl, inr, if◌then◌else◌,
}
use mesabox.Common.Bytes.{Bytes, codes}
use mesabox.Posix.Cat.Defs.{
  newline, tab_byte, OutputOptions, find_special, write_to_end, tab_loop, write_tab_to_end,
  nonprint, write_nonprint_to_end, write_line,
}

-- An offset in a longer text: 0 stands for no newline.
abbrev pub shifted : ℕ → ℕ → ℕ
shifted n offset = if offset == 0 then 0 else n + offset

-- What is written up to the first newline, and the bytes that are taken, the newline included.
unfoldable pub until : (ℕ → Bytes) → Bytes → Bytes × ℕ
until render [] = ([], 0)
until render (b ∷ s) =
    let later = until render s in
    if b == newline then ([], 1) else (render b ++ later.0, shifted 1 later.1)

abbrev pub as_is : ℕ → Bytes
as_is b = b ∷ []

-- What a byte that is no newline is written as.
unfoldable pub render : OutputOptions → ℕ → Bytes
unfolding nonprint
render o b =
    if o.show_nonprint
    then nonprint o.tab b
    else if o.show_tabs
    then (if b == tab_byte then codes "^I" else as_is b)
    else as_is b

write_to_end-until : (s : Bytes) → write_to_end s ≡ until as_is s
unfolding write_to_end until
write_to_end-until [] = refl
write_to_end-until (b ∷ s) = ground (arith, write_to_end-until s)

write_nonprint_to_end-until :
    (i : ℕ) (tab s : Bytes)
    → write_nonprint_to_end i tab s
      ≡ ((until (nonprint tab) s).0, shifted i (until (nonprint tab) s).1)
unfolding write_nonprint_to_end until
write_nonprint_to_end-until i tab [] = refl
write_nonprint_to_end-until i tab (b ∷ s) =
    ground (arith, write_nonprint_to_end-until (suc i) tab s)

abbrev caret : ℕ → Bytes
caret b = if b == tab_byte then codes "^I" else as_is b

pub until-newline :
    (f : ℕ → Bytes) (b : ℕ) (s : Bytes) → (b == newline) ≡ true → until f (b ∷ s) ≡ ([], 1)
unfolding until
until-newline f b s h = rw h refl

pub until-other :
    (f : ℕ → Bytes) (b : ℕ) (s : Bytes)
    → (b == newline) ≡ false
    → until f (b ∷ s) ≡ (f b ++ (until f s).0, shifted 1 (until f s).1)
unfolding until
until-other f b s h = rw h refl

shifted-shifted : (n k : ℕ) → shifted n (shifted 1 k) ≡ shifted (suc n) k
shifted-shifted n k = ground arith

tab_loop-newline :
    (fuel count b : ℕ) (s : Bytes)
    → (b == newline) ≡ true
    → tab_loop (suc fuel) count (b ∷ s) ≡ some ([], 1 + count)
unfolding tab_loop
tab_loop-newline fuel count b s h = rw (h, tab_loop, h) refl

tab_loop-tab :
    (fuel count b : ℕ) (s : Bytes)
    → (b == newline) ≡ false
    → (b == tab_byte) ≡ true
    → tab_loop (suc fuel) count (b ∷ s)
      ≡ (tab_loop fuel (count + 0 + 1) s >>= λ r. some (codes "^I" ++ r.0, r.1))
unfolding tab_loop
tab_loop-tab fuel count b s h t = rw (h, t, tab_loop, h) refl

tab_loop-other :
    (fuel count b : ℕ) (s : Bytes)
    → (b == newline) ≡ false
    → (b == tab_byte) ≡ false
    → tab_loop (suc fuel) count (b ∷ s)
      ≡ (tab_loop (suc fuel) (suc count) s >>= λ r. some (b ∷ r.0, r.1))
unfolding tab_loop
tab_loop-other fuel count b s hn ht = go (find_special s) refl
  where
    joined :
        (t : Bytes) (m : Option (Bytes × ℕ))
        → ◌>>=◌ {B = Bytes × ℕ} m (λ r. some (b ∷ t ++ codes "^I" ++ r.0, r.1))
          ≡ ◌>>=◌ {B = Bytes × ℕ}
              (◌>>=◌ {B = Bytes × ℕ} m (λ r. some (t ++ codes "^I" ++ r.0, r.1)))
              (λ r. some (b ∷ r.0, r.1))
    joined t none = refl
    joined t (some r) = refl

    go :
        (r : Option (ℕ × ℕ))
        → find_special s ≡ r
        → tab_loop (suc fuel) count (b ∷ s)
          ≡ (tab_loop (suc fuel) (suc count) s >>= λ r. some (b ∷ r.0, r.1))
    go none h = rw (hn, ht, h, tab_loop) refl
    go (some (p, c)) h =
        let e : count + suc p + 1 ≡ suc count + p + 1 = omega arith in
        let e2 : suc p + 1 ≡ suc (p + 1) = omega arith in
        elim (Bool-cases (c == newline)) [
          | inl n ↦ rw (hn, ht, h, tab_loop, n) (ap (λ k. some (b ∷ take p s, k)) (omega arith))
          | inr n ↦
              rw (hn, ht, h, tab_loop, n)
                (rw (e, e2)
                  (joined (take p s) (tab_loop fuel (suc count + p + 1) (drop (p + 1) s))))
        ]

tab_loop-until :
    (fuel count : ℕ) (s : Bytes)
    → length s < fuel
    → tab_loop fuel count s ≡ some ((until caret s).0, shifted count (until caret s).1)
tab_loop-until zero count s h = absurd (omega arith)
tab_loop-until (suc fuel) count [] h = unfold tab_loop until in refl
tab_loop-until (suc fuel) count (b ∷ s) h = elim (Bool-cases (b == newline)) [
  | inl n ↦
      tab_loop-newline fuel count b s n
      ∙ rw (until-newline caret b s n) (ap (λ k. some ([], k)) (omega arith))
  | inr n ↦ elim (Bool-cases (b == tab_byte)) [
    | inl t ↦
        let e : count + 0 + 1 ≡ suc count = omega arith in
        tab_loop-tab fuel count b s n t
        ∙ rw
            (
              e,
              tab_loop-until fuel (suc count) s (omega arith),
              until-other caret b s n,
              t,
              shifted-shifted count (until caret s).1,
            )
            refl
    | inr t ↦
        tab_loop-other fuel count b s n t
        ∙ rw (tab_loop-until (suc fuel) (suc count) s (omega arith))
            (rw (until-other caret b s n, t, shifted-shifted count (until caret s).1) refl)
  ]
]

render-nonprint : (o : OutputOptions) → o.show_nonprint ≡ true → render o ≡ nonprint o.tab
unfolding render
render-nonprint o h = rw h refl

render-caret : (o : OutputOptions) → o.show_nonprint ≡ false → o.show_tabs ≡ true → render o ≡ caret
unfolding render
render-caret o h t = rw (h, t) refl

render-as_is :
    (o : OutputOptions) → o.show_nonprint ≡ false → o.show_tabs ≡ false → render o ≡ as_is
unfolding render
render-as_is o h t = rw (h, t) refl

shifted_zero : (n : ℕ) → shifted 0 n ≡ n
shifted_zero n = ground arith

-- Each of the three writers writes byte by byte up to the first newline.
pub write_line-until : (o : OutputOptions) (s : Bytes) → write_line o s ≡ some (until (render o) s)
unfolding write_line
write_line-until o s = elim (Bool-cases o.show_nonprint) [
  | inl n ↦
      rw
        (
          render-nonprint o n,
          n,
          write_nonprint_to_end-until 0 o.tab s,
          shifted_zero (until (nonprint o.tab) s).1,
        )
        refl
  | inr n ↦ elim (Bool-cases o.show_tabs) [
    | inl t ↦
        rw (render-caret o n t, n, t)
          (unfold write_tab_to_end in
            (tab_loop-until (suc (length s)) 0 s (omega arith)
              ∙ rw (shifted_zero (until caret s).1) refl))
    | inr t ↦ rw (render-as_is o n t, n, t, write_to_end-until s) refl
  ]
]
