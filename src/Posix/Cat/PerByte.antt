-- ===== src/Posix/Cat/PerByte.antt =====
-- libmesabox/src/posix/cat.rs: what is written when a file is taken byte by byte.
use mesabox.Common.{
  ℕ, zero, suc, ◌<◌, ◌≡◌, refl, ◌∙◌, true, false, not, ◌&&◌, [], ◌∷◌, ◌++◌, append_assoc, drop,
  ◌==◌, arith, Bool-cases, inl, inr, if◌then◌else◌,
}
use mesabox.Common.Bytes.{Bytes}
use mesabox.Posix.Cat.Defs.{newline, OutputOptions, OutputState, is_all, is_none, numbered, started}
use mesabox.Posix.Cat.Lines.{until, until-newline, until-other, render, shifted}

-- What each byte writes, whatever is around it.
unfoldable pub write_byte : OutputOptions → OutputState → ℕ → Bytes × OutputState
unfolding render
write_byte o st b =
    let (blank_number, blank_st) = numbered (st.at_line_start && is_all o.number) st in
    let (number, line_st) = numbered (st.at_line_start && not (is_none o.number)) st in
    if b == newline
    then (blank_number ++ o.end_of_line, started blank_st)
    else (number ++ render o b, record line_st { at_line_start = false })

unfoldable pub write_bytes : OutputOptions → OutputState → Bytes → Bytes × OutputState
unfolding write_byte
write_bytes o st [] = ([], st)
write_bytes o st (b ∷ s) =
    let (out, st') = write_byte o st b in
    let (later, st'') = write_bytes o st' s in (out ++ later, st'')

-- Inside a line: up to its newline, and then the next line, if the newline is there.
pub after_until : OutputOptions → OutputState → Bytes → Bytes × ℕ → Bytes × OutputState
unfolding write_bytes
after_until o st s (out, offset) =
    let (later, st') = write_bytes o (started st) (drop offset s) in
    if offset == 0 then (out, st) else (out ++ o.end_of_line ++ later, st')

pub write_byte-newline :
    (o : OutputOptions) (st : OutputState) (b : ℕ)
    → (b == newline) ≡ true
    → write_byte o st b ≡ (
      (numbered (st.at_line_start && is_all o.number) st).0 ++ o.end_of_line,
      started (numbered (st.at_line_start && is_all o.number) st).1,
    )
unfolding write_byte
write_byte-newline o st b h = rw h refl

pub write_byte-other :
    (o : OutputOptions) (st : OutputState) (b : ℕ)
    → (b == newline) ≡ false
    → write_byte o st b ≡ (
      (numbered (st.at_line_start && not (is_none o.number)) st).0 ++ render o b,
      record ((numbered (st.at_line_start && not (is_none o.number)) st).1) {
        at_line_start = false;
      },
    )
unfolding write_byte
write_byte-other o st b h = rw h refl

abbrev pub inside : ℕ → OutputState
inside n = record { line_number = n; at_line_start = false }

pub positive : (k : ℕ) → (k == 0) ≡ false → 0 < k
positive k h = ground arith

nonzero : (k : ℕ) → (suc k == 0) ≡ false
nonzero k = ground arith

shifted-suc : (k : ℕ) → shifted 1 (suc k) ≡ suc (suc k)
shifted-suc k = ground arith

pub after_until-taken :
    (o : OutputOptions) (st : OutputState) (s out : Bytes) (offset : ℕ)
    → (offset == 0) ≡ false
    → after_until o st s (out, offset) ≡ (
      out ++ o.end_of_line ++ (write_bytes o (started st) (drop offset s)).0,
      (write_bytes o (started st) (drop offset s)).1,
    )
unfolding after_until
after_until-taken o st s out offset h = rw h refl

pub after_until-rest :
    (o : OutputOptions) (st : OutputState) (s out : Bytes) (offset : ℕ)
    → (offset == 0) ≡ true
    → after_until o st s (out, offset) ≡ (out, st)
unfolding after_until
after_until-rest o st s out offset h = rw h refl

after_until-cons :
    (o : OutputOptions) (n b offset : ℕ) (s out : Bytes)
    → after_until o (inside n) (b ∷ s) (render o b ++ out, shifted 1 offset) ≡ (
      render o b ++ (after_until o (inside n) s (out, offset)).0,
      (after_until o (inside n) s (out, offset)).1,
    )
after_until-cons o n b zero s out = unfold after_until in refl
after_until-cons o n b (suc k) s out =
    rw
      (
        shifted-suc k,
        after_until-taken o (inside n) (b ∷ s) (render o b ++ out) (suc (suc k)) (nonzero (suc k)),
        after_until-taken o (inside n) s out (suc k) (nonzero k),
      )
      (simp append_assoc)

pub write_bytes-step :
    (o : OutputOptions) (st : OutputState) (b : ℕ) (s : Bytes)
    → write_bytes o st (b ∷ s) ≡ (
      (write_byte o st b).0 ++ (write_bytes o (write_byte o st b).1 s).0,
      (write_bytes o (write_byte o st b).1 s).1,
    )
unfolding write_bytes
write_bytes-step o st b s = refl

write_bytes-until :
    (o : OutputOptions) (n : ℕ) (s : Bytes)
    → write_bytes o (inside n) s ≡ after_until o (inside n) s (until (render o) s)
write_bytes-until o n [] = unfold write_bytes until after_until in refl
write_bytes-until o n (b ∷ s) = elim (Bool-cases (b == newline)) [
  | inl e ↦
      write_bytes-step o (inside n) b s
      ∙ rw (until-newline (render o) b s e, write_byte-newline o (inside n) b e)
          (unfold after_until in refl)
  | inr e ↦
      write_bytes-step o (inside n) b s
      ∙ rw
          (
            until-other (render o) b s e,
            after_until-cons o n b (until (render o) s).1 s (until (render o) s).0,
            write_byte-other o (inside n) b e,
            write_bytes-until o n s,
          )
          refl
]

-- The number in front of a line that is not blank.
abbrev pub line_start : OutputOptions → OutputState → Bytes × OutputState
line_start o st = numbered (st.at_line_start && not (is_none o.number)) st

abbrev pub after_start : Bytes → Bytes × OutputState → Bytes × OutputState
after_start number (out, st) = (number ++ out, st)

pub write_bytes-line :
    (o : OutputOptions) (st : OutputState) (b : ℕ) (s : Bytes)
    → (b == newline) ≡ false
    → write_bytes o st (b ∷ s)
      ≡ after_start (line_start o st).0 (
          after_until o (inside (line_start o st).1.line_number) (b ∷ s) (until (render o) (b ∷ s)))
write_bytes-line o st b s e =
    let n = (line_start o st).1.line_number in
    write_bytes-step o st b s
    ∙ rw
        (
          write_byte-other o st b e,
          until-other (render o) b s e,
          after_until-cons o n b (until (render o) s).1 s (until (render o) s).0,
          write_bytes-until o n s,
        )
        (simp append_assoc)

pub write_bytes-append :
    (o : OutputOptions) (st : OutputState) (s t : Bytes)
    → write_bytes o st (s ++ t)
      ≡ after_start (write_bytes o st s).0 (write_bytes o (write_bytes o st s).1 t)
write_bytes-append o st [] t = unfold write_bytes in refl
write_bytes-append o st (b ∷ s) t =
    write_bytes-step o st b (s ++ t)
    ∙ rw (write_bytes-append o (write_byte o st b).1 s t, write_bytes-step o st b s)
        (simp append_assoc)
