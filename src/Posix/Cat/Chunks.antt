-- ===== src/Posix/Cat/Chunks.antt =====
-- libmesabox/src/posix/cat.rs: files that are read in chunks, without `-s`.
use mesabox.Common.{
  ℕ, zero, suc, ◌<◌, ◌≡◌, refl, ◌∙◌, Bool, true, false, not, ◌&&◌, ◌||◌, Option, some, List, [],
  ◌∷◌, ◌++◌, append_assoc, length, length-drop, drop, concat, ◌==◌, ◌>>=◌, arith, Bool-cases, inl,
  inr, if◌then◌else◌,
}
use mesabox.Common.Bytes.{Bytes}
use mesabox.Posix.Cat.Defs.{
  newline, OutputOptions, OutputState, is_all, numbered, started, blank, then_step, chunk_loop,
  file_loop, write_file_lines, Step,
}
use mesabox.Posix.Cat.Lines.{until, render, write_line-until}
use mesabox.Posix.Cat.PerByte.{
  write_bytes, write_byte-newline, inside, after_until-taken, after_until-rest, write_bytes-step,
  line_start, after_start, write_bytes-line, write_bytes-append, positive,
}

shows : (a q k : Bool) → q ≡ false → (not a || not q || not k) ≡ true
shows false q k h = refl
shows true q k h = rw h refl

-- What a blank line writes.
abbrev blank_line : OutputOptions → OutputState → Bytes × OutputState
blank_line o st = (
  (numbered (st.at_line_start && is_all o.number) st).0 ++ o.end_of_line,
  started (numbered (st.at_line_start && is_all o.number) st).1,
)

file_loop-step :
    (o : OutputOptions) (kept : Bool) (st : OutputState) (chunk : Bytes) (chunks : List Bytes)
    → file_loop o kept st (chunk ∷ chunks)
      ≡ ◌>>=◌ {B = Step}
          (chunk_loop (suc (length chunk)) o kept st chunk)
          (λ r. ◌>>=◌ {B = Step} (file_loop o r.1 r.2 chunks) (λ later. some (then_step r.0 later)))
unfolding file_loop
file_loop-step o kept st chunk chunks = refl

write_file_lines-step :
    (o : OutputOptions) (st : OutputState) (chunks : List Bytes)
    → write_file_lines o st chunks
      ≡ ◌>>=◌ {B = Bytes × OutputState} (file_loop o false st chunks) (λ r. some (r.0, r.2))
unfolding write_file_lines
write_file_lines-step o st chunks = refl

module _ (o : OutputOptions) (squeeze : o.squeeze_blank ≡ false) where
  blank-shown :
      (kept : Bool) (st : OutputState)
      → blank o kept st ≡ ((blank_line o st).0, true, (blank_line o st).1)
  unfolding blank
  blank-shown kept st = rw (shows st.at_line_start o.squeeze_blank kept squeeze) refl

  chunk-blank :
      (fuel : ℕ) (kept : Bool) (st : OutputState) (b : ℕ) (s : Bytes)
      → (b == newline) ≡ true
      → chunk_loop (suc fuel) o kept st (b ∷ s)
        ≡ ◌>>=◌ {B = Step}
            (chunk_loop fuel o true (blank_line o st).1 s)
            (λ r. some (then_step (blank_line o st).0 r))
  unfolding chunk_loop
  chunk-blank fuel kept st b s e = rw (e, blank-shown kept st) refl

  chunk-line :
      (fuel : ℕ) (kept : Bool) (st : OutputState) (b : ℕ) (s : Bytes)
      → (b == newline) ≡ false
      → chunk_loop (suc fuel) o kept st (b ∷ s) ≡ (
          let u = until (render o) (b ∷ s) in
          let after : Option Step =
            ◌>>=◌ {B = Step}
              (chunk_loop fuel o false (started (line_start o st).1) (drop u.1 (b ∷ s)))
              (λ r. some (then_step ((line_start o st).0 ++ u.0 ++ o.end_of_line) r)) in
          if u.1 == 0
          then some ((line_start o st).0 ++ u.0, false, inside (line_start o st).1.line_number)
          else after)
  unfolding chunk_loop
  chunk-line fuel kept st b s e = rw (e, write_line-until o (b ∷ s)) refl

  write_bytes-blank :
      (st : OutputState) (b : ℕ) (s : Bytes)
      → (b == newline) ≡ true
      → write_bytes o st (b ∷ s)
        ≡ after_start (blank_line o st).0 (write_bytes o (blank_line o st).1 s)
  write_bytes-blank st b s e = write_bytes-step o st b s ∙ rw (write_byte-newline o st b e) refl

  -- What the loop over a chunk returns for what its bytes write.
  abbrev result : Bytes × OutputState → Bool → Option Step
  result (out, st) kept = some (out, kept, st)

  chunk_loop-bytes :
      (fuel : ℕ) (kept : Bool) (st : OutputState) (s : Bytes)
      → length s < fuel
      → (k : Bool) × (chunk_loop fuel o kept st s ≡ result (write_bytes o st s) k)
  chunk_loop-bytes zero kept st s h = absurd (omega arith)
  chunk_loop-bytes (suc fuel) kept st [] h = (kept, unfold chunk_loop write_bytes in refl)
  chunk_loop-bytes (suc fuel) kept st (b ∷ s) h = elim (Bool-cases (b == newline)) [
    | inl e ↦
        let (k, ih) = chunk_loop-bytes fuel true (blank_line o st).1 s (omega arith) in
        (k, chunk-blank fuel kept st b s e ∙ rw (ih, write_bytes-blank st b s e) refl)
    | inr e ↦
        let u = until (render o) (b ∷ s) in
        let n = (line_start o st).1.line_number in
        elim (Bool-cases (u.1 == 0)) [
          | inl z ↦ (
            false,
            chunk-line fuel kept st b s e
                ∙ rw
                    (
                      write_bytes-line o st b s e,
                      after_until-rest o (inside n) (b ∷ s) u.0 u.1 z,
                      z,
                    )
                    refl,
          )
          | inr z ↦
              let (k, ih) =
                chunk_loop-bytes fuel false (started (line_start o st).1) (drop u.1 (b ∷ s))
                  (omega (arith, length-drop u.1 (b ∷ s), positive u.1 z)) in
              (
                k,
                chunk-line fuel kept st b s e
                    ∙ rw
                        (
                          write_bytes-line o st b s e,
                          after_until-taken o (inside n) (b ∷ s) u.0 u.1 z,
                          z,
                          ih,
                        )
                        (simp append_assoc),
              )
        ]
  ]

  file_loop-bytes :
      (kept : Bool) (st : OutputState) (chunks : List Bytes)
      → (k : Bool) × (file_loop o kept st chunks ≡ result (write_bytes o st (concat chunks)) k)
  file_loop-bytes kept st [] = (kept, unfold file_loop write_bytes in refl)
  file_loop-bytes kept st (chunk ∷ chunks) =
      let (k, e) = chunk_loop-bytes (suc (length chunk)) kept st chunk (omega arith) in
      let (k', e') = file_loop-bytes k (write_bytes o st chunk).1 chunks in
      (
        k',
        file_loop-step o kept st chunk chunks
            ∙ rw (e, e', write_bytes-append o st chunk (concat chunks)) refl,
      )

-- Without `-s` a file is written byte by byte, however its reads cut it into chunks: each byte is
-- written by what the state before it says, and the loops end.
pub write_file_lines-bytes :
    (o : OutputOptions) (st : OutputState) (chunks : List Bytes)
    → o.squeeze_blank ≡ false
    → write_file_lines o st chunks ≡ some (write_bytes o st (concat chunks))
write_file_lines-bytes o st chunks h =
    let (k, e) = file_loop-bytes o h false st chunks in
    write_file_lines-step o st chunks ∙ rw e refl
