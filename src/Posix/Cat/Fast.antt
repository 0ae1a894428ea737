-- ===== src/Posix/Cat/Fast.antt =====
-- libmesabox/src/posix/cat.rs: the two ways of `run` to write a file.
use mesabox.Common.{ℕ, ◌≡◌, refl, ap, ◌∙◌, true, false, List, [], ◌∷◌, some, concat, arith}
use mesabox.Common.Bytes.{Bytes}
use mesabox.Posix.Cat.Defs.{
  OutputOptions, OutputState, can_write_fast, with_texts, write_file_lines,
}
use mesabox.Posix.Cat.Lines.{render}
use mesabox.Posix.Cat.PerByte.{write_byte, write_bytes, write_bytes-step}
use mesabox.Posix.Cat.Chunks.{write_file_lines-bytes}

write_byte-fast :
    (o : OutputOptions) (st : OutputState) (b : ℕ)
    → can_write_fast o ≡ true
    → (write_byte (with_texts o) st b).0 ≡ b ∷ []
unfolding can_write_fast with_texts write_byte render
write_byte-fast o st b h = ground (arith, h)

write_bytes-fast :
    (o : OutputOptions) (st : OutputState) (s : Bytes)
    → can_write_fast o ≡ true
    → (write_bytes (with_texts o) st s).0 ≡ s
write_bytes-fast o st [] h = unfold write_bytes in refl
write_bytes-fast o st (b ∷ s) h =
    rw
      (
        write_bytes-step (with_texts o) st b s,
        write_byte-fast o st b h,
        write_bytes-fast o (write_byte (with_texts o) st b).1 s h,
      )
      refl

fast-not_squeezing :
    (o : OutputOptions) → can_write_fast o ≡ true → (with_texts o).squeeze_blank ≡ false
unfolding can_write_fast with_texts
fast-not_squeezing o h = ground (arith, h)

-- If the options let a file be copied without looking at its lines, writing it line by line would
-- write the same bytes.
pub write_file_lines-fast :
    (o : OutputOptions) (st : OutputState) (chunks : List Bytes)
    → can_write_fast o ≡ true
    → (st' : OutputState) × (write_file_lines (with_texts o) st chunks ≡ some (concat chunks, st'))
write_file_lines-fast o st chunks h =
    let r = write_bytes (with_texts o) st (concat chunks) in
    (
      r.1,
      write_file_lines-bytes (with_texts o) st chunks (fast-not_squeezing o h)
          ∙ ap (λ s. some (s, r.1)) (write_bytes-fast o st (concat chunks) h),
    )
