-- ===== src/Posix/Head/BytesBackward.antt =====
-- libmesabox/src/posix/head.rs: `write_bytes_backward` writes all but the last bytes.
use native.Mathlib.Decide.{dec_le}
use mesabox.Common.{
  ℕ, zero, suc, ◌+◌, ◌-◌, ◌≤◌, ◌<◌, max, min, ◌≡◌, ◌∙◌, Option, none, some, [], ◌∷◌, ◌++◌,
  append-nil, append_assoc, length, length-append, length-take, length-drop, take-append-drop,
  take_all, take-append_le, take-append_add, take, drop, ◌>>=◌, arith,
}
use mesabox.Common.Bytes.{Bytes}
use mesabox.Posix.Head.Defs.{buf_size, copy_chunks, finish, last_chunks, write_bytes_backward}

-- The bytes without the last `n`.
abbrev pub all_but : ℕ → Bytes → Bytes
all_but n s = take (length s - n) s

all_but-append_le :
    (n : ℕ) (xs ys : Bytes) → n ≤ length ys → all_but n (xs ++ ys) ≡ xs ++ all_but n ys
all_but-append_le n xs ys h =
    let split : length (xs ++ ys) - n ≡ length xs + (length ys - n) =
      omega (arith, length-append xs ys) in
    rw split (take-append_add (length ys - n) xs ys)

all_but-append_ge :
    (n : ℕ) (xs ys : Bytes)
    → length ys ≤ n
    → all_but n (xs ++ ys) ≡ take (length xs - min (n - length ys) (length xs)) xs
all_but-append_ge n xs ys h =
    let split : length (xs ++ ys) - n ≡ length xs - min (n - length ys) (length xs) =
      omega (arith, length-append xs ys) in
    rw split (take-append_le (length xs - min (n - length ys) (length xs)) xs ys (omega arith))

last_chunks-all_but : (n : ℕ) (prev cur : Bytes) → last_chunks n prev cur ≡ all_but n (prev ++ cur)
unfolding last_chunks
last_chunks-all_but n prev [] = rw append-nil (ground arith)
last_chunks-all_but n prev (b ∷ cur) =
    ground (arith, all_but-append_le n prev (b ∷ cur), all_but-append_ge n prev (b ∷ cur))

chunk_full :
    (fuel size : ℕ) (prev input : Bytes)
    → size ≤ length input
    → copy_chunks (suc fuel) size prev input ≡ (
        copy_chunks fuel size (take size input) (drop size input) >>= λ r.
        some (prev ++ r.0, r.1, r.2))
unfolding copy_chunks
chunk_full fuel size prev input h = ground (arith, length-take size input)

chunk_short :
    (fuel size : ℕ) (prev input : Bytes)
    → length input < size
    → copy_chunks (suc fuel) size prev input ≡ some ([], prev, input)
unfolding copy_chunks
chunk_short fuel size prev input h =
    ground (arith, length-take size input, take_all size input (omega arith))

finish-prepend :
    (n : ℕ) (prev : Bytes) (r : Option (Bytes × Bytes × Bytes)) (out : Bytes)
    → finish n r ≡ some out
    → finish n (r >>= λ r. some (prev ++ r.0, r.1, r.2)) ≡ some (prev ++ out)
finish-prepend n prev none out h = cc
finish-prepend n prev (some (o, p, c)) out h = cc (append_assoc prev o (last_chunks n p c), h)

copy_chunks-all_but :
    (fuel size n : ℕ) (prev input : Bytes)
    → 0 < size
    → n ≤ size
    → length input < fuel
    → finish n (copy_chunks fuel size prev input) ≡ some (all_but n (prev ++ input))
copy_chunks-all_but zero size n prev input hs hn hf = absurd (omega arith)
copy_chunks-all_but (suc fuel) size n prev input hs hn hf = elim (dec_le size (length input)) [
  | yes full ↦ rw (chunk_full fuel size prev input full) (
      finish-prepend n prev _ _ (
        copy_chunks-all_but fuel size n (take size input) (drop size input) hs hn
          (omega (arith, length-drop size input)))
      ∙ rw (take-append-drop size input, all_but-append_le n prev input (omega arith)))
  | no short ↦ rw (chunk_short fuel size prev input (omega arith), last_chunks-all_but n prev input)
]

-- `write_bytes_backward` ends, and writes exactly all but the last `n` bytes, however the input
-- falls into chunks: nothing if there are at most `n`.
pub write_bytes_backward_lem :
    (n : ℕ) (input : Bytes) → write_bytes_backward n input ≡ some (take (length input - n) input)
unfolding write_bytes_backward
write_bytes_backward_lem n input =
    copy_chunks-all_but (suc (length input)) (max n buf_size) n [] input (omega arith) (omega arith)
      (omega arith)
