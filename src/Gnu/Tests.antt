-- ===== src/Gnu/Tests.antt =====
-- Examples for the theorems on libmesabox/src/gnu.
use mesabox.Common.{ℕ, ◌≡◌, some, concat, replicate, arith}
use mesabox.Common.Bytes.{codes}
use mesabox.Gnu.Yes.{prepare_buffer, IsFull, prepare_buffer-copies}

prepare_buffer-copies_example :
    (k : ℕ) × (prepare_buffer (codes "y\n") ≡ some (concat (replicate k (codes "y\n"))))
    × IsFull (codes "y\n") (concat (replicate k (codes "y\n")))
prepare_buffer-copies_example = prepare_buffer-copies (codes "y\n") (omega arith) (omega arith)
