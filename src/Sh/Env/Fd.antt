-- ===== src/Sh/Env/Fd.antt =====
-- libmesabox/src/posix/sh/env.rs: `EnvFd`, what a file descriptor of the shell stands for.
use mesabox.Common.{ℕ, true, ◌≡◌, refl, Option, none, some}
use mesabox.Common.Bytes.{Bytes}
use mesabox.Util.Platform.{RawObjectWrapper, Pipe, raw_object_wrapper}

-- An open `File` is its descriptor's number.
pub data EnvFd : Type 0 where
  null : EnvFd
  piped : Bytes → EnvFd
  file : ℕ → EnvFd
  fd : RawObjectWrapper → EnvFd
  pipe : Pipe → EnvFd
  pipeline : EnvFd
  child_stdout : RawObjectWrapper → EnvFd

abbrev pub default : EnvFd
default = null

-- `try_clone`, which returns `Ok` on every branch.
unfoldable pub try_clone : EnvFd → EnvFd
unfolding raw_object_wrapper
try_clone (fd w) = fd w
try_clone (file n) = fd (record { fd = n; readable = true; writable = true })
try_clone (piped bytes) = piped bytes
try_clone null = null
try_clone pipeline = pipeline
try_clone (pipe p) = fd (raw_object_wrapper p)
try_clone (child_stdout w) = child_stdout w

-- The descriptor that is behind a value, and the values that close it when they are dropped.
abbrev pub raw_fd : EnvFd → Option ℕ
raw_fd (file n) = some n
raw_fd (fd w) = some w.fd
raw_fd (pipe p) = some p.fd
raw_fd (child_stdout w) = some w.fd
raw_fd _ = none

abbrev pub Owns : EnvFd → Type 0
Owns (file n) = Unit {0}
Owns (pipe p) = Unit {0}
Owns _ = ⊥

-- A clone stands for the same descriptor, does not close it when dropped, and a clone of it is the
-- same again.
pub try_clone_borrows :
    (e : EnvFd)
    → (raw_fd (try_clone e) ≡ raw_fd e)
      × (¬ Owns (try_clone e))
      × (try_clone (try_clone e) ≡ try_clone e)
unfolding try_clone
try_clone_borrows (fd w) = (refl, (λ h. h), refl)
try_clone_borrows (file n) = (refl, (λ h. h), refl)
try_clone_borrows (piped b) = (refl, (λ h. h), refl)
try_clone_borrows null = (refl, (λ h. h), refl)
try_clone_borrows pipeline = (refl, (λ h. h), refl)
try_clone_borrows (pipe p) = (refl, (λ h. h), refl)
try_clone_borrows (child_stdout w) = (refl, (λ h. h), refl)
