-- ===== src/Util/Platform.antt =====
-- libmesabox/src/util/platform/unix.rs: raw file descriptors. A descriptor is its number; what the
-- system does with it is not modelled.
use mesabox.Common.{ℕ, Bool, true, false}

pub record RawObjectWrapper : Type 0 where
  pub fd : ℕ
  pub readable : Bool
  pub writable : Bool

pub data PipeKind : Type 0 where
  read write : PipeKind

pub record Pipe : Type 0 where
  pub fd : ℕ
  pub kind : PipeKind

abbrev pub is_read : PipeKind → Bool
is_read read = true
is_read write = false

abbrev pub is_write : PipeKind → Bool
is_write read = false
is_write write = true

unfoldable pub raw_object_wrapper : Pipe → RawObjectWrapper
raw_object_wrapper p = record { fd = p.fd; readable = is_read p.kind; writable = is_write p.kind }
