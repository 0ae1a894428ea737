-- ===== src/Posix/Cat.antt =====
-- libmesabox/src/posix/cat.rs: what is written for the lines of a file.
pub mod Defs
pub mod Lines
pub mod PerByte
pub mod Chunks
pub mod Squeeze
pub mod Fast
