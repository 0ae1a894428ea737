-- ===== src/Posix.antt =====
-- libmesabox/src/posix: the POSIX utilities.
pub mod Head
pub mod Echo
pub mod Cat
mod Tests
