-- ===== src/Posix/Head.antt =====
-- libmesabox/src/posix/head.rs: the first or all but the last lines or bytes of each input.
mod Defs
pub mod Lines
pub mod Forward
pub mod Backward
pub mod BytesBackward
pub mod Files
unfoldable pub use Defs.*
