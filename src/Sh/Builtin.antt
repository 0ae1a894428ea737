-- ===== src/Sh/Builtin.antt =====
-- libmesabox/src/posix/sh/builtin: the commands that the shell runs itself.
pub mod Defs
pub mod Loops
pub mod Shift
pub mod Read
pub mod ReadLines
mod Tests
unfoldable pub use Defs.*
