-- ===== src/Sh/Env.antt =====
-- libmesabox/src/posix/sh/env.rs: the environment of the shell.
pub mod Fd
mod Special
mod Defs
pub mod Fds
pub mod Scopes
pub mod Vars
pub mod Valid
pub mod Exports
mod Tests
unfoldable pub use Special.*
unfoldable pub use Defs.*
