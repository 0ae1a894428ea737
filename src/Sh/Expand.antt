-- ===== src/Sh/Expand.antt =====
-- libmesabox/src/posix/sh/ast.rs: the expansion of words and parameters, and redirections.
pub mod Params
pub mod Words
pub mod Output
pub mod Redirect
pub mod Safe
pub mod Copy
pub mod Assign
pub mod RedirectSafe
pub mod Glob
pub mod Program
pub mod Balanced
mod Tests
