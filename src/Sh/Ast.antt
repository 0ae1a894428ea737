-- ===== src/Sh/Ast.antt =====
-- libmesabox/src/posix/sh/ast.rs: the tree of a script and its execution.
pub mod Syntax
pub mod Words
pub mod Redirects
pub mod Run
pub mod Shell
pub mod Children
pub mod Simple
pub mod Parts
pub mod Exec
pub mod Safety
pub mod Builtins
mod Tests
