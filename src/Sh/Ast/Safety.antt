-- ===== src/Sh/Ast/Safety.antt =====
-- libmesabox/src/posix/sh/ast.rs: panics, and the balance of scopes and loops.
pub mod Shape
pub mod Safe
pub mod Loops
pub mod Simple
pub mod Children
pub mod Commands
pub mod Isolation
