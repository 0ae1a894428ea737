-- ===== src/Sh.antt =====
-- libmesabox/src/posix/sh: the shell.
pub mod Types
pub mod Env
pub mod Builtin
pub mod Ast
pub mod Expand
pub mod Parser
