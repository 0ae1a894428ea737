-- ===== src/Posix/Echo.antt =====
-- libmesabox/src/posix/echo.rs: texts with escapes.
pub mod Defs
pub mod Escapes
