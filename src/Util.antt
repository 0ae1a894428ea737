-- ===== src/Util.antt =====
-- libmesabox/src/util: what the utilities share.
pub mod Platform
pub mod Pow
pub mod ParseNum
pub mod Suffixes
mod Tests
