-- ===== src/Gnu.antt =====
-- libmesabox/src/gnu: the GNU utilities.
pub mod Yes
mod Tests
