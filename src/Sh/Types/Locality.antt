-- ===== src/Sh/Types/Locality.antt =====
-- libmesabox/src/posix/sh/types/mod.rs: `Locality<T>`, a value with the values of outer scopes.
-- The struct's `Option<Box<Locality<T>>>` is the choice between two constructors. `count` is the
-- number of scopes entered since the value was set; its wrap-around at 2^64 is not modelled.
mod Defs
mod Stack
mod Blocks
pub use Stack.*
unfoldable pub use Blocks.*
unfoldable pub use Defs.*
