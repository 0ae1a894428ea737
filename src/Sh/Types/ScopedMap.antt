-- ===== src/Sh/Types/ScopedMap.antt =====
-- libmesabox/src/posix/sh/types/scoped_map.rs: `ScopedMap<K, V>`, a map whose changes are undone at
-- the end of a scope. Each scope has a map of its own, and a removed key is kept there as `none`.
mod Defs
pub mod Walk
pub mod Iter
mod Laws
mod Scopes
mod Flat
unfoldable pub use Defs.*
pub use Laws.*
pub use Scopes.*
pub use Flat.*
