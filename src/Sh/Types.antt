-- ===== src/Sh/Types.antt =====
-- posix/sh/types: values that are restored at the end of a scope. `Locality` (mod.rs) holds one
-- value, `ScopedMap` (scoped_map.rs) a map and `ScopedArray` (scoped_array.rs) an array of values.
pub mod Locality
pub mod ScopedMap
pub mod ScopedArray
mod Tests
