-- ===== src/Sh/Env/Exports.antt =====
-- libmesabox/src/posix/sh/env.rs: the variables that a command is started with.
use mesabox.Common.{◌+◌, suc, length, Option, none, some, List, [], ◌∷◌}
use mesabox.Common.Bytes.{Bytes, bytes_Eq}
use mesabox.Sh.Types.Locality
use mesabox.Sh.Types.ScopedMap.Walk.{iter, entries, outer_size}
use mesabox.Sh.Env.Defs.{Environment}

-- `filter_map`: a name that is exported without a value is left out.
abbrev pub with_value : List (Bytes × Option Bytes) → List (Bytes × Bytes)
with_value [] = []
with_value ((k, none) ∷ rest) = with_value rest
with_value ((k, some v) ∷ rest) = (k, v) ∷ with_value rest

-- The loop over the entries ends (`all_entries-ends`), so `none` does not come up.
abbrev collected : Option (List (Bytes × Option Bytes)) → List (Bytes × Option Bytes)
collected none = []
collected (some xs) = xs

unfoldable pub export_iter : {F : Type 0} → Environment F → List (Bytes × Bytes)
unfolding iter entries
export_iter env =
    let maps = env.export_vars.maps in
    with_value (
      collected
        (entries (suc (length (Locality.item maps) + outer_size maps)) (iter env.export_vars)))
