-- ===== src/Sh/Types/Tests.antt =====
-- Examples for the theorems on libmesabox/src/posix/sh/types.
use mesabox.Common.{ℕ, ◌≡◌, ◌≢◌, refl, Option, none, some, List, [], ◌∷◌, ◌++◌, arith}
use mesabox.Common.Bytes.{Bytes, codes, bytes_Eq, bytes_eq}
use mesabox.Common.HashMap
use mesabox.Sh.Types.Locality
use mesabox.Sh.Types.Locality.{Locality, base, inner}
use mesabox.Sh.Types.ScopedMap
use mesabox.Sh.Types.ScopedMap.{ScopedMap}
use mesabox.Sh.Types.ScopedMap.Walk.{iter, entries}
use mesabox.Sh.Types.ScopedMap.Iter.{IsFresh, lookup-entries-iter, iter_stops_at_removed}

-- Localities
abbrev level : Locality ℕ
level = base 7 1

locality_refines_stack_example :
    (Locality.stack (Locality.enter_scope level) ≡ Locality.push_top (Locality.stack level))
    × (Locality.stack (Locality.set_val level 8) ≡ Locality.set_top (Locality.stack level) 8)
    × (Locality.map_stack (Locality.exit_scope level) ≡ Locality.pop (Locality.stack level))
    × (Locality.stack level ≡ Locality.set_top (Locality.stack level) (Locality.current_val level))
locality_refines_stack_example = Locality.locality_refines_stack level 8

abbrev nested : Locality.Block ℕ
nested =
    Locality.set 1 (Locality.scope (Locality.set 2 Locality.done) (Locality.set 3 Locality.done))

-- Maps
abbrev a : Bytes
a = codes "A"

abbrev b : Bytes
b = codes "B"

abbrev two_scopes : ScopedMap Bytes ℕ
two_scopes = record { maps = inner ((a, some 1) ∷ []) 0 (base ((b, some 2) ∷ (a, some 3) ∷ []) 0) }

abbrev insertions : ScopedMap.Insertions Bytes ℕ
insertions =
    ScopedMap.insertion a 4
      (ScopedMap.scope (ScopedMap.insertion b 5 ScopedMap.done) ScopedMap.done)

insertions_restored_example :
    ScopedMap.run (ScopedMap.scope insertions ScopedMap.done) two_scopes ≡ some two_scopes
insertions_restored_example = ScopedMap.insertions_restored insertions two_scopes

remove_escapes_scope_example :
    (ScopedMap.exit_scope (ScopedMap.remove (ScopedMap.enter_scope two_scopes) a).0
      ≡ some (ScopedMap.remove two_scopes a).0)
    × (ScopedMap.get (ScopedMap.remove two_scopes a).0 a ≡ none)
remove_escapes_scope_example = ScopedMap.remove_escapes_scope two_scopes a

lookup-entries-iter_example :
    (xs : List (Bytes × ℕ)) × (entries 4 (iter two_scopes) ≡ some xs)
    × IsFresh [] xs
    × ((k : Bytes) → HashMap.lookup k xs ≡ ScopedMap.get two_scopes k)
lookup-entries-iter_example = lookup-entries-iter two_scopes 4 tt (tt, tt) (omega arith)

abbrev c : Bytes
c = codes "C"

abbrev front : HashMap.HashMap Bytes (Option ℕ)
front = (c, some 3) ∷ []

abbrev rest : HashMap.HashMap Bytes (Option ℕ)
rest = (b, some 2) ∷ []

abbrev removed_between : ScopedMap Bytes ℕ
removed_between = record { maps = base (front ++ (a, none) ∷ rest) 0 }

a-ne-b : a ≢ b
a-ne-b = λ e. ground (arith, e)

iter_stops_at_removed_example :
    (xs : List (Bytes × ℕ)) × (entries 2 (iter removed_between) ≡ some xs)
    × ((i : Bytes) → HashMap.lookup i xs ≡ ScopedMap.found (HashMap.lookup i front) none)
    × (HashMap.lookup b xs ≡ none)
    × (ScopedMap.get removed_between b ≡ some 2)
iter_stops_at_removed_example =
    iter_stops_at_removed removed_between front rest a b 2 0 2 refl tt (omega arith) a-ne-b hidden
      behind
  where
    hidden : HashMap.lookup b front ≡ none
    hidden = unfold HashMap.lookup bytes_eq in refl

    behind : HashMap.lookup b rest ≡ some (some 2)
    behind = unfold HashMap.lookup bytes_eq in refl
