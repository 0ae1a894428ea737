-- ===== src/Sh/Types/ScopedMap/Laws.antt =====
-- What `get` sees of a `ScopedMap` after each operation, through all scopes.
use mesabox.Common.{zero, suc, ◌≡◌, refl, ◌∙◌, ap, Option, none, some, Eq, arith, if◌then◌else◌}
use mesabox.Common.HashMap
use mesabox.Common.HashMap.{HashMap, lookup, lookup-insert}
use mesabox.Sh.Types.Locality
use mesabox.Sh.Types.Locality.{Locality, base, inner}
use mesabox.Sh.Types.ScopedMap.Defs.{ScopedMap, find, get, insert, remove, own_map}

module _ {ℓ} {K V : Type ℓ} ⦃e : Eq K⦄ where
  -- A write to the current scope's own map is what `find` sees at that key.
  pub find-write :
      (l : Locality (HashMap K (Option V))) (k j : K) (v : Option V)
      → find j (Locality.with_current_val l (HashMap.insert k v (Locality.current_val l)))
        ≡ (if e.beq k j then v else find j l)
  unfolding find Locality.with_current_val Locality.current_val
  find-write (base m n) k j v = ground (arith, lookup-insert k j v m)
  find-write (inner m n p) k j v = ground (arith, lookup-insert k j v m)

  find-own_map : (l : Locality (HashMap K (Option V))) (j : K) → find j (own_map l) ≡ find j l
  unfolding own_map Locality.set_val find lookup
  find-own_map (base m zero) j = refl
  find-own_map (base m (suc n)) j = ground arith
  find-own_map (inner m zero p) j = refl
  find-own_map (inner m (suc n) p) j = ground arith

  -- After `insert` the key has the new value and every other key what it had, in whichever scope.
  pub get-insert :
      (m : ScopedMap K V) (k j : K) (v : V)
      → get (insert m k v).0 j ≡ (if e.beq k j then some v else get m j)
  unfolding get insert
  get-insert m k j v =
      find-write (own_map m.maps) k j (some v)
      ∙ ap (λ o. if e.beq k j then some v else o) (find-own_map m.maps j)

  -- After `remove` the key is gone, also where an outer scope has it, and the others are unchanged.
  pub get-remove :
      (m : ScopedMap K V) (k j : K) → get (remove m k).0 j ≡ (if e.beq k j then none else get m j)
  unfolding get remove
  get-remove m k j = find-write m.maps k j none
