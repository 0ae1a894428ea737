-- ===== src/Sh/Types/ScopedMap/Flat.antt =====
-- A `ScopedMap` in which no scope was entered, where `get_mut` and `remove` find what `get` finds.
use mesabox.Common.{zero, suc, ◌≡◌, Option, some, Eq, arith, if◌then◌else◌}
use mesabox.Common.HashMap.{HashMap}
use mesabox.Sh.Types.Locality.{Locality, base, inner}
use mesabox.Sh.Types.ScopedMap.Defs.{ScopedMap, find, get, get_mut, insert, remove, write_mut}
use mesabox.Sh.Types.ScopedMap.Laws.{find-write}

abbrev IsBase {ℓ} : {T : Type ℓ} → Locality T → Type 0
IsBase (base m zero) = Unit {0}
IsBase (base m (suc n)) = ⊥
IsBase (inner m n p) = ⊥

abbrev pub IsFlat {ℓ} : {K V : Type ℓ} → ScopedMap K V → Type 0
IsFlat m = IsBase m.maps

module _ {ℓ} {K V : Type ℓ} ⦃e : Eq K⦄ where
  pub get-write_mut :
      (m : ScopedMap K V) (k j : K) (v : V)
      → get (write_mut m k v) j ≡ (if e.beq k j then some v else get m j)
  unfolding get write_mut
  get-write_mut m k j v = find-write m.maps k j (some v)

  flat_get_mut :
      (l : Locality (HashMap K (Option V))) (k : K)
      → IsBase l
      → get_mut (record { maps = l }) k ≡ find k l
  unfolding get_mut find
  flat_get_mut (base m zero) k h = ground arith
  flat_get_mut (base m (suc n)) k h = absurd h
  flat_get_mut (inner m n p) k h = absurd h

  pub get_mut-eq-get : (m : ScopedMap K V) (k : K) → IsFlat m → get_mut m k ≡ get m k
  unfolding get
  get_mut-eq-get m k h = flat_get_mut m.maps k h

  flat_remove :
      (l : Locality (HashMap K (Option V))) (k : K)
      → IsBase l
      → (remove (record { maps = l }) k).1 ≡ find k l
  unfolding remove find
  flat_remove (base m zero) k h = ground arith
  flat_remove (base m (suc n)) k h = absurd h
  flat_remove (inner m n p) k h = absurd h

  pub remove-eq-get : (m : ScopedMap K V) (k : K) → IsFlat m → (remove m k).1 ≡ get m k
  unfolding get
  remove-eq-get m k h = flat_remove m.maps k h

  IsFlat-kept :
      (l : Locality (HashMap K (Option V))) (k : K) (v : V)
      → IsBase l
      → IsFlat (insert (record { maps = l }) k v).0
        × IsFlat (write_mut (record { maps = l }) k v)
        × ((insert (record { maps = l }) k v).1 ≡ find k l)
  unfolding insert remove write_mut find
  IsFlat-kept (base m zero) k v h = (tt, tt, ground arith)
  IsFlat-kept (base m (suc n)) k v h = absurd h
  IsFlat-kept (inner m n p) k v h = absurd h

  pub insert-IsFlat : (m : ScopedMap K V) (k : K) (v : V) → IsFlat m → IsFlat (insert m k v).0
  insert-IsFlat m k v h = (IsFlat-kept m.maps k v h).0

  pub write_mut-IsFlat : (m : ScopedMap K V) (k : K) (v : V) → IsFlat m → IsFlat (write_mut m k v)
  write_mut-IsFlat m k v h = (IsFlat-kept m.maps k v h).1

  pub insert-eq-get : (m : ScopedMap K V) (k : K) (v : V) → IsFlat m → (insert m k v).1 ≡ get m k
  unfolding get
  insert-eq-get m k v h = (IsFlat-kept m.maps k v h).2

  IsFlat-removed :
      (l : Locality (HashMap K (Option V))) (k : K)
      → IsBase l
      → IsFlat (remove (record { maps = l }) k).0
  unfolding remove
  IsFlat-removed (base m zero) k h = tt
  IsFlat-removed (base m (suc n)) k h = absurd h
  IsFlat-removed (inner m n p) k h = absurd h

  pub remove-IsFlat : (m : ScopedMap K V) (k : K) → IsFlat m → IsFlat (remove m k).0
  remove-IsFlat m k h = IsFlat-removed m.maps k h
