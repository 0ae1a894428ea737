-- ===== src/Sh/Types/ScopedMap/Defs.antt =====
-- libmesabox/src/posix/sh/types/scoped_map.rs: the operations of `ScopedMap<K, V>`.
use mesabox.Common.{Bool, Option, none, some, List, [], ◌∷◌, Eq, ltb, is_some, ◌>>=◌, if◌then◌else◌}
use mesabox.Common.HashMap
use mesabox.Common.HashMap.{HashMap}
use mesabox.Sh.Types.Locality
use mesabox.Sh.Types.Locality.{Locality, base, inner}

pub record ScopedMap {ℓ} (K V : Type ℓ) : Type ℓ where
  pub maps : Locality (HashMap K (Option V))

-- What a scope's own map says of a key, and otherwise what the outer scopes say.
abbrev pub found {ℓ} : {V : Type ℓ} → Option (Option V) → Option V → Option V
found none outer = outer
found (some v) outer = v

-- `Option<Option<V>>::unwrap_or(None)`
abbrev pub unwrap_or_none {ℓ} : {V : Type ℓ} → Option (Option V) → Option V
unwrap_or_none none = none
unwrap_or_none (some v) = v

module _ {ℓ} {K V : Type ℓ} where
  unfoldable pub empty : ScopedMap K V
  empty = record { maps = Locality.new [] 0 none }

  unfoldable pub enter_scope : ScopedMap K V → ScopedMap K V
  unfolding Locality.enter_scope
  enter_scope m = record { maps = Locality.enter_scope m.maps }

  abbrev pub of_maps : Option (Locality (HashMap K (Option V))) → Option (ScopedMap K V)
  of_maps none = none
  of_maps (some l) = some (record { maps = l })

  unfoldable pub exit_scope : ScopedMap K V → Option (ScopedMap K V)
  unfolding Locality.exit_scope
  exit_scope m = of_maps (Locality.exit_scope m.maps)

module _ {ℓ} {K V : Type ℓ} ⦃e : Eq K⦄ where
  -- The `while let` loop of `get`, from a scope outwards.
  unfoldable pub find : K → Locality (HashMap K (Option V)) → Option V
  unfolding HashMap.lookup
  find k (base m n) = found (HashMap.lookup k m) none
  find k (inner m n p) = found (HashMap.lookup k m) (find k p)

  unfoldable pub get : ScopedMap K V → K → Option V
  unfolding find
  get m k = find k m.maps

  unfoldable pub contains_key : ScopedMap K V → K → Bool
  unfolding get
  contains_key m k = is_some (get m k)

  -- The value that `get_mut` lends, which is looked for in the current scope only.
  unfoldable pub get_mut : ScopedMap K V → K → Option V
  unfolding Locality.current_val HashMap.lookup
  get_mut m k = HashMap.lookup k (Locality.current_val m.maps) >>= λ v. v

  -- A write through the reference that `get_mut` lends.
  unfoldable pub write_mut : ScopedMap K V → K → V → ScopedMap K V
  unfolding Locality.current_val Locality.with_current_val HashMap.insert
  write_mut m k v = record {
    maps =
        Locality.with_current_val m.maps (HashMap.insert k (some v) (Locality.current_val m.maps));
  }

  -- An entry of the current scope becomes `none`, whether it is there or not.
  unfoldable pub remove : ScopedMap K V → K → ScopedMap K V × Option V
  unfolding Locality.current_val Locality.with_current_val HashMap.insert HashMap.lookup
  remove m k =
      let current = Locality.current_val m.maps in
      (
        record { maps = Locality.with_current_val m.maps (HashMap.insert k none current) },
        unwrap_or_none (HashMap.lookup k current),
      )

  -- The map that `insert` writes to: a new one if this scope has none of its own yet.
  unfoldable pub own_map : Locality (HashMap K (Option V)) → Locality (HashMap K (Option V))
  unfolding Locality.set_val
  own_map l = if ltb 0 (Locality.count l) then Locality.set_val l [] else l

  unfoldable pub insert : ScopedMap K V → K → V → ScopedMap K V × Option V
  unfolding own_map Locality.current_val Locality.with_current_val HashMap.insert HashMap.lookup
  insert m k v =
      let own = own_map m.maps in
      let current = Locality.current_val own in
      (
        record { maps = Locality.with_current_val own (HashMap.insert k (some v) current) },
        unwrap_or_none (HashMap.lookup k current),
      )

  collect : List (K × V) → HashMap K (Option V) → HashMap K (Option V)
  unfolding HashMap.insert
  collect [] m = m
  collect ((k, v) ∷ rest) m = collect rest (HashMap.insert k (some v) m)

  unfoldable pub from_iter : List (K × V) → ScopedMap K V
  unfolding collect
  from_iter items = record { maps = Locality.new (collect items []) 0 none }
