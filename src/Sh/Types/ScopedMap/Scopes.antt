-- ===== src/Sh/Types/ScopedMap/Scopes.antt =====
-- Which changes of a `ScopedMap` the end of a scope undoes.
use mesabox.Common.{◌≡◌, refl, ◌⊎◌, inl, inr, Option, none, some, [], Eq, arith, ◌>>=◌}
use mesabox.Common.HashMap
use mesabox.Common.HashMap.{HashMap, lookup-insert}
use mesabox.Sh.Types.Locality
use mesabox.Sh.Types.Locality.{Locality, base, inner}
use mesabox.Sh.Types.ScopedMap.Defs.{ScopedMap, get, insert, remove, enter_scope, exit_scope}
use mesabox.Sh.Types.ScopedMap.Laws.{get-remove}

-- Insertions in nested scopes.
pub data Insertions {ℓ} (K V : Type ℓ) : Type ℓ where
  done : Insertions K V
  insertion : K → V → Insertions K V → Insertions K V
  scope : Insertions K V → Insertions K V → Insertions K V

module _ {ℓ} {K V : Type ℓ} ⦃e : Eq K⦄ where
  unfoldable pub run : Insertions K V → ScopedMap K V → Option (ScopedMap K V)
  run done m = some m
  run (insertion k v b) m = run b (insert m k v).0
  run (scope b c) m = run b (enter_scope m) >>= λ m'. exit_scope m' >>= λ m''. run c m''

  -- In a scope entered at `m`: nothing inserted yet, or a map of the scope's own above `m`.
  Above : ScopedMap K V → ScopedMap K V → Type ℓ
  Above m m' =
      (m' ≡ enter_scope m)
      ⊎ ((own : HashMap K (Option V)) × (m' ≡ record { maps = inner own 0 m.maps }))

  insert-enter_scope :
      (l : Locality (HashMap K (Option V))) (k : K) (v : V)
      → (insert (enter_scope (record { maps = l })) k v).0
        ≡ record { maps = inner (HashMap.insert k (some v) []) 0 l }
  unfolding insert enter_scope
  insert-enter_scope (base x n) k v = ground arith
  insert-enter_scope (inner x n p) k v = ground arith

  insert-Above : (m m' : ScopedMap K V) (k : K) (v : V) → Above m m' → Above m (insert m' k v).0
  unfolding Above
  insert-Above m m' k v (inl h) =
      inr (HashMap.insert k (some v) [], rw h (insert-enter_scope m.maps k v))
  insert-Above m m' k v (inr (own, h)) =
      inr (HashMap.insert k (some v) own, rw h (unfold insert in refl))

  exit_scope-enter_scope :
      (l : Locality (HashMap K (Option V))) → Locality.exit_scope (Locality.enter_scope l) ≡ some l
  unfolding Locality.exit_scope Locality.enter_scope
  exit_scope-enter_scope (base x n) = ground arith
  exit_scope-enter_scope (inner x n p) = ground arith

  exit_scope-Above : (m m' : ScopedMap K V) → Above m m' → exit_scope m' ≡ some m
  unfolding Above
  exit_scope-Above m m' (inl h) =
      rw h (unfold enter_scope exit_scope in rw (exit_scope-enter_scope m.maps))
  exit_scope-Above m m' (inr (own, h)) = rw h (unfold exit_scope in refl)

  run-Above :
      (b : Insertions K V) (m m' : ScopedMap K V)
      → Above m m'
      → (m'' : ScopedMap K V) × (run b m' ≡ some m'') × Above m m''
  unfolding run
  run-Above done m m' a = (m', refl, a)
  run-Above (insertion k v b) m m' a = run-Above b m (insert m' k v).0 (insert-Above m m' k v a)
  run-Above (scope b c) m m' a =
      let (n, h, above) = run-Above b m' (enter_scope m') (unfold Above in inl refl) in
      rw (h, exit_scope-Above m' n above) (run-Above c m m' a)

  -- Leaving a scope undoes every insertion made inside it, nested scopes included: the map comes
  -- back to exactly the state in which the scope was entered, and nothing panics.
  pub insertions_restored : (b : Insertions K V) (m : ScopedMap K V) → run (scope b done) m ≡ some m
  unfolding run
  insertions_restored b m =
      let (n, h, above) = run-Above b m (enter_scope m) (unfold Above in inl refl) in
      rw (h, exit_scope-Above m n above)

  remove-enter_scope :
      (l : Locality (HashMap K (Option V))) (k : K)
      → exit_scope (remove (enter_scope (record { maps = l })) k).0
        ≡ some (remove (record { maps = l }) k).0
  unfolding remove enter_scope exit_scope
  remove-enter_scope (base x n) k = ground arith
  remove-enter_scope (inner x n p) k = ground arith

  -- A removal is not undone: if a key is removed before anything is inserted in a scope, then after
  -- the scope ends the map is as if the key had been removed outside, and the key is gone.
  pub remove_escapes_scope :
      (m : ScopedMap K V) (k : K)
      → (exit_scope (remove (enter_scope m) k).0 ≡ some (remove m k).0)
        × (get (remove m k).0 k ≡ none)
  remove_escapes_scope m k =
      (remove-enter_scope m.maps k, rw (get-remove m k k, (e.beq_iff k k).1 refl))
