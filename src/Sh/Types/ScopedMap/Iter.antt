-- ===== src/Sh/Types/ScopedMap/Iter.antt =====
-- libmesabox/src/posix/sh/types/scoped_map.rs: what the iterator of a map returns.
use mesabox.Common.{
  ℕ, zero, suc, ◌+◌, ◌<◌, ◌≡◌, ◌≢◌, refl, sym, ap, ◌∙◌, inl, inr, false, Option, none, some, List,
  [], ◌∷◌, Eq, arith, length, Bool-cases, if◌then◌else◌, ◌>>=◌, ◌++◌,
}
use mesabox.Common.HashMap.{HashMap, lookup}
use mesabox.Sh.Types.Locality
use mesabox.Sh.Types.Locality.{Locality, base, inner}
use mesabox.Sh.Types.ScopedMap.Defs.{ScopedMap, found, find, get}
use mesabox.Sh.Types.ScopedMap.Walk.{
  contains, advance, next, iter, entries, outer_size, at, entries_skip, entries_return,
  entries_outer,
}

-- No key was removed: every entry has a value.
abbrev pub IsLive {ℓ} : {K V : Type ℓ} → HashMap K (Option V) → Type 0
IsLive [] = Unit {0}
IsLive ((k, none) ∷ m) = ⊥
IsLive ((k, some v) ∷ m) = IsLive m

abbrev pub IsLiveOutside {ℓ} : {K V : Type ℓ} → Locality (HashMap K (Option V)) → Type 0
IsLiveOutside (base m n) = Unit {0}
IsLiveOutside (inner m n p) = IsLive (Locality.item p) × IsLiveOutside p

abbrev pub find_outside {ℓ} :
    {K V : Type ℓ} ⦃e : Eq K⦄ → K → Locality (HashMap K (Option V)) → Option V
find_outside k (base m n) = none
find_outside k (inner m n p) = find k p

module _ {ℓ} {K V : Type ℓ} ⦃e : Eq K⦄ where
  find-item :
      (k : K) (l : Locality (HashMap K (Option V)))
      → find k l ≡ found (lookup k (Locality.item l)) (find_outside k l)
  unfolding find
  find-item k (base m n) = refl
  find-item k (inner m n p) = refl

  -- No key is among the keys of two entries, or among those that were returned before.
  abbrev pub IsFresh : List K → List (K × V) → Type 0
  IsFresh seen [] = Unit {0}
  IsFresh seen ((k, v) ∷ xs) = (contains seen k ≡ false) × IsFresh (k ∷ seen) xs

  -- What a walk from here has to collect.
  abbrev Collected :
      Locality (HashMap K (Option V))
      → HashMap K (Option V)
      → List K
      → Option (List (K × V))
      → Type ℓ
  Collected l r seen o =
      (xs : List (K × V)) × (o ≡ some xs)
      × IsFresh seen xs
      × ((k : K)
          → lookup k xs ≡ (if contains seen k then none else found (lookup k r) (find_outside k l)))

  entries-Collected :
      (l : Locality (HashMap K (Option V))) (r : HashMap K (Option V)) (seen : List K) (fuel : ℕ)
      → IsLive r
      → IsLiveOutside l
      → length r + outer_size l < fuel
      → Collected l r seen (entries fuel (at l r seen))
  unfolding lookup contains
  entries-Collected l r seen zero lr ll h = absurd (omega arith)
  entries-Collected (base m n) [] seen (suc fuel) lr ll h =
      ([], (unfold entries next advance in refl), tt, λ k. ground arith)
  entries-Collected (inner m n p) [] seen (suc fuel) lr ll h =
      let (xs, ended, fresh, same) =
        entries-Collected p (Locality.item p) seen (suc fuel) ll.0 ll.1 (omega arith) in
      (
        xs,
        entries_outer (suc fuel) m n p seen ∙ ended,
        fresh,
        λ k. same k ∙ ap (λ o. if contains seen k then none else o) (sym (find-item k p)),
      )
  entries-Collected l ((j, none) ∷ r) seen (suc fuel) lr ll h = absurd lr
  entries-Collected l ((j, some v) ∷ r) seen (suc fuel) lr ll h =
      elim (Bool-cases (contains seen j)) [
        | inl old ↦
            let (xs, ended, fresh, same) =
              entries-Collected l r seen (suc fuel) lr ll (omega arith) in
            (
              xs,
              entries_skip (suc fuel) l j v r seen old ∙ ended,
              fresh,
              λ k. same k ∙ ground (arith, old, e.beq_iff j k),
            )
        | inr new ↦
            let (xs, ended, fresh, same) =
              entries-Collected l r (j ∷ seen) fuel lr ll (omega arith) in
            (
              (j, v) ∷ xs,
              entries_return fuel l j v r seen new ∙ rw ended refl,
              (new, fresh),
              λ k. ground (arith, new, e.beq_iff j k, same k),
            )
      ]

  -- Where no scope holds a removed key, a loop over the iterator ends within one round for each
  -- entry and one, no key is among what it collected twice, and looking any key up there gives what
  -- `get` gives.
  pub lookup-entries-iter :
      (m : ScopedMap K V) (fuel : ℕ)
      → IsLive (Locality.item m.maps)
      → IsLiveOutside m.maps
      → length (Locality.item m.maps) + outer_size m.maps < fuel
      → (xs : List (K × V)) × (entries fuel (iter m) ≡ some xs)
        × IsFresh [] xs
        × ((k : K) → lookup k xs ≡ get m k)
  unfolding iter get contains
  lookup-entries-iter m fuel lr ll h =
      let (xs, ended, fresh, same) =
        entries-Collected m.maps (Locality.item m.maps) [] fuel lr ll h in
      (xs, ended, fresh, λ k. same k ∙ sym (find-item k m.maps))

  -- The end of a walk in the outermost table, at its end and at a removed key.
  entries-front :
      (m rest front : HashMap K (Option V)) (n : ℕ) (k : K) (seen : List K) (fuel : ℕ)
      → IsLive front
      → entries fuel (at (base m n) (front ++ (k, none) ∷ rest) seen)
        ≡ entries fuel (at (base m n) front seen)
  entries-front m rest [] n k seen zero h = unfold entries in refl
  entries-front m rest [] n k seen (suc fuel) h = unfold entries next advance in refl
  entries-front m rest ((j, none) ∷ front) n k seen fuel h = absurd h
  entries-front m rest ((j, some v) ∷ front) n k seen zero h = unfold entries in refl
  entries-front m rest ((j, some v) ∷ front) n k seen (suc fuel) h =
      elim (Bool-cases (contains seen j)) [
        | inl old ↦
            entries_skip (suc fuel) (base m n) j v (front ++ (k, none) ∷ rest) seen old
            ∙ entries-front m rest front n k seen (suc fuel) h
            ∙ sym (entries_skip (suc fuel) (base m n) j v front seen old)
        | inr new ↦
            entries_return fuel (base m n) j v (front ++ (k, none) ∷ rest) seen new
            ∙ ap (λ o. o >>= λ later. some ((j, v) ∷ later))
                (entries-front m rest front n k (j ∷ seen) fuel h)
            ∙ sym (entries_return fuel (base m n) j v front seen new)
      ]

  lookup-behind :
      (front rest : HashMap K (Option V)) (k j : K)
      → k ≢ j
      → lookup j front ≡ none
      → lookup j (front ++ (k, none) ∷ rest) ≡ lookup j rest
  unfolding lookup
  lookup-behind [] rest k j n h = ground (arith, e.beq_iff k j)
  lookup-behind ((i, v) ∷ front) rest k j n h = ground (arith, lookup-behind front rest k j n)

  -- In a map whose only table is that of the outermost scope, and which holds a removed key with no other
  -- in front of it, a loop over the iterator ends with the entries in front of that key: looking up in what
  -- it collected gives what looking up in these gives. So a key that is found only behind the removed one is
  -- not returned, though `get` gives its value.
  pub iter_stops_at_removed :
      (m : ScopedMap K V) (front rest : HashMap K (Option V)) (k j : K) (v : V) (n fuel : ℕ)
      → m ≡ record { maps = base (front ++ (k, none) ∷ rest) n }
      → IsLive front
      → length front < fuel
      → k ≢ j
      → lookup j front ≡ none
      → lookup j rest ≡ some (some v)
      → (xs : List (K × V)) × (entries fuel (iter m) ≡ some xs)
        × ((i : K) → lookup i xs ≡ found (lookup i front) none)
        × (lookup j xs ≡ none)
        × (get m j ≡ some v)
  unfolding iter get find contains
  iter_stops_at_removed m front rest k j v n fuel s live enough other hidden behind =
      let whole = front ++ (k, none) ∷ rest in
      let (xs, ended, fresh, same) =
        entries-Collected (base whole n) front [] fuel live tt (omega (arith, enough)) in
      (
        xs,
        rw s (entries-front whole rest front n k [] fuel live ∙ ended),
        same,
        same j ∙ ap (λ o. found o none) hidden,
        rw s (ap (λ o. found o none) (lookup-behind front rest k j other hidden ∙ behind)),
      )
