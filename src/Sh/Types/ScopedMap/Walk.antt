-- ===== src/Sh/Types/ScopedMap/Walk.antt =====
-- libmesabox/src/posix/sh/types/scoped_map.rs: `Iter`, which walks the scopes from the inside out.
use mesabox.Common.{
  ℕ, zero, suc, ◌+◌, ◌<◌, ◌≡◌, refl, ◌∙◌, inl, inr, Bool, true, false, ◌||◌, Option, none, some,
  List, [], ◌∷◌, Eq, arith, length, Bool-cases, if◌then◌else◌, ◌>>=◌,
}
use mesabox.Common.HashMap.{HashMap}
use mesabox.Sh.Types.Locality
use mesabox.Sh.Types.Locality.{Locality, base, inner}
use mesabox.Sh.Types.ScopedMap.Defs.{ScopedMap}

-- The scope that is walked, what its table has left, and the keys that were returned.
pub record Iter {ℓ} (K V : Type ℓ) : Type ℓ where
  pub maps : Locality (HashMap K (Option V))
  pub inner_iter : HashMap K (Option V)
  pub seen : List K

unfoldable pub iter {ℓ} : {K V : Type ℓ} → ScopedMap K V → Iter K V
iter m = record { maps = m.maps; inner_iter = Locality.item m.maps; seen = [] }

unfoldable pub contains {ℓ} : {K : Type ℓ} ⦃e : Eq K⦄ → List K → K → Bool
contains [] k = false
contains ⦃e⦄ (j ∷ s) k = e.beq j k || contains s k

module _ {ℓ} {K V : Type ℓ} ⦃e : Eq K⦄ where
  -- The `while let` ends at the end of the table and at a removed key; then the outer scope is next.
  unfoldable pub advance :
      Locality (HashMap K (Option V)) → HashMap K (Option V) → List K → Option ((K × V) × Iter K V)
  unfolding contains
  advance (base m n) [] seen = none
  advance (base m n) ((k, none) ∷ rest) seen = none
  advance (base m n) ((k, some v) ∷ rest) seen =
      let later = advance (base m n) rest seen in
      if contains seen k
      then later
      else some ((k, v), record { maps = base m n; inner_iter = rest; seen = k ∷ seen })
  advance (inner m n p) [] seen = advance p (Locality.item p) seen
  advance (inner m n p) ((k, none) ∷ rest) seen = advance p (Locality.item p) seen
  advance (inner m n p) ((k, some v) ∷ rest) seen =
      let later = advance (inner m n p) rest seen in
      if contains seen k
      then later
      else some ((k, v), record { maps = inner m n p; inner_iter = rest; seen = k ∷ seen })

  unfoldable pub next : Iter K V → Option ((K × V) × Iter K V)
  unfolding advance
  next it = advance it.maps it.inner_iter it.seen

  -- A `for` loop over the iterator; each round takes an entry. `none`: the fuel ran out.
  unfoldable pub entries : ℕ → Iter K V → Option (List (K × V))
  unfolding next
  entries zero it = none
  entries (suc fuel) it = elim (next it) [
    | none ↦ some []
    | some (kv, it') ↦ entries fuel it' >>= λ later. some (kv ∷ later)
  ]

-- What is left to walk, as a bound on the rounds.
abbrev pub outer_size {ℓ} : {K V : Type ℓ} → Locality (HashMap K (Option V)) → ℕ
outer_size (base m n) = 0
outer_size (inner m n p) = length (Locality.item p) + outer_size p

module _ {ℓ} {K V : Type ℓ} ⦃e : Eq K⦄ where
  abbrev pub at : Locality (HashMap K (Option V)) → HashMap K (Option V) → List K → Iter K V
  at l r seen = record { maps = l; inner_iter = r; seen = seen }

  -- An entry whose key was returned before is passed over.
  pub entries_skip :
      (fuel : ℕ) (l : Locality (HashMap K (Option V))) (k : K) (v : V) (r : HashMap K (Option V))
      (seen : List K)
      → contains seen k ≡ true
      → entries fuel (at l ((k, some v) ∷ r) seen) ≡ entries fuel (at l r seen)
  unfolding entries next advance
  entries_skip zero l k v r seen h = refl
  entries_skip (suc fuel) (base m n) k v r seen h = ground arith
  entries_skip (suc fuel) (inner m n p) k v r seen h = ground arith

  -- Any other is returned.
  pub entries_return :
      (fuel : ℕ) (l : Locality (HashMap K (Option V))) (k : K) (v : V) (r : HashMap K (Option V))
      (seen : List K)
      → contains seen k ≡ false
      → entries (suc fuel) (at l ((k, some v) ∷ r) seen)
        ≡ (entries fuel (at l r (k ∷ seen)) >>= λ later. some ((k, v) ∷ later))
  unfolding entries next advance
  entries_return fuel (base m n) k v r seen h = ground arith
  entries_return fuel (inner m n p) k v r seen h = ground arith

  -- The walk goes on to the outer scope.
  pub entries_outer :
      (fuel : ℕ) (m : HashMap K (Option V)) (n : ℕ) (p : Locality (HashMap K (Option V)))
      (seen : List K)
      → entries fuel (at (inner m n p) [] seen) ≡ entries fuel (at p (Locality.item p) seen)
  unfolding entries next advance
  entries_outer zero m n p seen = refl
  entries_outer (suc fuel) m n p seen = refl

  -- A removed key ends the walk of a table.
  entries_removed :
      (fuel : ℕ) (m : HashMap K (Option V)) (n : ℕ) (p : Locality (HashMap K (Option V))) (k : K)
      (r : HashMap K (Option V)) (seen : List K)
      → entries fuel (at (inner m n p) ((k, none) ∷ r) seen)
        ≡ entries fuel (at p (Locality.item p) seen)
  unfolding entries next advance
  entries_removed zero m n p k r seen = refl
  entries_removed (suc fuel) m n p k r seen = refl

  entries-ends :
      (l : Locality (HashMap K (Option V))) (r : HashMap K (Option V)) (seen : List K) (fuel : ℕ)
      → length r + outer_size l < fuel
      → (xs : List (K × V)) × (entries fuel (at l r seen) ≡ some xs)
  entries-ends l r seen zero h = absurd (omega arith)
  entries-ends (base m n) [] seen (suc fuel) h = ([], unfold entries next advance in refl)
  entries-ends (base m n) ((k, none) ∷ r) seen (suc fuel) h =
      ([], unfold entries next advance in refl)
  entries-ends (inner m n p) [] seen (suc fuel) h =
      let (xs, ended) = entries-ends p (Locality.item p) seen (suc fuel) (omega arith) in
      (xs, entries_outer (suc fuel) m n p seen ∙ ended)
  entries-ends (inner m n p) ((k, none) ∷ r) seen (suc fuel) h =
      let (xs, ended) = entries-ends p (Locality.item p) seen (suc fuel) (omega arith) in
      (xs, entries_removed (suc fuel) m n p k r seen ∙ ended)
  entries-ends l ((k, some v) ∷ r) seen (suc fuel) h = elim (Bool-cases (contains seen k)) [
    | inl old ↦
        let (xs, ended) = entries-ends l r seen (suc fuel) (omega arith) in
        (xs, entries_skip (suc fuel) l k v r seen old ∙ ended)
    | inr new ↦
        let (xs, ended) = entries-ends l r (k ∷ seen) fuel (omega arith) in
        ((k, v) ∷ xs, entries_return fuel l k v r seen new ∙ rw ended refl)
  ]

  -- The entries of a map: a round for each entry and one is enough for every map.
  pub all_entries-ends :
      (m : ScopedMap K V)
      → (xs : List (K × V)) × (entries
            (suc (length (Locality.item m.maps) + outer_size m.maps))
            (iter m)
          ≡ some xs)
  unfolding iter
  all_entries-ends m = entries-ends m.maps (Locality.item m.maps) [] _ (omega arith)
