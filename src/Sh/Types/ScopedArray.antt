-- ===== src/Sh/Types/ScopedArray.antt =====
-- libmesabox/src/posix/sh/types/scoped_array.rs: an array of values that are restored at the end of
-- a scope. The fixed size is the length of the list; an index out of range panics (`none`).
use mesabox.Common.{ℕ, zero, suc, Option, none, some, List, [], ◌∷◌, map, ◌>>=◌}
use mesabox.Sh.Types.Locality
use mesabox.Sh.Types.Locality.{Locality}

pub record ScopedArray {ℓ} (V : Type ℓ) : Type ℓ where
  pub inner : List (Locality V)

module _ {ℓ} {V : Type ℓ} where
  abbrev pub set_at : List (Locality V) → ℕ → V → Option (List (Locality V))
  set_at [] i v = none
  set_at (l ∷ ls) zero v = some (Locality.set_val l v ∷ ls)
  set_at (l ∷ ls) (suc i) v = set_at ls i v >>= λ ls'. some (l ∷ ls')

  abbrev pub at : List (Locality V) → ℕ → Option V
  at [] i = none
  at (l ∷ ls) zero = some (Locality.current_val l)
  at (l ∷ ls) (suc i) = at ls i

  abbrev pub exit_all : List (Locality V) → Option (List (Locality V))
  exit_all [] = some []
  exit_all (l ∷ ls) = Locality.exit_scope l >>= λ l'. exit_all ls >>= λ ls'. some (l' ∷ ls')

  abbrev pub of_inner : List (Locality V) → ScopedArray V
  of_inner ls = record { inner = ls }

  unfoldable pub set_val : ScopedArray V → ℕ → V → Option (ScopedArray V)
  unfolding Locality.set_val
  set_val a i v = set_at a.inner i v >>= λ ls. some (of_inner ls)

  -- `self.fds[i]`
  unfoldable pub index : ScopedArray V → ℕ → Option V
  unfolding Locality.current_val
  index a i = at a.inner i

  -- What `iter_mut` lends, in order.
  unfoldable pub values : ScopedArray V → List V
  unfolding Locality.current_val
  values a = map Locality.current_val a.inner

  unfoldable pub enter_scope : ScopedArray V → ScopedArray V
  unfolding Locality.enter_scope
  enter_scope a = of_inner (map Locality.enter_scope a.inner)

  unfoldable pub exit_scope : ScopedArray V → Option (ScopedArray V)
  unfolding Locality.exit_scope
  exit_scope a = exit_all a.inner >>= λ ls. some (of_inner ls)
