-- ===== src/Sh/Types/Locality/Blocks.antt =====
-- What a well-nested run of `Locality` operations leaves behind.
use mesabox.Common.{◌≡◌, refl, Option, some, arith, ◌>>=◌, ◌⊎◌, inl, inr}
use mesabox.Sh.Types.Locality.Defs.{Locality, base, inner, set_val, enter_scope, exit_scope}

-- A run in which every scope that is entered is left again.
pub data Block {ℓ} (T : Type ℓ) : Type ℓ where
  done : Block T
  set : T → Block T → Block T
  scope : Block T → Block T → Block T

module _ {ℓ} {T : Type ℓ} where
  unfoldable pub run : Block T → Locality T → Option (Locality T)
  run done l = some l
  run (set v b) l = run b (set_val l v)
  run (scope b c) l = run b (enter_scope l) >>= λ l'. exit_scope l' >>= λ l''. run c l''

  -- Inside a scope that was entered at `l`: nothing set yet, or a value above `l`.
  unfoldable pub Above : Locality T → Locality T → Type ℓ
  Above l l' = (l' ≡ enter_scope l) ⊎ ((v : T) × (l' ≡ inner v 0 l))

  pub enter_scope-Above : (l : Locality T) → Above l (enter_scope l)
  unfolding Above
  enter_scope-Above l = inl refl

  pub set_val-Above : (l l' : Locality T) (v : T) → Above l l' → Above l (set_val l' v)
  unfolding Above set_val enter_scope
  set_val-Above (base x n) l' v (inl e) = inr (v, rw e (ground arith))
  set_val-Above (inner x n p) l' v (inl e) = inr (v, rw e (ground arith))
  set_val-Above l l' v (inr (w, e)) = inr (v, rw e)

  pub exit_scope-Above : (l l' : Locality T) → Above l l' → exit_scope l' ≡ some l
  unfolding Above exit_scope enter_scope
  exit_scope-Above (base x n) l' (inl e) = rw e (ground arith)
  exit_scope-Above (inner x n p) l' (inl e) = rw e (ground arith)
  exit_scope-Above l l' (inr (w, e)) = rw e

  -- A block neither panics nor leaves the scope that it runs in.
  run-Above :
      (b : Block T) (l l' : Locality T)
      → Above l l'
      → (l'' : Locality T) × (run b l' ≡ some l'') × Above l l''
  unfolding run
  run-Above done l l' a = (l', refl, a)
  run-Above (set v b) l l' a = run-Above b l (set_val l' v) (set_val-Above l l' v a)
  run-Above (scope b c) l l' a =
      let (m, e, above) = run-Above b l' (enter_scope l') (enter_scope-Above l') in
      rw (e, exit_scope-Above l' m above) (run-Above c l l' a)

  -- Whatever well-nested operations run inside a scope, leaving it brings the `Locality` back to
  -- exactly the state in which the scope was entered, and nothing panics on the way.
  pub block_restores : (b : Block T) (l : Locality T) → run (scope b done) l ≡ some l
  unfolding run
  block_restores b l =
      let (m, e, above) = run-Above b l (enter_scope l) (enter_scope-Above l) in
      rw (e, exit_scope-Above l m above)
