-- ===== src/Sh/Env/Fds.antt =====
-- What the descriptors stand for after one of them is set (libmesabox/src/posix/sh/env.rs).
use mesabox.Common.{
  ℕ, zero, suc, ◌≡◌, refl, ap, ◌∙◌, Option, Option-cases, inl, inr, some, List, [], ◌∷◌, ◌==◌,
  ◌>>=◌, if◌then◌else◌, arith,
}
use mesabox.Sh.Types.Locality
use mesabox.Sh.Types.Locality.{Locality, base, inner}
use mesabox.Sh.Types.ScopedArray.{at, set_at}
use mesabox.Sh.Env.Fd.{EnvFd}
use mesabox.Sh.Env.Defs.{Environment, set_fd, get_fd}

module _ {T : Type 0} where
  current_val-set_val : (l : Locality T) (v : T) → Locality.current_val (Locality.set_val l v) ≡ v
  unfolding Locality.current_val Locality.set_val
  current_val-set_val (base x zero) v = refl
  current_val-set_val (base x (suc n)) v = ground arith
  current_val-set_val (inner x zero p) v = refl
  current_val-set_val (inner x (suc n) p) v = ground arith

  at-set_at :
      (ls ls' : List (Locality T)) (i j : ℕ) (v : T)
      → set_at ls i v ≡ some ls'
      → at ls' j ≡ (if j == i then some v else at ls j)
  at-set_at [] ls' i j v h = ground (arith, h)
  at-set_at (l ∷ ls) ls' zero zero v h = ground (arith, h, current_val-set_val l v)
  at-set_at (l ∷ ls) ls' zero (suc j) v h = ground (arith, h)
  at-set_at (l ∷ ls) ls' (suc i) j v h = elim (Option-cases (set_at ls i v)) [
    | inl n ↦ absurd (cc (h, n))
    | inr (ls'', e) ↦ behind j ls'' (cc (h, e)) (λ k. at-set_at ls ls'' i k v e)
  ]
    where
      behind :
          (j : ℕ) (ls'' : List (Locality T))
          → ls' ≡ l ∷ ls''
          → ((k : ℕ) → at ls'' k ≡ (if k == i then some v else at ls k))
          → at ls' j ≡ (if j == suc i then some v else at (l ∷ ls) j)
      behind zero ls'' f ih = ground (arith, f)
      behind (suc j) ls'' f ih = ground (arith, f, ih j)

module _ {F : Type 0} where
  with_fds : Environment F → Option (List (Locality EnvFd)) → Option (Environment F)
  with_fds env o =
      o >>= λ ls. some (record { inner = ls }) >>= λ fds. some (record env { fds = fds })

  -- A descriptor that is set stands for the new value, and every other one for what it did.
  pub get_fd-set_fd :
      (env env' : Environment F) (i j : ℕ) (v : EnvFd)
      → set_fd env i v ≡ some env'
      → get_fd env' j ≡ (if j == i then some v else get_fd env j)
  unfolding set_fd get_fd
  get_fd-set_fd env env' i j v h = elim (Option-cases (set_at env.fds.inner i v)) [
    | inl n ↦ absurd (cc (h, n))
    | inr (ls, e) ↦ changed ls (cc (h, e)) (at-set_at env.fds.inner ls i j v e)
  ]
    where
      changed :
          (ls : List (Locality EnvFd))
          → env' ≡ record env { fds = record { inner = ls } }
          → at ls j ≡ (if j == i then some v else get_fd env j)
          → get_fd env' j ≡ (if j == i then some v else get_fd env j)
      changed ls f g = ap (λ e. at e.fds.inner j) f ∙ g
