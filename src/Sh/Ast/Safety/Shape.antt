-- ===== src/Sh/Ast/Safety/Shape.antt =====
-- How many scopes and loops an environment has open, and what changes that.
use mesabox.Common.{
  ℕ, zero, suc, ◌+◌, ◌<◌, ◌≤◌, ◌≡◌, refl, ap, none, some, List, [], ◌∷◌, map, length, arith,
}
use mesabox.Common.Bytes.{Bytes}
use mesabox.Sh.Types.Locality
use mesabox.Sh.Types.Locality.{Locality, base, inner}
use mesabox.Sh.Types.ScopedArray.{at, set_at, exit_all}
use mesabox.Sh.Env.{
  Environment, set_var, set_func, set_fd, get_fd, set_positionals, enter_scope, exit_scope,
}
use mesabox.Sh.Env.Fd.{EnvFd}

-- The scopes outside the current one.
abbrev pub scopes {ℓ} : {T : Type ℓ} → Locality T → ℕ
scopes (base x n) = n
scopes (inner x n p) = n + suc (scopes p)

module _ {T : Type 0} where
  scopes-enter_scope : (l : Locality T) → scopes (Locality.enter_scope l) ≡ suc (scopes l)
  unfolding Locality.enter_scope
  scopes-enter_scope (base x n) = omega arith
  scopes-enter_scope (inner x n p) = omega arith

  scopes-set_val : (l : Locality T) (v : T) → scopes (Locality.set_val l v) ≡ scopes l
  unfolding Locality.set_val
  scopes-set_val (base x zero) v = refl
  scopes-set_val (base x (suc n)) v = ground arith
  scopes-set_val (inner x zero p) v = refl
  scopes-set_val (inner x (suc n) p) v = ground arith

  exit_scope-scopes :
      (l : Locality T) (n : ℕ)
      → scopes l ≡ suc n
      → (l' : Locality T) × (Locality.exit_scope l ≡ some l') × (scopes l' ≡ n)
  unfolding Locality.exit_scope
  exit_scope-scopes (base x zero) n h = absurd (omega arith)
  exit_scope-scopes (base x (suc m)) n h = (base x m, ground arith, omega arith)
  exit_scope-scopes (inner x zero p) n h = (p, refl, omega arith)
  exit_scope-scopes (inner x (suc m) p) n h = (inner x m p, ground arith, omega arith)

  scopes-enter_all :
      (ls : List (Locality T)) → map scopes (map Locality.enter_scope ls) ≡ map suc (map scopes ls)
  scopes-enter_all [] = refl
  scopes-enter_all (l ∷ ls) = cc (scopes-enter_scope l, scopes-enter_all ls)

  exit_all-scopes :
      (ls : List (Locality T)) (ns : List ℕ)
      → map scopes ls ≡ map suc ns
      → (ls' : List (Locality T)) × (exit_all ls ≡ some ls') × (map scopes ls' ≡ ns)
  exit_all-scopes [] [] h = ([], refl, refl)
  exit_all-scopes [] (n ∷ ns) h = absurd (cc h)
  exit_all-scopes (l ∷ ls) [] h = absurd (cc h)
  exit_all-scopes (l ∷ ls) (n ∷ ns) h =
      let (l', e, f) = exit_scope-scopes l n (cc h) in
      let (ls', es, fs) = exit_all-scopes ls ns (cc h) in (l' ∷ ls', rw (e, es), cc (f, fs))

  set_at-scopes :
      (ls : List (Locality T)) (i : ℕ) (v : T)
      → i < length (map scopes ls)
      → (ls' : List (Locality T)) × (set_at ls i v ≡ some ls') × (map scopes ls' ≡ map scopes ls)
  set_at-scopes [] i v h = absurd (omega arith)
  set_at-scopes (l ∷ ls) zero v h = (Locality.set_val l v ∷ ls, refl, cc (scopes-set_val l v))
  set_at-scopes (l ∷ ls) (suc i) v h =
      let (ls', e, f) = set_at-scopes ls i v (omega arith) in (l ∷ ls', rw e, cc f)

  set_at-outside :
      (ls : List (Locality T)) (i : ℕ) (v : T) → length (map scopes ls) ≤ i → set_at ls i v ≡ none
  set_at-outside [] i v h = refl
  set_at-outside (l ∷ ls) zero v h = absurd (omega arith)
  set_at-outside (l ∷ ls) (suc i) v h = rw (set_at-outside ls i v (omega arith)) refl

  at-scopes :
      (ls : List (Locality T)) (i : ℕ) → i < length (map scopes ls) → (v : T) × (at ls i ≡ some v)
  at-scopes [] i h = absurd (omega arith)
  at-scopes (l ∷ ls) zero h = (Locality.current_val l, refl)
  at-scopes (l ∷ ls) (suc i) h = at-scopes ls i (omega arith)

-- The loops, and the scopes of the positional arguments and of each descriptor.
abbrev pub Shape : Type 0
Shape = ℕ × ℕ × List ℕ

abbrev pub deeper : Shape → Shape
deeper (loops, args, fds) = (suc loops, args, fds)

abbrev pub entered : Shape → Shape
entered (loops, args, fds) = (loops, suc args, map suc fds)

-- The standard streams are there.
abbrev pub HasStreams : Shape → Type 0
HasStreams (loops, args, fds) = 1 < length fds

length-map-suc : (ns : List ℕ) → length (map suc ns) ≡ length ns
length-map-suc [] = refl
length-map-suc (n ∷ ns) = ap suc (length-map-suc ns)

pub entered-HasStreams : (s : Shape) → HasStreams s → HasStreams (entered s)
entered-HasStreams (loops, args, fds) h = omega (arith, length-map-suc fds)

abbrev pub descriptors : Shape → ℕ
descriptors (loops, args, fds) = length fds

module _ {F : Type 0} where
  unfoldable pub shape : Environment F → Shape
  shape env = (env.loop_depth, scopes env.special_vars.args, map scopes env.fds.inner)

  pub shape-set_var : (env : Environment F) (k v : Bytes) → shape (set_var env k v).0 ≡ shape env
  unfolding shape set_var
  shape-set_var env k v = ground arith

  pub shape-set_func :
      (env : Environment F) (k : Bytes) (f : F) → shape (set_func env k f).0 ≡ shape env
  unfolding shape set_func
  shape-set_func env k f = ground arith

  pub shape-set_positionals :
      (env : Environment F) (args : List Bytes)
      → shape (record env { special_vars = set_positionals env.special_vars args }) ≡ shape env
  unfolding shape set_positionals
  shape-set_positionals env args = rw (scopes-set_val env.special_vars.args args)

  pub shape-enter_scope : (env : Environment F) → shape (enter_scope env) ≡ entered (shape env)
  unfolding shape enter_scope
  shape-enter_scope env =
      rw (scopes-enter_scope env.special_vars.args, scopes-enter_all env.fds.inner)

  pub exit_scope-shape :
      (env : Environment F) (s : Shape)
      → shape env ≡ entered s
      → (env' : Environment F) × (exit_scope env ≡ some env') × (shape env' ≡ s)
  unfolding shape exit_scope
  exit_scope-shape env (loops, args, fds) h =
      let (l, e, f) = exit_scope-scopes env.special_vars.args args (cc h) in
      let (ls, es, fs) = exit_all-scopes env.fds.inner fds (cc h) in
      (
        record env {
          fds = record { inner = ls };
          special_vars = record (env.special_vars) { args = l };
        },
        rw (e, es),
        cc (f, fs, h),
      )

  pub set_fd-shape_any :
      (env : Environment F) (i : ℕ) (v : EnvFd)
      → i < descriptors (shape env)
      → (env' : Environment F) × (set_fd env i v ≡ some env') × (shape env' ≡ shape env)
  unfolding shape set_fd
  set_fd-shape_any env i v h =
      let (ls, e, f) = set_at-scopes env.fds.inner i v h in
      (record env { fds = record { inner = ls } }, rw e, cc f)

  pub set_fd-outside :
      (env : Environment F) (i : ℕ) (v : EnvFd)
      → descriptors (shape env) ≤ i
      → set_fd env i v ≡ none
  unfolding shape set_fd
  set_fd-outside env i v h = rw (set_at-outside env.fds.inner i v h) refl

  pub get_fd-shape_any :
      (env : Environment F) (i : ℕ)
      → i < descriptors (shape env)
      → (v : EnvFd) × (get_fd env i ≡ some v)
  unfolding shape get_fd
  get_fd-shape_any env i h = at-scopes env.fds.inner i h

  -- The standard streams are below every other descriptor.
  pub set_fd-shape :
      (env : Environment F) (i : ℕ) (v : EnvFd)
      → i ≤ 1
      → HasStreams (shape env)
      → (env' : Environment F) × (set_fd env i v ≡ some env') × (shape env' ≡ shape env)
  set_fd-shape env i v hi h = set_fd-shape_any env i v (omega arith)

  pub get_fd-shape :
      (env : Environment F) (i : ℕ)
      → i ≤ 1
      → HasStreams (shape env)
      → (v : EnvFd) × (get_fd env i ≡ some v)
  get_fd-shape env i hi h = get_fd-shape_any env i (omega arith)
