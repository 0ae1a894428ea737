-- ===== src/Sh/Types/Locality/Defs.antt =====
-- libmesabox/src/posix/sh/types/mod.rs: `Locality<T>` and its `Scoped` implementation.
use mesabox.Common.{ℕ, ◌+◌, ◌-◌, Option, none, some, ◌==◌, if◌then◌else◌}

-- Without and with a `parent`.
pub data Locality {ℓ} (T : Type ℓ) : Type ℓ where
  base : T → ℕ → Locality T
  inner : T → ℕ → Locality T → Locality T

module _ {ℓ} {T : Type ℓ} where
  abbrev pub new : T → ℕ → Option (Locality T) → Locality T
  new item count none = base item count
  new item count (some parent) = inner item count parent

  abbrev pub item : Locality T → T
  item (base x n) = x
  item (inner x n p) = x

  abbrev pub count : Locality T → ℕ
  count (base x n) = n
  count (inner x n p) = n

  abbrev pub parent : Locality T → Option (Locality T)
  parent (base x n) = none
  parent (inner x n p) = some p

  -- `current_val`, and a write through `current_val_mut`
  unfoldable pub current_val : Locality T → T
  current_val l = item l

  unfoldable pub with_current_val : Locality T → T → Locality T
  with_current_val l v = new v (count l) (parent l)

  unfoldable pub outer_scope : Locality T → Option (Locality T)
  outer_scope l = parent l

  unfoldable pub set_val : Locality T → T → Locality T
  set_val l value =
      if count l == 0
      then new value (count l) (parent l)
      else new value 0 (some (new (item l) (count l - 1) (parent l)))

  unfoldable pub enter_scope : Locality T → Locality T
  enter_scope l = new (item l) (count l + 1) (parent l)

  -- `none` is the panic of `parent.unwrap()` in the base scope.
  unfoldable pub exit_scope : Locality T → Option (Locality T)
  exit_scope l = if count l == 0 then parent l else some (new (item l) (count l - 1) (parent l))
