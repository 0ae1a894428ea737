-- ===== src/Sh/Types/Locality/Stack.antt =====
-- `Locality<T>` against a stack with one value for each scope that is open.
use mesabox.Common.{zero, suc, ◌≡◌, refl, Option, none, some, List, [], ◌∷◌, ◌++◌, arith}
use mesabox.Common.{replicate}
use mesabox.Sh.Types.Locality.Defs.{
  Locality, base, inner, current_val, set_val, enter_scope, exit_scope,
}

module _ {ℓ} {T : Type ℓ} where
  -- The values of the scopes, the current one first.
  unfoldable pub stack : Locality T → List T
  stack (base x n) = x ∷ replicate n x
  stack (inner x n p) = x ∷ (replicate n x ++ stack p)

  -- The operations of the stack; `none` where the last scope would be left.
  abbrev pub push_top : List T → List T
  push_top [] = []
  push_top (x ∷ s) = x ∷ x ∷ s

  abbrev pub set_top : List T → T → List T
  set_top [] v = []
  set_top (x ∷ s) v = v ∷ s

  abbrev pub pop : List T → Option (List T)
  pop [] = none
  pop (x ∷ []) = none
  pop (x ∷ y ∷ s) = some (y ∷ s)

  abbrev pub map_stack : Option (Locality T) → Option (List T)
  map_stack none = none
  map_stack (some l) = some (stack l)

  stack-enter_scope : (l : Locality T) → stack (enter_scope l) ≡ push_top (stack l)
  unfolding stack enter_scope
  stack-enter_scope (base x n) = ground arith
  stack-enter_scope (inner x n p) = ground arith

  stack-set_val : (l : Locality T) (v : T) → stack (set_val l v) ≡ set_top (stack l) v
  unfolding stack set_val
  stack-set_val (base x zero) v = refl
  stack-set_val (base x (suc n)) v = ground arith
  stack-set_val (inner x zero p) v = refl
  stack-set_val (inner x (suc n) p) v = ground arith

  stack-exit_scope : (l : Locality T) → map_stack (exit_scope l) ≡ pop (stack l)
  unfolding stack exit_scope
  stack-exit_scope (base x zero) = refl
  stack-exit_scope (base x (suc n)) = ground arith
  stack-exit_scope (inner x zero (base y m)) = refl
  stack-exit_scope (inner x zero (inner y m p)) = refl
  stack-exit_scope (inner x (suc n) p) = ground arith

  -- A `Locality` behaves as a stack with one value for each open scope: entering a scope repeats
  -- the top, setting a value replaces the top, leaving a scope drops the top and panics exactly
  -- when no other scope is open, and the current value is the top.
  pub locality_refines_stack :
      (l : Locality T) (v : T)
      → (stack (enter_scope l) ≡ push_top (stack l))
        × (stack (set_val l v) ≡ set_top (stack l) v)
        × (map_stack (exit_scope l) ≡ pop (stack l))
        × (stack l ≡ set_top (stack l) (current_val l))
  unfolding current_val stack
  locality_refines_stack (base x n) v =
      (stack-enter_scope (base x n), stack-set_val (base x n) v, stack-exit_scope (base x n), refl)
  locality_refines_stack (inner x n p) v = (
    stack-enter_scope (inner x n p),
    stack-set_val (inner x n p) v,
    stack-exit_scope (inner x n p),
    refl,
  )
