-- ===== src/Sh/Env/Vars.antt =====
-- What a variable of the shell reads as after each operation on the variables.
use mesabox.Common.{◌≡◌, ◌⊎◌, inl, inr, none, some, arith, Option-cases, if◌then◌else◌}
use mesabox.Common.Bytes.{Bytes, bytes_eq, bytes_eq_iff, bytes_Eq}
use mesabox.Sh.Types.ScopedMap
use mesabox.Sh.Env.Defs.{Environment, set_var, set_export_var, export_var, get_var, remove_var}

module _ {F : Type 0} where
  -- Neither map has an open scope, and no name has an entry in both.
  pub record IsValid (env : Environment F) : Type 0 where
    pub flat_vars : ScopedMap.IsFlat env.vars
    pub flat_export : ScopedMap.IsFlat env.export_vars
    pub disjoint :
        (k : Bytes) → (ScopedMap.get env.vars k ≡ none) ⊎ (ScopedMap.get env.export_vars k ≡ none)

  -- In a valid environment (the variables have no open scope, and no name is both a plain and an
  -- exported variable) `set_var` gives the name the new value, and every other name keeps its value.
  pub get_var-set_var :
      (env : Environment F) (k j v : Bytes)
      → IsValid env
      → get_var (set_var env k v).0 j ≡ (if bytes_eq k j then some v else get_var env j)
  unfolding get_var set_var
  get_var-set_var env k j v h = ground (
    arith,
    bytes_eq_iff k j,
    ScopedMap.get_mut-eq-get env.vars k h.flat_vars,
    ScopedMap.get_mut-eq-get env.export_vars k h.flat_export,
    ScopedMap.get-write_mut env.vars k j v,
    ScopedMap.get-write_mut env.export_vars k j (some v),
    ScopedMap.get-insert env.vars k j v,
    h.disjoint k,
  )

  -- In a valid environment `remove_var` leaves the name without a value, and every other name keeps
  -- its value.
  pub get_var-remove_var :
      (env : Environment F) (k j : Bytes)
      → IsValid env
      → get_var (remove_var env k).0 j ≡ (if bytes_eq k j then none else get_var env j)
  unfolding get_var remove_var
  get_var-remove_var env k j h = ground (
    arith,
    bytes_eq_iff k j,
    ScopedMap.remove-eq-get env.vars k h.flat_vars,
    ScopedMap.get-remove env.vars k j,
    ScopedMap.get-remove env.export_vars k j,
    h.disjoint k,
  )

  -- In a valid environment exporting a name changes no variable's value.
  pub get_var-export_var :
      (env : Environment F) (k j : Bytes)
      → IsValid env
      → get_var (export_var env k) j ≡ get_var env j
  unfolding get_var export_var ScopedMap.contains_key
  get_var-export_var env k j h = elim (Option-cases (ScopedMap.get env.vars k)) [
    | inl absent ↦ ground (
      arith,
      bytes_eq_iff k j,
      absent,
      ScopedMap.remove-eq-get env.vars k h.flat_vars,
      ScopedMap.get-remove env.vars k j,
      ScopedMap.get-insert env.export_vars k j none,
    )
    | inr (v, bound) ↦ ground (
      arith,
      bytes_eq_iff k j,
      bound,
      ScopedMap.remove-eq-get env.vars k h.flat_vars,
      ScopedMap.get-remove env.vars k j,
      ScopedMap.get-insert env.export_vars k j (some v),
      h.disjoint k,
    )
  ]

  -- In a valid environment setting an exported variable that is no plain variable gives it the new
  -- value and changes no other.
  pub get_var-set_export_var :
      (env : Environment F) (k j v : Bytes)
      → IsValid env
      → ScopedMap.get env.vars k ≡ none
      → get_var (set_export_var env k v).0 j ≡ (if bytes_eq k j then some v else get_var env j)
  unfolding get_var set_export_var
  get_var-set_export_var env k j v h absent = ground (
    arith,
    bytes_eq_iff k j,
    ScopedMap.get_mut-eq-get env.export_vars k h.flat_export,
    ScopedMap.get-write_mut env.export_vars k j (some v),
    ScopedMap.get-insert env.export_vars k j (some v),
  )

  -- `set_export_var` leaves the maps of plain variables alone, so a plain variable of that name
  -- goes on hiding the exported one.
  pub set_export_var_hidden :
      (env : Environment F) (k v : Bytes) {old : Bytes}
      → ScopedMap.get env.vars k ≡ some old
      → get_var (set_export_var env k v).0 k ≡ some old
  unfolding get_var set_export_var
  set_export_var_hidden env k v h = ground (arith, h)
