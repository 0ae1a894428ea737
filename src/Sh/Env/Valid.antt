-- ===== src/Sh/Env/Valid.antt =====
-- libmesabox/src/posix/sh/env.rs: the invariant of the variables.
use mesabox.Common.{◌≡◌, ◌⊎◌, inl, inr, none, some, arith, Bool-cases, Option-cases}
use mesabox.Common.Bytes.{Bytes, bytes_eq_iff, bytes_Eq}
use mesabox.Sh.Types.ScopedMap
use mesabox.Sh.Env.Defs.{Environment, set_var, export_var, remove_var}
use mesabox.Sh.Env.Vars.{IsValid}

module _ {F : Type 0} where
  abbrev Flat : Environment F → Type 0
  Flat env = ScopedMap.IsFlat env.vars × ScopedMap.IsFlat env.export_vars

  abbrev DisjointAt : Environment F → Bytes → Type 0
  DisjointAt env j = (ScopedMap.get env.vars j ≡ none) ⊎ (ScopedMap.get env.export_vars j ≡ none)

  set_var-Flat : (env : Environment F) (k v : Bytes) → IsValid env → Flat (set_var env k v).0
  unfolding set_var
  set_var-Flat env k v h = elim (Option-cases (ScopedMap.get_mut env.vars k)) [
    | inr (old, e) ↦
        rw (e, set_var) (ScopedMap.write_mut-IsFlat env.vars k v h.flat_vars, h.flat_export)
    | inl e ↦ elim (Option-cases (ScopedMap.get_mut env.export_vars k)) [
      | inr (old, f) ↦
          rw (e, f, set_var)
            (h.flat_vars, ScopedMap.write_mut-IsFlat env.export_vars k (some v) h.flat_export)
      | inl f ↦ rw (e, f, set_var) (ScopedMap.insert-IsFlat env.vars k v h.flat_vars, h.flat_export)
    ]
  ]

  set_var-disjoint :
      (env : Environment F) (k v : Bytes)
      → IsValid env
      → (j : Bytes) → DisjointAt (set_var env k v).0 j
  unfolding set_var
  set_var-disjoint env k v h j = ground (
    arith,
    bytes_eq_iff k j,
    ScopedMap.get_mut-eq-get env.vars k h.flat_vars,
    ScopedMap.get_mut-eq-get env.export_vars k h.flat_export,
    ScopedMap.get-write_mut env.vars k j v,
    ScopedMap.get-write_mut env.export_vars k j (some v),
    ScopedMap.get-insert env.vars k j v,
    h.disjoint k,
    h.disjoint j,
  )

  remove_var-Flat : (env : Environment F) (k : Bytes) → IsValid env → Flat (remove_var env k).0
  unfolding remove_var
  remove_var-Flat env k h = elim (Option-cases (ScopedMap.remove env.vars k).1) [
    | inr (old, e) ↦
        rw (e, remove_var) (ScopedMap.remove-IsFlat env.vars k h.flat_vars, h.flat_export)
    | inl e ↦
        rw (e, remove_var)
          (
            ScopedMap.remove-IsFlat env.vars k h.flat_vars,
            ScopedMap.remove-IsFlat env.export_vars k h.flat_export,
          )
  ]

  remove_var-disjoint :
      (env : Environment F) (k : Bytes)
      → IsValid env
      → (j : Bytes) → DisjointAt (remove_var env k).0 j
  unfolding remove_var
  remove_var-disjoint env k h j = ground (
    arith,
    bytes_eq_iff k j,
    ScopedMap.get-remove env.vars k j,
    ScopedMap.get-remove env.export_vars k j,
    h.disjoint j,
  )

  export_var-Flat : (env : Environment F) (k : Bytes) → IsValid env → Flat (export_var env k)
  unfolding export_var
  export_var-Flat env k h = elim (Option-cases (ScopedMap.remove env.vars k).1) [
    | inr (v, e) ↦
        rw (e, export_var)
          (
            ScopedMap.remove-IsFlat env.vars k h.flat_vars,
            ScopedMap.insert-IsFlat env.export_vars k (some v) h.flat_export,
          )
    | inl e ↦ elim (Bool-cases (ScopedMap.contains_key env.export_vars k)) [
      | inl f ↦
          rw (e, f, export_var) (ScopedMap.remove-IsFlat env.vars k h.flat_vars, h.flat_export)
      | inr f ↦
          rw (e, f, export_var)
            (
              ScopedMap.remove-IsFlat env.vars k h.flat_vars,
              ScopedMap.insert-IsFlat env.export_vars k none h.flat_export,
            )
    ]
  ]

  export_var-disjoint :
      (env : Environment F) (k : Bytes)
      → IsValid env
      → (j : Bytes) → DisjointAt (export_var env k) j
  unfolding export_var
  export_var-disjoint env k h j = elim (Option-cases (ScopedMap.remove env.vars k).1) [
    | inr (v, e) ↦ ground (
      arith,
      e,
      bytes_eq_iff k j,
      ScopedMap.get-remove env.vars k j,
      ScopedMap.get-insert env.export_vars k j (some v),
      h.disjoint j,
    )
    | inl e ↦ ground (
      arith,
      e,
      bytes_eq_iff k j,
      ScopedMap.get-remove env.vars k j,
      ScopedMap.get-insert env.export_vars k j none,
      h.disjoint j,
    )
  ]

  -- Setting, removing and exporting a variable each keep the environment valid: neither map of
  -- variables has an open scope, and no name is bound in both.
  pub variables-IsValid :
      (env : Environment F) (k v : Bytes)
      → IsValid env
      → IsValid (set_var env k v).0 × IsValid (remove_var env k).0 × IsValid (export_var env k)
  variables-IsValid env k v h =
      let (sv, se) = set_var-Flat env k v h in
      let (rv, re) = remove_var-Flat env k h in
      let (ev, ee) = export_var-Flat env k h in
      (
        record { flat_vars = sv; flat_export = se; disjoint = set_var-disjoint env k v h },
        record { flat_vars = rv; flat_export = re; disjoint = remove_var-disjoint env k h },
        record { flat_vars = ev; flat_export = ee; disjoint = export_var-disjoint env k h },
      )
