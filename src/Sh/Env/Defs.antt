-- ===== src/Sh/Env/Defs.antt =====
-- libmesabox/src/posix/sh/env.rs: `Environment`. A function's body is a parameter, and the set of
-- builtins, which never changes, is not kept. `set_func` and `get_func` share bodies by `Rc`; the
-- bodies are not mutated, so sharing them is not modelled.
use mesabox.Common.{ℕ, Option, none, some, List, [], ◌∷◌, or_else, ◌>>=◌, replicate, if◌then◌else◌}
use mesabox.Common.Bytes.{Bytes, bytes_Eq}
use mesabox.Sh.Types.Locality
use mesabox.Sh.Types.ScopedMap
use mesabox.Sh.Types.ScopedMap.{ScopedMap}
use mesabox.Sh.Types.ScopedArray
use mesabox.Sh.Types.ScopedArray.{ScopedArray}
use mesabox.Sh.Env.Fd.{EnvFd, null}
use mesabox.Sh.Env.Special.{SpecialVars, new_vars}

pub data CheckBreak : Type 0 where
  no_break break continue : CheckBreak

-- option.rs
abbrev pub fd_count : ℕ
fd_count = 9

pub record Environment (F : Type 0) : Type 0 where
  pub special_vars : SpecialVars
  pub vars : ScopedMap Bytes Bytes
  pub export_vars : ScopedMap Bytes (Option Bytes)
  pub funcs : ScopedMap Bytes F
  pub fds : ScopedArray EnvFd
  pub break_counter : ℕ
  pub break_type : CheckBreak
  pub loop_depth : ℕ

abbrev exported : List (Bytes × Bytes) → List (Bytes × Option Bytes)
exported [] = []
exported ((k, v) ∷ rest) = (k, some v) ∷ exported rest

abbrev nonempty : Bytes → Option Bytes
nonempty [] = none
nonempty (b ∷ v) = some (b ∷ v)

module _ {F : Type 0} where
  -- `From<T>` for an iterator over the variables of the process
  unfoldable pub from_vars : List (Bytes × Bytes) → Environment F
  unfolding ScopedMap.empty ScopedMap.from_iter
  from_vars items = record {
    special_vars = new_vars;
    vars = ScopedMap.empty;
    export_vars = ScopedMap.from_iter (exported items);
    funcs = ScopedMap.empty;
    fds = record { inner = replicate fd_count (Locality.new null 0 none) };
    break_counter = 0;
    break_type = no_break;
    loop_depth = 0;
  }

  -- The variable's new value, and the old one.
  unfoldable pub set_var : Environment F → Bytes → Bytes → Environment F × Option Bytes
  unfolding ScopedMap.get_mut ScopedMap.write_mut ScopedMap.insert
  set_var env name v = elim (ScopedMap.get_mut env.vars name) [
    | some old ↦ (record env { vars = ScopedMap.write_mut env.vars name v }, some old)
    | none ↦ elim (ScopedMap.get_mut env.export_vars name) [
      | some old ↦
          (record env { export_vars = ScopedMap.write_mut env.export_vars name (some v) }, old)
      | none ↦ (
        record env { vars = (ScopedMap.insert env.vars name v).0 },
        (ScopedMap.insert env.vars name v).1,
      )
    ]
  ]

  unfoldable pub set_export_var :
      Environment F → Bytes → Bytes → Environment F × Option (Option Bytes)
  unfolding ScopedMap.get_mut ScopedMap.write_mut ScopedMap.insert
  set_export_var env name v = elim (ScopedMap.get_mut env.export_vars name) [
    | some old ↦
        (record env { export_vars = ScopedMap.write_mut env.export_vars name (some v) }, some old)
    | none ↦ (
      record env { export_vars = (ScopedMap.insert env.export_vars name (some v)).0 },
      (ScopedMap.insert env.export_vars name (some v)).1,
    )
  ]

  -- `remove` changes `vars` on every branch.
  unfoldable pub export_var : Environment F → Bytes → Environment F
  unfolding ScopedMap.remove ScopedMap.insert ScopedMap.contains_key
  export_var env name =
      let removed = ScopedMap.remove env.vars name in
      elim removed.1 [
        | some v ↦ record env {
          vars = removed.0;
          export_vars = (ScopedMap.insert env.export_vars name (some v)).0;
        }
        | none ↦
            if ScopedMap.contains_key env.export_vars name
            then record env { vars = removed.0 }
            else record env {
              vars = removed.0;
              export_vars = (ScopedMap.insert env.export_vars name none).0;
            }
      ]

  unfoldable pub get_var : Environment F → Bytes → Option Bytes
  unfolding ScopedMap.get
  get_var env name =
      or_else (ScopedMap.get env.vars name) (ScopedMap.get env.export_vars name >>= λ v. v)

  unfoldable pub get_var_nonempty : Environment F → Bytes → Option Bytes
  unfolding get_var
  get_var_nonempty env name = get_var env name >>= nonempty

  -- `export_vars` is asked only if `vars` had no value to remove.
  unfoldable pub remove_var : Environment F → Bytes → Environment F × Option Bytes
  unfolding ScopedMap.remove
  remove_var env name =
      let removed = ScopedMap.remove env.vars name in
      elim removed.1 [
        | some v ↦ (record env { vars = removed.0 }, some v)
        | none ↦
            let exported = ScopedMap.remove env.export_vars name in
            (record env { vars = removed.0; export_vars = exported.0 }, exported.1 >>= λ v. v)
      ]

  unfoldable pub set_func : Environment F → Bytes → F → Environment F × Option F
  unfolding ScopedMap.get_mut ScopedMap.write_mut ScopedMap.insert
  set_func env name body = elim (ScopedMap.get_mut env.funcs name) [
    | some old ↦ (record env { funcs = ScopedMap.write_mut env.funcs name body }, some old)
    | none ↦ (
      record env { funcs = (ScopedMap.insert env.funcs name body).0 },
      (ScopedMap.insert env.funcs name body).1,
    )
  ]

  unfoldable pub get_func : Environment F → Bytes → Option F
  unfolding ScopedMap.get
  get_func env name = ScopedMap.get env.funcs name

  unfoldable pub remove_func : Environment F → Bytes → Environment F × Option F
  unfolding ScopedMap.remove
  remove_func env name =
      let removed = ScopedMap.remove env.funcs name in (record env { funcs = removed.0 }, removed.1)

  -- `none`: the descriptor is not below `fd_count`, and the index panics.
  unfoldable pub set_fd : Environment F → ℕ → EnvFd → Option (Environment F)
  unfolding ScopedArray.set_val
  set_fd env n value =
      ScopedArray.set_val env.fds n value >>= λ fds. some (record env { fds = fds })

  unfoldable pub get_fd : Environment F → ℕ → Option EnvFd
  unfolding ScopedArray.index
  get_fd env n = ScopedArray.index env.fds n

  -- The scopes of an environment are those of the descriptors and of the positional arguments;
  -- variables and functions have none.
  unfoldable pub enter_scope : Environment F → Environment F
  unfolding ScopedArray.enter_scope Locality.enter_scope
  enter_scope env = record env {
    fds = ScopedArray.enter_scope env.fds;
    special_vars = record (env.special_vars) { args = Locality.enter_scope env.special_vars.args };
  }

  unfoldable pub exit_scope : Environment F → Option (Environment F)
  unfolding ScopedArray.exit_scope Locality.exit_scope
  exit_scope env = ScopedArray.exit_scope env.fds >>= λ fds.
      Locality.exit_scope env.special_vars.args >>= λ args.
      some (record env { fds = fds; special_vars = record (env.special_vars) { args = args } })
