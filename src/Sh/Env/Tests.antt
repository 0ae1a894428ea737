-- ===== src/Sh/Env/Tests.antt =====
-- Examples for the theorems on libmesabox/src/posix/sh/env.rs.
use mesabox.Common.{ℕ, ◌≡◌, refl, ◌⊎◌, inl, none, some, List, [], ◌∷◌, if◌then◌else◌}
use mesabox.Common.Bytes.{Bytes, codes, bytes_eq, bytes_Eq}
use mesabox.Sh.Types.Locality.{Locality, base}
use mesabox.Sh.Types.ScopedMap
use mesabox.Sh.Env.Fd.{EnvFd, pipe, null}
use mesabox.Sh.Env.Defs.{
  Environment, from_vars, set_var, export_var, get_var, remove_var, enter_scope,
}
use mesabox.Sh.Env.Scopes.{
  Actions, done, redirect, positionals, variable, export, unset, scope, run, SameScoped,
  exit_restores,
}
use mesabox.Sh.Env.Vars.{IsValid, get_var-set_var}
use mesabox.Sh.Env.Valid.{variables-IsValid}
use mesabox.Util.Platform.{read}

-- A function's body is a number here.
abbrev home : Bytes
home = codes "HOME"

abbrev start : Environment ℕ
start = from_vars ((home, codes "/root") ∷ [])

start-IsValid : IsValid start
unfolding from_vars
start-IsValid = record {
  flat_vars = tt;
  flat_export = tt;
  disjoint = λ k. inl (unfold ScopedMap.get in refl);
}

get_var-set_var_example :
    get_var (set_var start home (codes "/")).0 home
    ≡ (if bytes_eq home home then some (codes "/") else get_var start home)
get_var-set_var_example = get_var-set_var start home home (codes "/") start-IsValid

no_plain_home : ScopedMap.get start.vars home ≡ none
unfolding from_vars ScopedMap.get
no_plain_home = refl

abbrev plain : Environment ℕ
plain = record start { vars = (ScopedMap.insert start.vars home (codes "/x")).0 }

plain_home : ScopedMap.get plain.vars home ≡ some (codes "/x")
unfolding from_vars ScopedMap.get ScopedMap.insert bytes_eq
plain_home = refl

variables-IsValid_example :
    IsValid (set_var start home (codes "/")).0
    × IsValid (remove_var start home).0
    × IsValid (export_var start home)
variables-IsValid_example = variables-IsValid start home (codes "/") start-IsValid

abbrev actions : Actions
actions = redirect 1 null (
    scope (positionals (codes "x" ∷ []) done)
      (variable home (codes "/") (export home (unset home done))))

exit_restores_example :
    (run actions (enter_scope start) ≡ none)
    ⊎ ((env' : Environment ℕ) × (run (scope actions done) start ≡ some env')
        × SameScoped start env')
exit_restores_example = exit_restores actions start

abbrev arguments : Locality (List Bytes)
arguments = base (codes "x" ∷ codes "y" ∷ []) 0

abbrev reading : EnvFd
reading = pipe (record { fd = 5; kind = read })
