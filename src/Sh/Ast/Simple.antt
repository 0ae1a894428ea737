-- ===== src/Sh/Ast/Simple.antt =====
-- libmesabox/src/posix/sh/ast.rs: `SimpleCommand`, run to its end.
use mesabox.Common.{ℤ, pos, Option, none, some, List, [], ◌∷◌, ◌++◌, if◌then◌else◌}
use mesabox.Common.Bytes.{Bytes, bytes_Eq}
use mesabox.Common.HashMap.{insert}
use mesabox.Sh.Env.{set_var, get_func, set_positionals, enter_scope, exit_scope, set_fd}
use mesabox.Sh.Env.Fd.{pipeline}
use mesabox.Sh.Env.Exports.{export_iter}
use mesabox.Sh.Builtin.Defs.{Builtin}
use mesabox.Sh.Ast.Syntax.{
  Command, VarAssign, PreAction, PostAction, SimpleCommand, io_redirect, var_assign, word,
}
use mesabox.Sh.Ast.Run.{Run, returned, unwrap, ◌>>=◌}
use mesabox.Sh.Ast.Shell.{Env, Shell, ExecData, WordEval, text, globbed}
use mesabox.Sh.Ast.Children.{ShellChild, real_child, empty, spawn_child, with_input}

-- The first file that a name stands for; `unwrap` panics if there is none.
abbrev pub command_name : WordEval → Option Bytes
command_name (text t) = some t
command_name (globbed []) = none
command_name (globbed (file ∷ files)) = some file

abbrev pub eval_args : WordEval → List Bytes
eval_args (text t) = t ∷ []
eval_args (globbed files) = files

abbrev pub add_args : ExecData → List Bytes → ExecData
add_args data_ args = record data_ { args = data_.args ++ args }

abbrev pub add_env : ExecData → Bytes → Bytes → ExecData
add_env data_ k v = record data_ { env = insert k v data_.env }

-- The arguments and variables that a command starts with.
abbrev pub add_envs : List (Bytes × Bytes) → ExecData → ExecData
add_envs [] data_ = data_
add_envs ((k, v) ∷ rest) data_ = add_envs rest (add_env data_ k v)

-- The command that a name stands for.
pub data Found (F : Type 0) : Type 0 where
  found_builtin : Builtin → Found F
  function : F → Found F
  program : Bytes → Found F

module _ {W R P : Type 0} (shell : Shell W R P) where
  -- The value of an assignment, which is empty if no word stands there.
  unfoldable pub assigned : Option W → Env W R → Run (Env W R × Bytes)
  assigned none env = returned (env, [])
  assigned (some w) env = shell.eval w env

  -- `VarAssign::execute`
  unfoldable pub assign : VarAssign W → Env W R → Run (Env W R)
  unfolding assigned set_var
  assign a env = assigned a.value env >>= λ r. returned (set_var r.0 a.varname r.1).0

  unfoldable pub assign_all : List (PreAction W R) → Env W R → Run (Env W R)
  unfolding assign
  assign_all [] env = returned env
  assign_all (io_redirect r ∷ rest) env = assign_all rest env
  assign_all (var_assign a ∷ rest) env = assign a env >>= λ env'. assign_all rest env'

  -- The loops of `setup_command`; `none` is an error of a redirection.
  unfoldable pub setup_pre :
      List (PreAction W R) → ExecData → Env W R → Run (Env W R × Option ExecData)
  unfolding assigned
  setup_pre [] data_ env = returned (env, some data_)
  setup_pre (io_redirect r ∷ rest) data_ env =
      shell.redirect r env >>= λ q. if q.1 then setup_pre rest data_ q.0 else returned (q.0, none)
  setup_pre (var_assign a ∷ rest) data_ env =
      assigned a.value env >>= λ q. setup_pre rest (add_env data_ a.varname q.1) q.0

  unfoldable pub setup_post :
      List (PostAction W R) → ExecData → Env W R → Run (Env W R × Option ExecData)
  setup_post [] data_ env = returned (env, some data_)
  setup_post (io_redirect r ∷ rest) data_ env =
      shell.redirect r env >>= λ q. if q.1 then setup_post rest data_ q.0 else returned (q.0, none)
  setup_post (word w ∷ rest) data_ env =
      shell.eval_glob_fs w env >>= λ q. setup_post rest (add_args data_ (eval_args q.1)) q.0

  abbrev pub setup_rest :
      List (PostAction W R) → Env W R × Option ExecData → Run (Env W R × Option ExecData)
  setup_rest acts (env, none) = returned (env, none)
  setup_rest acts (env, some data_) = setup_post acts data_ env

  unfoldable pub setup_command : SimpleCommand W R → Env W R → Run (Env W R × Option ExecData)
  unfolding setup_pre setup_post export_iter
  setup_command cmd env =
      let start = add_envs (export_iter env) (record { args = []; env = [] }) in
      setup_pre cmd.pre_actions start env >>= λ r. setup_rest cmd.post_actions r

  -- The scope of the command is left, with its result or its error.
  unfoldable pub leave : {X : Type 0} → Env W R × Option X → Run (Env W R × Option X)
  unfolding exit_scope
  leave (env, res) = unwrap (exit_scope env) >>= λ env'. returned (env', res)

  unfoldable pub find_command : Bytes → Env W R → Found (Command W R)
  unfolding get_func
  find_command name env = elim (shell.get_builtin name) [
    | some b ↦ found_builtin b
    | none ↦ elim (get_func env name) [ some body ↦ function body | none ↦ program name ]
  ]

  -- What a found command does, which gives an `X` or an error.
  abbrev pub Performs : Type 0 → Type 0
  Performs X = Found (Command W R) → ExecData → Env W R → Run (Env W R × Option X)

  -- `perform_action` for a command that has a name, in the scope that is opened for it.
  unfoldable pub run_found :
      {X : Type 0} → Performs X → SimpleCommand W R → Bytes → Env W R → Run (Env W R × Option X)
  unfolding setup_command leave find_command
  run_found func cmd name env = setup_command cmd env >>= λ r. elim (r.1) [
    | none ↦ leave (r.0, none)
    | some data_ ↦ func (find_command name env) data_ r.0 >>= λ q. leave q
  ]

  unfoldable pub run_named :
      {X : Type 0}
      → (Env W R → Run (Env W R))
      → Performs X
      → SimpleCommand W R
      → Bytes
      → Env W R
      → Run (Env W R × Option X)
  unfolding enter_scope run_found
  run_named init_fn func cmd name env =
      init_fn (enter_scope env) >>= λ env'. run_found func cmd name env'

  -- `perform_action`; a command without a name gives `unnamed`.
  unfoldable pub perform_action :
      {X : Type 0}
      → (Env W R → Run (Env W R))
      → Performs X
      → X
      → SimpleCommand W R
      → Env W R
      → Run (Env W R × Option X)
  unfolding run_named assign_all
  perform_action init_fn func unnamed cmd env = elim cmd.name [
    | none ↦ assign_all cmd.pre_actions env >>= λ env'. returned (env', some unnamed)
    | some w ↦ shell.eval_glob_fs w env >>= λ q.
        unwrap (command_name q.1) >>= λ name. run_named init_fn func cmd name q.0
  ]

  -- The end of a program that was started, and the child that it is.
  abbrev pub process_code : Option P → Option ℤ
  process_code none = none
  process_code (some process) = shell.wait_process process

  abbrev pub process_child : Option P → Option (ShellChild P)
  process_child none = none
  process_child (some process) = some (real_child process)

  -- What `SimpleCommand::spawn` does first.
  unfoldable pub spawn_fds : Option (ShellChild P) → Env W R → Run (Env W R)
  unfolding with_input set_fd
  spawn_fds prev_child env =
      with_input shell prev_child env >>= λ env'. unwrap (set_fd env' 1 pipeline)

  module _ (call : Command W R → Env W R → Run (Env W R × ℤ)) where
    -- `FunctionBody::execute`, where `call` runs the body.
    unfoldable pub call_function : Command W R → List Bytes → Env W R → Run (Env W R × Option ℤ)
    unfolding set_positionals
    call_function body args env =
        call body (record env { special_vars = set_positionals env.special_vars args }) >>= λ r.
        returned (r.0, some r.1)

    -- `CommandEnvContainer::status`
    unfoldable pub status : Performs ℤ
    unfolding call_function
    status (found_builtin b) data_ env = shell.builtin b data_ env
    status (function body) data_ env = call_function body data_.args env
    status (program name) data_ env =
        shell.start name data_ env >>= λ process. returned (env, process_code process)

    -- `CommandEnvContainer::spawn`
    unfoldable pub spawn_found : Performs (ShellChild P)
    unfolding call_function spawn_child
    spawn_found (found_builtin b) data_ env = spawn_child shell (shell.builtin b data_) env
    spawn_found (function body) data_ env = spawn_child shell (call_function body data_.args) env
    spawn_found (program name) data_ env =
        shell.start name data_ env >>= λ process. returned (env, process_child process)

    -- `SimpleCommand::execute` and `SimpleCommand::spawn`
    unfoldable pub execute_simple : SimpleCommand W R → Env W R → Run (Env W R × Option ℤ)
    unfolding perform_action status
    execute_simple cmd env = perform_action returned status (pos 0) cmd env

    unfoldable pub spawn_simple :
        SimpleCommand W R → Option (ShellChild P) → Env W R → Run (Env W R × Option (ShellChild P))
    unfolding perform_action spawn_fds spawn_found
    spawn_simple cmd prev_child env =
        perform_action (spawn_fds prev_child) spawn_found empty cmd env
