-- ===== src/Sh/Ast/Safety/Simple.antt =====
-- libmesabox/src/posix/sh/ast.rs: panics and balance of scopes and loops, for simple commands.
use mesabox.Common.{
  ◌≡◌, ap, ◌∙◌, pos, Option, none, some, List, [], ◌∷◌, arith, Bool-cases, Option-cases, inl, inr,
  if◌then◌else◌,
}
use mesabox.Common.Bytes.{Bytes}
use mesabox.Sh.Env.{enter_scope}
use mesabox.Sh.Env.Fd.{pipeline}
use mesabox.Sh.Ast.Syntax.{
  Command, VarAssign, PreAction, PostAction, SimpleCommand, io_redirect, var_assign, word,
}
use mesabox.Sh.Ast.Run.{Run, returned, ◌>>=◌}
use mesabox.Sh.Ast.Shell.{Env, Shell, ExecData}
use mesabox.Sh.Ast.Children.{ShellChild, empty, with_input}
use mesabox.Sh.Ast.Simple.{
  Found, found_builtin, function, program, Performs, command_name, assigned, assign, assign_all,
  setup_pre, setup_post, setup_rest, setup_command, leave, find_command, run_found, run_named,
  perform_action, spawn_fds, call_function, status, spawn_found, execute_simple, spawn_simple,
}
use mesabox.Sh.Ast.Parts.{Action}
use mesabox.Sh.Ast.Safety.Shape.{
  Shape, shape, entered, HasStreams, entered-HasStreams, shape-set_var, shape-set_positionals,
  shape-enter_scope, exit_scope-shape, set_fd-shape,
}
use mesabox.Sh.Ast.Safety.Safe.{Safe, bind-Safe, then-Safe, Keeps, SafeAt, Names, Lawful}
use mesabox.Sh.Ast.Safety.Children.{StepAt, spawn_child-Safe, with_input-Safe}

module _ {W R P : Type 0} (shell : Shell W R P) (lawful : Lawful shell) (s : Shape)
    (hs : HasStreams s) where
  assigned-Safe : (w : Option W) → SafeAt s (assigned shell w)
  unfolding assigned
  assigned-Safe none env e = e
  assigned-Safe (some w) env e = lawful.eval s hs w env e

  assign-Safe : (a : VarAssign W) → StepAt shell s (assign shell a)
  unfolding assign
  assign-Safe a env e =
      bind-Safe (Keeps s) (λ env'. shape env' ≡ s) (assigned shell a.value env) _
        (assigned-Safe a.value env e) (λ r kept. shape-set_var r.0 a.varname r.1 ∙ kept)

  assign_all-Safe : (acts : List (PreAction W R)) → StepAt shell s (assign_all shell acts)
  unfolding assign_all
  assign_all-Safe [] env e = e
  assign_all-Safe (io_redirect r ∷ rest) env e = assign_all-Safe rest env e
  assign_all-Safe (var_assign a ∷ rest) env e =
      bind-Safe (λ env'. shape env' ≡ s) (λ env'. shape env' ≡ s) (assign shell a env) _
        (assign-Safe a env e) (assign_all-Safe rest)

  -- A redirection, and what follows if it succeeds.
  redirect-Safe :
      (r : R) (next : Env W R → Run (Env W R × Option ExecData))
      → SafeAt s next
      → SafeAt s
          (λ env. shell.redirect r env >>= λ q. if q.1 then next q.0 else returned (q.0, none))
  redirect-Safe r next h env e =
      then-Safe s (shell.redirect r env) _ (lawful.redirect s hs r env e) (λ q kept.
        elim (Bool-cases q.1) [
          | inl succeeds ↦ rw succeeds (h q.0 kept)
          | inr fails ↦ rw fails kept
        ])

  setup_pre-Safe :
      (acts : List (PreAction W R)) (data_ : ExecData) → SafeAt s (setup_pre shell acts data_)
  unfolding setup_pre
  setup_pre-Safe [] data_ env e = e
  setup_pre-Safe (io_redirect r ∷ rest) data_ env e =
      redirect-Safe r (setup_pre shell rest data_) (setup_pre-Safe rest data_) env e
  setup_pre-Safe (var_assign a ∷ rest) data_ env e =
      then-Safe s (assigned shell a.value env) _ (assigned-Safe a.value env e)
        (λ q kept. setup_pre-Safe rest _ q.0 kept)

  setup_post-Safe :
      (acts : List (PostAction W R)) (data_ : ExecData) → SafeAt s (setup_post shell acts data_)
  unfolding setup_post
  setup_post-Safe [] data_ env e = e
  setup_post-Safe (io_redirect r ∷ rest) data_ env e =
      redirect-Safe r (setup_post shell rest data_) (setup_post-Safe rest data_) env e
  setup_post-Safe (word w ∷ rest) data_ env e =
      bind-Safe (Names s) (Keeps s) (shell.eval_glob_fs w env) _ (lawful.eval_glob_fs s hs w env e)
        (λ q named. setup_post-Safe rest _ q.0 named.0)

  setup_rest-Safe :
      (acts : List (PostAction W R)) (r : Env W R × Option ExecData)
      → Keeps s r
      → Safe (Keeps s) (setup_rest shell acts r)
  setup_rest-Safe acts (env, none) e = e
  setup_rest-Safe acts (env, some data_) e = setup_post-Safe acts data_ env e

  pub setup_command-Safe : (cmd : SimpleCommand W R) → SafeAt s (setup_command shell cmd)
  unfolding setup_command
  setup_command-Safe cmd env e =
      then-Safe s _ _ (setup_pre-Safe cmd.pre_actions _ env e) (setup_rest-Safe cmd.post_actions)

  -- `perform_action`, with what is done first and with what the command does.
  module _ {X : Type 0} (init_fn : Env W R → Run (Env W R)) (func : Performs shell X)
      (good_init : StepAt shell (entered s) init_fn)
      (good : (found : Found (Command W R)) (data_ : ExecData)
        → SafeAt (entered s) (func found data_)) where
    leave-Safe : (r : Env W R × Option X) → Keeps (entered s) r → Safe (Keeps s) (leave shell r)
    unfolding leave
    leave-Safe (env, res) h = let (env', left, kept) = exit_scope-shape env s h in rw left kept

    run_found-Safe :
        (setup : (cmd : SimpleCommand W R) → SafeAt (entered s) (setup_command shell cmd))
        (cmd : SimpleCommand W R) (name : Bytes) (env : Env W R)
        → shape env ≡ entered s
        → Safe (Keeps s) (run_found shell func cmd name env)
    unfolding run_found
    run_found-Safe setup cmd name env e =
        bind-Safe (Keeps (entered s)) (Keeps s) (setup_command shell cmd env) _ (setup cmd env e)
          (λ r kept. elim (Option-cases r.1) [
            | inl failed ↦ rw failed (leave-Safe _ kept)
            | inr (data_, done) ↦ rw done (
                bind-Safe (Keeps (entered s)) (Keeps s)
                  (func (find_command shell name env) data_ r.0) _
                  (good (find_command shell name env) data_ r.0 kept) leave-Safe)
          ])

    run_named-Safe :
        (setup : (cmd : SimpleCommand W R) → SafeAt (entered s) (setup_command shell cmd))
        (cmd : SimpleCommand W R) (name : Bytes)
        → SafeAt s (run_named shell init_fn func cmd name)
    unfolding run_named
    run_named-Safe setup cmd name env e =
        bind-Safe (λ env'. shape env' ≡ entered s) (Keeps s) (init_fn (enter_scope env)) _
          (good_init (enter_scope env) (shape-enter_scope env ∙ ap entered e))
          (run_found-Safe setup cmd name)

    pub perform_action-Safe :
        (setup : (cmd : SimpleCommand W R) → SafeAt (entered s) (setup_command shell cmd))
        (unnamed : X) (cmd : SimpleCommand W R)
        → SafeAt s (perform_action shell init_fn func unnamed cmd)
    unfolding perform_action
    perform_action-Safe setup unnamed cmd env e = elim (Option-cases cmd.name) [
      | inl nameless ↦
          rw (nameless, perform_action)
            (bind-Safe (λ env'. shape env' ≡ s) (Keeps s) (assign_all shell cmd.pre_actions env) _
              (assign_all-Safe cmd.pre_actions env e) (λ env' kept. kept))
      | inr (w, h) ↦
          rw (h, perform_action)
            (bind-Safe (Names s) (Keeps s) (shell.eval_glob_fs w env) _
              (lawful.eval_glob_fs s hs w env e)
              (λ q named. elim (Option-cases (command_name q.1)) [
                | inl missing ↦ absurd (named.1 missing)
                | inr (name, found) ↦ rw found (run_named-Safe setup cmd name q.0 named.0)
              ]))
    ]

module _ {W R P : Type 0} (shell : Shell W R P) (lawful : Lawful shell)
    (call : Command W R → Action W R)
    (hc : (s : Shape) → HasStreams s → (cmd : Command W R) → SafeAt s (call cmd)) (s : Shape)
    (hs : HasStreams s) where
  call_function-Safe :
      (body : Command W R) (args : List Bytes) → SafeAt s (call_function shell call body args)
  unfolding call_function
  call_function-Safe body args env e =
      then-Safe s _ _ (hc s hs body _ (shape-set_positionals env args ∙ e)) (λ r kept. kept)

  status-Safe :
      (found : Found (Command W R)) (data_ : ExecData) → SafeAt s (status shell call found data_)
  unfolding status
  status-Safe (found_builtin b) data_ env e = lawful.builtin s hs b data_ env e
  status-Safe (function body) data_ env e = call_function-Safe body data_.args env e
  status-Safe (program name) data_ env e =
      bind-Safe (λ p. Unit {0}) (Keeps s) (shell.start name data_ env) _
        (lawful.start name data_ env) (λ p u. e)

  spawn_found-Safe :
      (found : Found (Command W R)) (data_ : ExecData)
      → SafeAt s (spawn_found shell call found data_)
  unfolding spawn_found
  spawn_found-Safe (found_builtin b) data_ env e = spawn_child-Safe shell s _ hs env e
  spawn_found-Safe (function body) data_ env e = spawn_child-Safe shell s _ hs env e
  spawn_found-Safe (program name) data_ env e =
      bind-Safe (λ p. Unit {0}) (Keeps s) (shell.start name data_ env) _
        (lawful.start name data_ env) (λ p u. e)

  spawn_fds-Safe : (previous : Option (ShellChild P)) → StepAt shell s (spawn_fds shell previous)
  unfolding spawn_fds
  spawn_fds-Safe previous env e =
      bind-Safe (λ env'. shape env' ≡ s) (λ env'. shape env' ≡ s) (with_input shell previous env) _
        (with_input-Safe shell s previous hs env e)
        (λ env' kept.
          let (env'', set, same) = set_fd-shape env' 1 pipeline (omega arith) (rw kept hs) in
          rw set (same ∙ kept))

module _ {W R P : Type 0} (shell : Shell W R P) (lawful : Lawful shell)
    (call : Command W R → Action W R)
    (hc : (s : Shape) → HasStreams s → (cmd : Command W R) → SafeAt s (call cmd)) (s : Shape)
    (hs : HasStreams s) where
  pub execute_simple-Safe : (cmd : SimpleCommand W R) → SafeAt s (execute_simple shell call cmd)
  unfolding execute_simple
  execute_simple-Safe cmd env e =
      let inside = entered-HasStreams s hs in
      perform_action-Safe shell lawful s hs returned (status shell call) (λ env' e'. e')
        (status-Safe shell lawful call hc (entered s) inside)
        (setup_command-Safe shell lawful (entered s) inside) (pos 0) cmd env e

  pub spawn_simple-Safe :
      (cmd : SimpleCommand W R) (previous : Option (ShellChild P))
      → SafeAt s (spawn_simple shell call cmd previous)
  unfolding spawn_simple
  spawn_simple-Safe cmd previous env e =
      let inside = entered-HasStreams s hs in
      perform_action-Safe shell lawful s hs (spawn_fds shell previous) (spawn_found shell call)
        (spawn_fds-Safe shell lawful call hc (entered s) inside previous)
        (spawn_found-Safe shell lawful call hc (entered s) inside)
        (setup_command-Safe shell lawful (entered s) inside) empty cmd env e
