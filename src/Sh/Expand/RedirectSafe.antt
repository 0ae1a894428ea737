-- ===== src/Sh/Expand/RedirectSafe.antt =====
-- Redirections (libmesabox/src/posix/sh/ast.rs): which of them do not panic, and what they leave.
use mesabox.Common.{ℕ, ◌<◌, ◌≤◌, ◌≡◌, refl, ap, ◌∙◌, Option, none, some, List, [], ◌∷◌, ◌++◌}
use mesabox.Common.Bytes.{Bytes}
use mesabox.Common.Result.{Result, ok}
use mesabox.Sh.Env.{set_fd}
use mesabox.Sh.Env.Fd.{EnvFd, piped, try_clone}
use mesabox.Sh.Env.Fd
use mesabox.Sh.Ast.Run.{returned, panicked, unwrap, ◌>>=◌}
use mesabox.Sh.Ast.Shell.{Env}
use mesabox.Sh.Ast.Redirects.{
  IoRedirect, IoRedirectFile, IoRedirectKind, file, heredoc, input, dup_input, output, dup_output,
  read_write, append, clobber,
}
use mesabox.Sh.Ast.Words.{Word}
use mesabox.Sh.Ast.Safety.Safe.{Safe, bind-Safe, Keeps, SafeAt}
use mesabox.Sh.Ast.Safety.Shape.{
  Shape, shape, descriptors, HasStreams, set_fd-shape_any, set_fd-outside,
}
use mesabox.Sh.Expand.Words.{System, eval_word}
use mesabox.Sh.Expand.Safe.{eval_word_balanced}
use mesabox.Sh.Expand.Redirect.{
  SetupError, fd_or, default_fd, create_file_fd, opened_to, open_to, setup_kind, setup_file,
  setup_redirect,
}

-- The descriptor that a redirection sets.
abbrev pub target : {W : Type 0} → IoRedirect W → ℕ
target (file fd f) = fd_or (default_fd f.kind) fd
target (heredoc fd doc) = fd_or 0 fd

module _ {W R K : Type 0} (system : System W R K) (open_file : IoRedirectKind → Bytes → Option ℕ)
    (heredoc_data : ℕ → Bytes) (s : Shape) (fd : ℕ) (below : fd < descriptors s) where
  set-Safe :
      (value : EnvFd) (fds : List EnvFd) (env : Env W R)
      → shape env ≡ s
      → Safe {A = Env W R × Result SetupError (List EnvFd)}
          (Keeps s)
          (unwrap (set_fd env fd value) >>= λ env'. returned (env', ok fds))
  set-Safe value fds env e =
      let (env', set, kept) = set_fd-shape_any env fd value (rw e below) in rw set (kept ∙ e)

  open_to-Safe :
      (kind : IoRedirectKind) (name : Bytes) (fds : List EnvFd) (env : Env W R)
      → shape env ≡ s
      → Safe (Keeps s) (open_to system open_file heredoc_data kind fd name fds env)
  unfolding open_to create_file_fd
  open_to-Safe kind name fds env e = opened-Safe (open_file kind name)
    where
      opened-Safe :
          (o : Option ℕ)
          → Safe (Keeps s) (opened_to system open_file heredoc_data fd name fds env o)
      opened-Safe none = e
      opened-Safe (some opened) =
          set-Safe (try_clone (Fd.file opened)) (fds ++ Fd.file opened ∷ []) env e

-- Not one of the two kinds that copy a descriptor.
abbrev pub OpensKind : IoRedirectKind → Type 0
OpensKind dup_input = ⊥
OpensKind dup_output = ⊥
OpensKind _ = Unit {0}

abbrev pub Opens : {W : Type 0} → IoRedirect W → Type 0
Opens (file fd f) = OpensKind f.kind
Opens (heredoc fd doc) = Unit {0}

module _ {W R K : Type 0} (system : System W R K) (open_file : IoRedirectKind → Bytes → Option ℕ)
    (heredoc_data : ℕ → Bytes) where
  setup_kind-opens :
      (kind : IoRedirectKind) (fd : ℕ) (name : Bytes) (fds : List EnvFd) (env : Env W R)
      → OpensKind kind
      → setup_kind system open_file heredoc_data kind fd name fds env
        ≡ open_to system open_file heredoc_data kind fd name fds env
  unfolding setup_kind
  setup_kind-opens input fd name fds env h = refl
  setup_kind-opens dup_input fd name fds env h = absurd h
  setup_kind-opens output fd name fds env h = refl
  setup_kind-opens dup_output fd name fds env h = absurd h
  setup_kind-opens read_write fd name fds env h = refl
  setup_kind-opens append fd name fds env h = refl
  setup_kind-opens clobber fd name fds env h = refl

  -- If the commands of substitutions are as `eval_word_balanced` asks, a redirection to a file or from a
  -- here-document does not panic and keeps the scopes and loops, if its descriptor is one of those the
  -- environment has.
  pub setup_redirect_balanced :
      ((k : K) (s : Shape) → HasStreams s → SafeAt s (system.execute k))
      → (r : IoRedirect (Word K)) (fds : List EnvFd) (env : Env W R) → HasStreams (shape env)
      → Opens r
      → target r < descriptors (shape env)
      → Safe (Keeps (shape env)) (setup_redirect system open_file heredoc_data r fds env)
  unfolding setup_redirect setup_file
  setup_redirect_balanced run (heredoc fd doc) fds env hs h below =
      set-Safe system open_file heredoc_data (shape env) (fd_or 0 fd) below
        (piped (heredoc_data doc)) fds env refl
  setup_redirect_balanced run (file fd f) fds env hs h below =
      bind-Safe (Keeps (shape env)) (Keeps (shape env)) (eval_word system f.filename env) _
        (eval_word_balanced system run f.filename env hs)
        (λ r kept. rw (setup_kind-opens f.kind (fd_or (default_fd f.kind) fd) r.1 fds r.0 h) (
          open_to-Safe system open_file heredoc_data (shape env) (fd_or (default_fd f.kind) fd)
            below f.kind r.1 fds r.0 kept))

  open_to-outside :
      (kind : IoRedirectKind) (fd opened : ℕ) (name : Bytes) (fds : List EnvFd) (env : Env W R)
      → open_file kind name ≡ some opened
      → descriptors (shape env) ≤ fd
      → open_to system open_file heredoc_data kind fd name fds env ≡ panicked
  unfolding open_to create_file_fd
  open_to-outside kind fd opened name fds env o h =
      ap (opened_to system open_file heredoc_data fd name fds env) o
      ∙ ap
          (λ r.
            ◌>>=◌ {A = Env W R} (unwrap r) λ env'. returned (env', ok (fds ++ Fd.file opened ∷ [])))
          (set_fd-outside env fd (try_clone (Fd.file opened)) h)

  -- If the name of the file is expanded and the file is opened, its redirection to a descriptor that the
  -- environment does not have panics.
  pub setup_redirect-outside :
      (f : IoRedirectFile (Word K)) (fd opened : ℕ) (fds : List EnvFd) (env env' : Env W R)
      (name : Bytes)
      → OpensKind f.kind
      → eval_word system f.filename env ≡ returned (env', name)
      → open_file f.kind name ≡ some opened
      → descriptors (shape env') ≤ fd
      → setup_redirect system open_file heredoc_data (file (some fd) f) fds env ≡ panicked
  unfolding setup_redirect setup_file
  setup_redirect-outside f fd opened fds env env' name k e o h =
      ap (λ m. m >>= λ r. setup_kind system open_file heredoc_data f.kind fd r.1 fds r.0) e
      ∙ setup_kind-opens f.kind fd name fds env' k
      ∙ open_to-outside f.kind fd opened name fds env' o h
