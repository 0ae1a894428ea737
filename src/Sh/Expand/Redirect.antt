-- ===== src/Sh/Expand/Redirect.antt =====
-- libmesabox/src/posix/sh/ast.rs: `IoRedirect::setup` and `IoRedirectFile::setup`.
use mesabox.Common.{ℕ, ◌-◌, ◌&&◌, Option, none, some, List, [], ◌∷◌, ◌++◌, leb, ◌==◌, if◌then◌else◌}
use mesabox.Common.Bytes.{Bytes}
use mesabox.Common.Result.{Result, ok, err}
use mesabox.Sh.Env.{set_fd, get_fd}
use mesabox.Sh.Env.Fd.{EnvFd, piped, try_clone}
use mesabox.Sh.Env.Fd
use mesabox.Sh.Ast.Run.{Run, returned, unimplemented, unwrap, ◌>>=◌}
use mesabox.Sh.Ast.Shell.{Env}
use mesabox.Sh.Ast.Redirects.{
  IoRedirect, IoRedirectFile, IoRedirectKind, file, heredoc, input, dup_input, dup_output,
  read_write,
}
use mesabox.Sh.Ast.Words.{Word}
use mesabox.Sh.Expand.Words.{System, eval_word}

-- The `CommandError`s that come up here. A file cannot be opened, or a byte is no descriptor.
pub data SetupError : Type 0 where
  fd_as_file : ℕ → Bytes → SetupError
  invalid_fd : ℕ → SetupError

-- `fd.unwrap_or(…)`
abbrev pub fd_or : ℕ → Option ℕ → ℕ
fd_or n none = n
fd_or n (some fd) = fd

-- `fd.unwrap_or(…)` for the kind: what reads stands for 0, what writes for 1.
abbrev pub default_fd : IoRedirectKind → ℕ
default_fd input = 0
default_fd dup_input = 0
default_fd read_write = 0
default_fd _ = 1

-- `open_file` opens or creates the file the way the kind says, and gives its descriptor;
-- `heredoc_data` is the text of a here-document.
module _ {W R K : Type 0} (system : System W R K) (open_file : IoRedirectKind → Bytes → Option ℕ)
    (heredoc_data : ℕ → Bytes) where
  -- The environment, and the files that are kept open (`new_fds`) or an error.
  abbrev pub Setup : Type 0
  Setup = Run (Env W R × Result SetupError (List EnvFd))

  unfoldable pub create_file_fd : ℕ → ℕ → List EnvFd → Env W R → Setup
  unfolding set_fd try_clone
  create_file_fd fd opened new_fds env =
      unwrap (set_fd env fd (try_clone (Fd.file opened))) >>= λ env'.
      returned (env', ok (new_fds ++ Fd.file opened ∷ []))

  -- What opening the file has given.
  abbrev pub opened_to : ℕ → Bytes → List EnvFd → Env W R → Option ℕ → Setup
  opened_to fd name new_fds env none = returned (env, err (fd_as_file fd name))
  opened_to fd name new_fds env (some opened) = create_file_fd fd opened new_fds env

  unfoldable pub open_to : IoRedirectKind → ℕ → Bytes → List EnvFd → Env W R → Setup
  unfolding create_file_fd
  open_to kind fd name new_fds env = opened_to fd name new_fds env (open_file kind name)

  unfoldable pub copy_fd : ℕ → ℕ → List EnvFd → Env W R → Setup
  unfolding set_fd get_fd try_clone
  copy_fd fd digit new_fds env = unwrap (get_fd env digit) >>= λ value.
      unwrap (set_fd env fd (try_clone value)) >>= λ env'. returned (env', ok new_fds)

  -- A name of one byte: to close a descriptor is `unimplemented!()`. So is every other name.
  unfoldable pub duplicate : ℕ → Bytes → List EnvFd → Env W R → Setup
  unfolding copy_fd
  duplicate fd (ch ∷ []) new_fds env =
      if ch == b'-'
      then unimplemented
      else if leb b'0' ch && leb ch b'9'
      then copy_fd fd (ch - b'0') new_fds env
      else returned (env, err (invalid_fd ch))
  duplicate fd name new_fds env = unimplemented

  unfoldable pub setup_kind : IoRedirectKind → ℕ → Bytes → List EnvFd → Env W R → Setup
  unfolding open_to duplicate
  setup_kind dup_input fd name new_fds env = duplicate fd name new_fds env
  setup_kind dup_output fd name new_fds env = duplicate fd name new_fds env
  setup_kind kind fd name new_fds env = open_to kind fd name new_fds env

  unfoldable pub setup_file : IoRedirectFile (Word K) → Option ℕ → List EnvFd → Env W R → Setup
  unfolding eval_word setup_kind
  setup_file f fd new_fds env = eval_word system f.filename env >>= λ r.
      setup_kind f.kind (fd_or (default_fd f.kind) fd) r.1 new_fds r.0

  unfoldable pub setup_redirect : IoRedirect (Word K) → List EnvFd → Env W R → Setup
  unfolding setup_file set_fd
  setup_redirect (file fd f) new_fds env = setup_file f fd new_fds env
  setup_redirect (heredoc fd doc) new_fds env =
      unwrap (set_fd env (fd_or 0 fd) (piped (heredoc_data doc))) >>= λ env'.
      returned (env', ok new_fds)
