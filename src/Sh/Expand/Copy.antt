-- ===== src/Sh/Expand/Copy.antt =====
-- Redirections that copy a descriptor (`IoRedirectFile::setup` of libmesabox/src/posix/sh/ast.rs).
use mesabox.Common.{
  ℕ, ◌<◌, ◌-◌, ◌≡◌, ap, ◌∙◌, true, Option, some, List, [], ◌∷◌, ◌==◌, if◌then◌else◌, arith,
}
use mesabox.Common.Bytes.{Bytes}
use mesabox.Common.Number.{is_digit}
use mesabox.Common.Result.{ok}
use mesabox.Sh.Env.{set_fd, get_fd}
use mesabox.Sh.Env.Fds.{get_fd-set_fd}
use mesabox.Sh.Env.Fd.{EnvFd, try_clone}
use mesabox.Sh.Ast.Run.{returned, unwrap, ◌>>=◌}
use mesabox.Sh.Ast.Shell.{Env}
use mesabox.Sh.Ast.Redirects.{IoRedirectKind}
use mesabox.Sh.Ast.Safety.Shape.{shape, descriptors, set_fd-shape_any}
use mesabox.Sh.Expand.Words.{System}
use mesabox.Sh.Expand.Redirect.{copy_fd, duplicate}

module _ {W R K : Type 0} (system : System W R K) (open_file : IoRedirectKind → Bytes → Option ℕ)
    (heredoc_data : ℕ → Bytes) where
  duplicate-digit :
      (fd d : ℕ) (fds : List EnvFd) (env : Env W R)
      → is_digit d ≡ true
      → duplicate system open_file heredoc_data fd (d ∷ []) fds env
        ≡ copy_fd system open_file heredoc_data fd (d - b'0') fds env
  unfolding duplicate
  duplicate-digit fd d fds env h = ground (arith, h)

  copy_fd-known :
      (fd n : ℕ) (value : EnvFd) (fds : List EnvFd) (env env' : Env W R)
      → get_fd env n ≡ some value
      → set_fd env fd (try_clone value) ≡ some env'
      → copy_fd system open_file heredoc_data fd n fds env ≡ returned (env', ok fds)
  unfolding copy_fd
  copy_fd-known fd n value fds env env' got set =
      ap (λ o. unwrap o >>= λ v. unwrap (set_fd env fd (try_clone v)) >>= λ e. returned (e, ok fds))
        got
      ∙ ap (λ o. unwrap o >>= λ e. returned (e, ok fds)) set

  -- `fd>&d` and `fd<&d`, where both are descriptors of the environment: afterwards `fd` stands for a clone
  -- of what `d` stood for, and every other descriptor for what it did.
  pub duplicate-copies :
      (fd d : ℕ) (value : EnvFd) (fds : List EnvFd) (env : Env W R)
      → is_digit d ≡ true
      → fd < descriptors (shape env)
      → get_fd env (d - b'0') ≡ some value
      → (env' : Env W R) × (duplicate system open_file heredoc_data fd (d ∷ []) fds env
          ≡ returned (env', ok fds))
        × ((j : ℕ) → get_fd env' j ≡ (if j == fd then some (try_clone value) else get_fd env j))
  duplicate-copies fd d value fds env h below got =
      let (env', set, kept) = set_fd-shape_any env fd (try_clone value) below in
      (
        env',
        duplicate-digit fd d fds env h ∙ copy_fd-known fd (d - b'0') value fds env env' got set,
        λ j. get_fd-set_fd env env' fd j (try_clone value) set,
      )
