-- ===== src/Sh/Ast/Redirects.antt =====
-- libmesabox/src/posix/sh/ast.rs: redirections. The words of file names (`W`) are a parameter, and a
-- here-document is its index in the store of these.
use mesabox.Common.{ℕ, Option}

pub data IoRedirectKind : Type 0 where
  input dup_input output dup_output read_write append clobber : IoRedirectKind

pub record IoRedirectFile (W : Type 0) : Type 0 where
  pub filename : W
  pub kind : IoRedirectKind

pub data IoRedirect (W : Type 0) : Type 0 where
  file : Option ℕ → IoRedirectFile W → IoRedirect W
  heredoc : Option ℕ → ℕ → IoRedirect W
