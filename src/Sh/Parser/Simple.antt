-- ===== src/Sh/Parser/Simple.antt =====
-- libmesabox/src/posix/sh/parser.rs: simple commands. `word` is the parser of words, and `text` the
-- text of a word that is `Word::Simple`.
use mesabox.Common.{Option, none, some, List, [], ◌∷◌, if◌then◌else◌, ◌>>=◌}
use mesabox.Common.Bytes.{Bytes, codes, bytes_eq}
use mesabox.Sh.Ast.Syntax.{VarAssign, PreAction, PostAction, var_assign, SimpleCommand}
use mesabox.Sh.Ast.Redirects.{IoRedirect}
use mesabox.Sh.Parser.Defs.{
  no_fuel, ok, err, panic, endless, is_next, cmd_name_keyword, in_simple_command,
}
use mesabox.Sh.Parser.Space.{ignore}
use mesabox.Sh.Parser.Names.{var_name}
use mesabox.Sh.Parser.Redirect.{io_redirect, many_matches1}
use mesabox.Sh.Parser.State.{Step, and_then, or_else, with_kind}

abbrev pub keywords : List Bytes
keywords =
    codes "do"
    ∷ codes "done"
    ∷ codes "for"
    ∷ codes "if"
    ∷ codes "elif"
    ∷ codes "else"
    ∷ codes "fi"
    ∷ codes "while"
    ∷ codes "until"
    ∷ codes "case"
    ∷ codes "esac"
    ∷ codes "in"
    ∷ codes "then"
    ∷ codes "{"
    ∷ codes "}"
    ∷ codes "!"
    ∷ []

-- The loop over the keywords: the one that the text is.
unfoldable pub find_keyword : List Bytes → Bytes → Option Bytes
unfolding bytes_eq
find_keyword [] text = none
find_keyword (k ∷ ks) text = if bytes_eq text k then some k else find_keyword ks text

module _ {W : Type 0} (word : Step W) (text : W → Option Bytes) where
  -- A command's name is no keyword, unless it is quoted.
  unfoldable pub cmd_name : Step W
  unfolding find_keyword
  cmd_name p input = and_then (word p input) λ w p' rest. elim (text w >>= find_keyword keywords) [
    | some k ↦ (p', err (cmd_name_keyword k ∷ []))
    | none ↦ (p', ok w rest)
  ]

  unfoldable pub cmd_word : Step W
  cmd_word p input = word p input

  -- `name=value`: without a word behind the sign the value is `none`, and `ignore(…).unwrap()` panics
  -- if it fails.
  unfoldable pub assignment : Step (VarAssign W)
  unfolding var_name is_next ignore
  assignment p input =
      and_then (p, var_name input)
        λ varname p1 i1.
          and_then (p1, is_next (codes "=") i1)
            λ u p2 i2.
              or_else
                (and_then (word p2 i2)
                  λ w p3 i3. (p3, ok (record { varname = varname; value = some w }) i3))
                λ p3. elim (ignore i2) [
                  | ok u' i3 ↦ (p3, ok (record { varname = varname; value = none }) i3)
                  | err e ↦ (p3, panic)
                  | panic ↦ (p3, panic)
                  | endless ↦ (p3, endless)
                  | no_fuel ↦ (p3, no_fuel)
                ]

  unfoldable pub pre_action : Step (PreAction W (IoRedirect W))
  unfolding io_redirect assignment
  pre_action p input =
      or_else
        (and_then (io_redirect word p input) λ r p' rest. (p', ok (PreAction.io_redirect r) rest))
        λ p'. and_then (assignment p' input) λ a p'' rest. (p'', ok (var_assign a) rest)

  unfoldable pub post_action : Step (PostAction W (IoRedirect W))
  unfolding io_redirect
  post_action p input =
      or_else
        (and_then (io_redirect word p input) λ r p' rest. (p', ok (PostAction.io_redirect r) rest))
        λ p'. and_then (word p' input) λ w p'' rest. (p'', ok (PostAction.word w) rest)

  unfoldable pub cmd_prefix : Step (List (PreAction W (IoRedirect W)))
  unfolding many_matches1 pre_action
  cmd_prefix p input = many_matches1 pre_action p input

  unfoldable pub cmd_suffix : Step (List (PostAction W (IoRedirect W)))
  unfolding many_matches1 post_action
  cmd_suffix p input = many_matches1 post_action p input

  -- A suffix, or nothing.
  abbrev pub suffix_or_none : Step (List (PostAction W (IoRedirect W)))
  suffix_or_none p input = or_else (cmd_suffix p input) λ p'. (p', ok [] input)

  -- What follows a prefix: a word and its suffix, or nothing.
  unfoldable pub after_prefix :
      List (PreAction W (IoRedirect W)) → Step (SimpleCommand W (IoRedirect W))
  unfolding cmd_word cmd_suffix
  after_prefix pre p input =
      or_else
        (and_then (cmd_word p input) λ w p1 i1. and_then (suffix_or_none p1 i1) λ post p2 i2.
          (p2, ok (record { name = some w; pre_actions = pre; post_actions = post }) i2))
        λ p1. (p1, ok (record { name = none; pre_actions = pre; post_actions = [] }) input)

  unfoldable pub simple_command : Step (SimpleCommand W (IoRedirect W))
  unfolding cmd_prefix after_prefix cmd_name cmd_suffix
  simple_command p input = with_kind in_simple_command (
      or_else (and_then (cmd_prefix p input) after_prefix) λ p'.
        and_then (cmd_name p' input) λ w p1 i1. and_then (suffix_or_none p1 i1) λ post p2 i2.
          (p2, ok (record { name = some w; pre_actions = []; post_actions = post }) i2))
