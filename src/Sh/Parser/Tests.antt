-- ===== src/Sh/Parser/Tests.antt =====
-- The parser on small inputs.
use mesabox.Common.{false, Option, none, some, ◌≡◌, refl, [], ◌∷◌, arith}
use mesabox.Common.Bytes.{Bytes, codes}
use mesabox.Sh.Ast.Syntax.{first, last, end_chain, link, PostAction}
use mesabox.Sh.Ast.Syntax
use mesabox.Sh.Ast.Redirects.{file, output}
use mesabox.Sh.Ast.Words.{Word, positional, param_expr, value}
use mesabox.Sh.Ast.Words
use mesabox.Sh.Parser.Defs.{
  is_heredoc_marker, ok, err, endless, heredoc_marker, unexpected, in_word, in_simple_command,
}
use mesabox.Sh.Parser.State.{Parser, Step, new_parser}
use mesabox.Sh.Parser.Names.{is_name_start, is_name_unit, number_loop}
use mesabox.Sh.Parser.Params.{dollar}
use mesabox.Sh.Parser.Words.{quoted, word}
use mesabox.Sh.Parser.Simple.{assignment, post_action}
use mesabox.Sh.Parser.Lines.{heredoc_end, parse_heredoc}
use mesabox.Sh.Parser.Lists.{and_or_chain, list}
use mesabox.Sh.Parser.Grammar.{command, complete_command}
use mesabox.Sh.Parser.Progress.Base.{Keeps}
use mesabox.Sh.Parser.Progress.Grammar.{complete_command-Keeps}
use mesabox.Sh.Parser.Hangs.{dollar-digits}
use mesabox.Sh.Parser.OpenQuotes.{quoted-open}
use mesabox.Sh.Parser.Assigns.{end_of_input, assignment-quoted}
use mesabox.Sh.Parser.Separators.{semicolon, list-separator, post_action-digit}
use mesabox.Sh.Parser.Heredocs.{parse_heredoc-one}

-- No command stands in a substitution here.
abbrev no_subst : Step ⊥
no_subst p input = (p, err [])

abbrev no_param_word : Step (Word ⊥)
no_param_word p input = (p, err [])

abbrev no_text : Word ⊥ → Option Bytes
no_text w = none

abbrev script : Bytes
script = codes "if a; then b $(c); fi\n"

complete_command-Keeps_example : Keeps 0 new_parser script (complete_command 22 new_parser script)
complete_command-Keeps_example = complete_command-Keeps 22 new_parser script (omega arith)

dollar-digits_example :
    (number_loop 100 (b'1' ∷ []) (codes "0") ≡ none)
    × (dollar no_param_word new_parser (codes "$10") ≡ (new_parser, endless))
dollar-digits_example = dollar-digits no_param_word new_parser 99 b'1' (codes "0") refl

quoted-open_example :
    quoted no_subst no_param_word new_parser (codes "\"ab") ≡ (new_parser, endless)
quoted-open_example =
    quoted-open no_subst no_param_word new_parser b'a' (codes "b") (refl, (refl, tt))

assignment-quoted_example : assignment (word no_subst) no_text new_parser (codes "xy='a b'") ≡ (
  new_parser,
  ok (record { varname = codes "xy"; value = some (Words.single_quote (codes "a b")) }) [],
)
unfolding is_name_start is_name_unit
assignment-quoted_example =
    assignment-quoted no_subst new_parser (codes "a b") [] (refl, (refl, (refl, tt))) end_of_input
      no_text b'x' (codes "y") refl (refl, tt)

post_action-digit_example : post_action (word no_subst) no_text new_parser (codes "5 >'f'") ≡ (
  new_parser,
  ok
      (PostAction.io_redirect
        (file (some 5) (record { filename = Words.single_quote (codes "f"); kind = output })))
      [],
)
post_action-digit_example =
    post_action-digit no_subst new_parser no_text b'5' (codes "f") [] refl (refl, tt) end_of_input

abbrev waiting : Parser
waiting = record {
  heredocs = [] ∷ [];
  heredoc_markers = record { heredoc = 0; marker = codes "E"; strip_tabs = false } ∷ [];
  linenum = 1;
}

parse_heredoc-one_example :
    parse_heredoc waiting (codes "a\nE\nx")
    ≡ (record waiting { heredocs = codes "a\n" ∷ []; heredoc_markers = [] }, ok tt (codes "x"))
unfolding heredoc_end is_heredoc_marker
parse_heredoc-one_example =
    parse_heredoc-one waiting (record { heredoc = 0; marker = codes "E"; strip_tabs = false })
      (codes "a\n") (codes "x") ((heredoc_marker ∷ [], refl), ((heredoc_marker ∷ [], refl), tt))
      refl

abbrev line : Bytes
line = codes "a;\n"

list-separator_example :
    list (command no_subst 4) new_parser line
    ≡ (new_parser, err (unexpected ∷ in_word ∷ in_simple_command ∷ []))
unfolding and_or_chain command
list-separator_example =
    list-separator no_subst 3 new_parser line [] b';' new_parser
      (link first
        (Syntax.pipeline
          (last (
            Syntax.simple (record {
              name = some (Words.simple (codes "a"));
              pre_actions = [];
              post_actions = [];
            })))
          false)
        end_chain)
      semicolon refl

script_echo : complete_command 2 new_parser (codes "echo hi\n") ≡ (
  new_parser,
  ok
      (Syntax.chain
          (link first
            (Syntax.pipeline
              (last (
                Syntax.simple (record {
                  name = some (Words.simple (codes "echo"));
                  pre_actions = [];
                  post_actions = PostAction.word (Words.simple (codes "hi")) ∷ [];
                })))
              false)
            end_chain)
          Syntax.no_chains
        ∷ [])
      [],
)
unfolding complete_command new_parser
script_echo = refl
