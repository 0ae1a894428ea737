-- ===== src/Sh/Ast/Syntax.antt =====
-- libmesabox/src/posix/sh/ast.rs: the tree of a script. Words (`W`) and redirections (`R`) are
-- parameters; the redirections of compound commands, which execution ignores, are not kept.
use mesabox.Common.{Bool, Option, List}
use mesabox.Common.Bytes.{Bytes}

pub data SepKind : Type 0 where
  first and or : SepKind

pub record VarAssign (W : Type 0) : Type 0 where
  pub varname : Bytes
  pub value : Option W

pub data PreAction (W R : Type 0) : Type 0 where
  io_redirect : R → PreAction W R
  var_assign : VarAssign W → PreAction W R

pub data PostAction (W R : Type 0) : Type 0 where
  io_redirect : R → PostAction W R
  word : W → PostAction W R

pub record SimpleCommand (W R : Type 0) : Type 0 where
  pub name : Option W
  pub pre_actions : List (PreAction W R)
  pub post_actions : List (PostAction W R)

-- `Command` with its `CommandInner`. The lists of the tree are types of their own: a `Chain` is a
-- `Vec<AndOr>`, `Lists` a `Vec<Vec<AndOr>>` and `Commands` the commands of a pipeline, of which there
-- is one at least: `Pipeline::execute` asserts it.
mutual
  pub data Command (W R : Type 0) : Type 0 where
    if_clause : Command W R → Command W R → ElseClause W R → Command W R
    while_clause : Command W R → Bool → Command W R → Command W R
    for_clause : Bytes → List W → Command W R → Command W R
    case_clause : W → CaseList W R → Command W R
    function_def : Bytes → Command W R → Command W R
    and_or : Lists W R → Command W R
    sub_shell : Lists W R → Command W R
    simple : SimpleCommand W R → Command W R

  -- An `Option<ElseClause>`: none, with a condition, and without one.
  pub data ElseClause (W R : Type 0) : Type 0 where
    no_else : ElseClause W R
    elif_clause : Command W R → Command W R → ElseClause W R → ElseClause W R
    else_clause : Command W R → ElseClause W R → ElseClause W R

  -- The items, with and without actions, after the words of their patterns.
  pub data CaseList (W R : Type 0) : Type 0 where
    no_items : CaseList W R
    item : List W → Command W R → CaseList W R → CaseList W R
    empty_item : List W → CaseList W R → CaseList W R

  pub data Lists (W R : Type 0) : Type 0 where
    no_chains : Lists W R
    chain : Chain W R → Lists W R → Lists W R

  pub data Chain (W R : Type 0) : Type 0 where
    end_chain : Chain W R
    link : SepKind → Pipeline W R → Chain W R → Chain W R

  -- The commands, and `bang`.
  pub data Pipeline (W R : Type 0) : Type 0 where
    pipeline : Commands W R → Bool → Pipeline W R

  pub data Commands (W R : Type 0) : Type 0 where
    last : Command W R → Commands W R
    before : Command W R → Commands W R → Commands W R
