-- ===== src/Lib.antt =====
-- mesabox: the core logic of a collection of system utilities with a POSIX shell, in Rust.
--
-- The program is one library crate (libmesabox) in which each utility is a module with an
-- `execute` function over a `UtilSetup` (the standard streams and the environment). The shell
-- (posix/sh) parses a script into a tree and runs the tree against an `Environment`, whose
-- variables, functions, descriptors and positional arguments are kept in types that restore their
-- values at the end of a scope. Builtins change the environment; every other command is a utility or
-- a process of the system.
--
-- A function keeps its name; a definition that stands for a part of a function, such as one of its
-- loops, says so.
--   Common          lists, options, integers, byte strings, HashMap as an association list, Result,
--                   UTF-8, and usize (64 bits: checked arithmetic and from_str)
--   Util.Pow, Util.ParseNum   libmesabox/src/util/mod.rs: pow, parse_num_with_suffix,
--                   parse_obsolete_num
--   Util.Platform   libmesabox/src/util/platform/unix.rs: the data of descriptors and pipes
--   Posix.Head      libmesabox/src/posix/head.rs: the writers, handle_data and the loop over files. A reader is the list
--                   of the bytes that are left in it, and the output is the result of the function
--   Posix.Cat       libmesabox/src/posix/cat.rs: the writers of lines. A file is the list of the
--                   chunks that read returns; PerByte is the specification byte by byte
--   Posix.Echo      libmesabox/src/posix/echo.rs: execute, write_str and map_bytes
--   Gnu.Yes         libmesabox/src/gnu/yes.rs: the text and the buffer
--   Sh.Types        libmesabox/src/posix/sh/types: Locality (mod.rs), ScopedMap with its iterator
--                   (scoped_map.rs), ScopedArray (scoped_array.rs)
--   Sh.Env          libmesabox/src/posix/sh/env.rs: EnvFd, SpecialVars, Environment
--   Sh.Builtin      libmesabox/src/posix/sh/builtin: break, continue, colon, shift, export, unset,
--                   BuiltinSet::find, and in Read read.rs
--   Sh.Ast          libmesabox/src/posix/sh/ast.rs: Syntax is the tree; Run the ways a run ends and
--                   the counters of loops; Children the children of command.rs, where the run of a child
--                   is kept in it and looked at when it is waited for; Simple the simple commands; Parts
--                   loops, subshells and pipelines; Exec the commands, lists and pipelines, run and
--                   spawned; Builtins runs a builtin. Shell is what it uses of the rest (expansion,
--                   redirections, builtins, processes), as a record of functions that may panic, whose
--                   laws are Safety.Safe.Lawful; Sh.Expand.Program fills it. Words and Redirects are the
--                   data of words and redirections, for the parameters W and R of the tree
--   Sh.Expand       libmesabox/src/posix/sh/ast.rs: Params is Param::eval; Words has Word::eval,
--                   ParamExpr::eval, CommandSubst::eval and Word::eval_tilde over System, what they use
--                   of the rest; Output the end of a command's output; Redirect is IoRedirect::setup
--                   with the opening of files as a parameter; Glob is Word::eval_glob_fs and
--                   Word::matches_glob; Program is the shell with all of these and the builtins, in which
--                   a substitution names its command in a table of those of the script, and Balanced
--                   shows that this shell keeps the laws of Sh.Ast
--   Sh.Parser       libmesabox/src/posix/sh/parser.rs, for Unix: Defs has ParserErrorKind, the results
--                   (Parsed) and the parsers that take a parser; Space blanks, comments and tokens; Names
--                   names, numbers and special parameters; State the struct Parser, with the store of
--                   the here-documents that the code shares by Rc; Quotes, Params and Words the words;
--                   Lines newlines and the text of here-documents; Redirect and Simple simple commands;
--                   Lists, Clauses and Compound the lists and compound commands; Grammar ties the calls
--                   of command and of substitutions and has complete_command. Progress is about what each
--                   parser leaves of the input, and its fuel; Hangs, OpenQuotes, Assigns, Heredocs and
--                   Separators are about what is read in particular cases. Functions whose names are
--                   taken by a part of the tree have another one: braced is param_expr, dollar
--                   parameter, quoted double_quote, assignment var_assign, and_or_chain and_or
--
-- State is passed explicitly: an operation takes the state and returns the new one with its result.
-- `none` is a panic where the code panics (an index out of range, `unwrap`, `remove` on an empty
-- vector), and says so where it is declared; errors are values of `Result`. Where a theorem says that
-- an operation returns `some`, it says that the code does not panic.
--
-- Loops over input are structural recursion, or recursion on fuel: pow_loop on the exponent and one,
-- since the exponent falls by half; drain, copy_chunks, tab_loop and chunk_loop on the length of the
-- input and one, since a round takes a byte at least; entries on the number of entries and one;
-- fill_buffer on the size of the buffer and one; read_loop on the length of the input and one, since
-- a round that is not the last takes a backslash away. A loop of the parser has a round for each byte
-- that is left and one, since a round takes a byte at least; command, general_word, else_part and the
-- calls of delimiter and ignore themselves have the number of bytes and one; and complete_command takes
-- the depth of the substitutions inside each other, for which the number of bytes is enough. A loop of
-- the parser that does not end in the source gives the result `endless`: number runs its loop on fuel,
-- which runs out exactly if a second digit follows, and take_while_matches1 gives it where its test
-- succeeds at the end of the input. The shell itself may run for ever: Sh.Ast.Exec.run takes fuel for
-- the rounds of a loop and the calls of functions inside each other, and Sh.Expand.Program.program the
-- depth of substitutions, no amount of which is enough for all scripts; the end without fuel is told
-- apart from a result and from a panic.
--
-- Not modelled: system calls and the start of other programs, the crates clap, tar, uucore and glob
-- (clap's result is an argument of unset_run and read_run, glob's of Sh.Expand.Glob), failures of
-- reading and writing, networking, the init system, and in the shell the texts of error messages.
pub mod Common
pub mod Util
pub mod Posix
pub mod Gnu
pub mod Sh
