-- ===== src/Sh/Parser/Progress.antt =====
-- What every parser of libmesabox/src/posix/sh/parser.rs keeps.
pub mod Base
pub mod Space
pub mod Matches
pub mod Names
pub mod Lines
pub mod Params
pub mod Parts
pub mod Words
pub mod Redirect
pub mod Simple
pub mod Lists
pub mod Clauses
pub mod Conditions
pub mod Compound
pub mod Grammar
