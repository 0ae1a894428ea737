-- ===== src/Sh/Parser.antt =====
pub mod Defs
pub mod Space
pub mod Names
pub mod Quotes
pub mod State
pub mod Params
pub mod Words
pub mod Lines
pub mod Redirect
pub mod Simple
pub mod Lists
pub mod Clauses
pub mod Compound
pub mod Grammar
pub mod Progress
pub mod Steps
pub mod Hangs
pub mod OpenQuotes
pub mod Assigns
pub mod Separators
pub mod Heredocs
mod Tests
