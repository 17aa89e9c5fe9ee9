-- ===== src/Scim/Filter.antt =====
-- campusid/scim/filters.py: its syntax tree, the parser over tokens and the evaluator.
pub mod Syntax
pub mod Literals
pub mod Tokenizer
pub mod Scanning
pub mod Parser
pub mod Termination
pub mod Printer
pub mod Leaves
pub mod RoundTrip
pub mod Source
pub mod Answers
pub mod Escapes
pub mod Evaluator
pub mod Spelling
pub mod Reading
pub mod AnyCase
pub mod Selection
mod Examples
