-- ===== src/Parser.antt =====
-- internal/parser: what a statement touches, read off its syntax tree.
pub mod Ast
pub mod References
pub mod Tables
pub mod Columns
pub mod Expr
pub mod Vectors
pub mod Select
pub mod Write
pub mod Statement
pub mod Samples
mod Tests
