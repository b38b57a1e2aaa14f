-- ===== src/Sql.antt =====
-- The SQL front end, pkg/parser: texts and results, the lexer, the syntax tree, and the parser with
-- one module per statement.
pub mod Text
pub mod Lexer
pub mod Ast
pub mod Tokens
pub mod Print
pub mod Select
pub mod Insert
pub mod Create
pub mod Change
pub mod Parse
