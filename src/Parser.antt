-- ===== src/Parser.antt =====
-- internal/parser/parser.go: the lexer and the recursive-descent parser.
pub mod Lexer
pub mod Tokens
pub mod Numbers
pub mod Expressions
pub mod Selects
pub mod Statements
pub mod Total
pub mod Grammar
