-- ===== src/Parser/Total.antt =====
-- That the parser comes to an end: a run takes tokens, and does not meet the end of its fuel.
pub mod Steps
pub mod Takes
pub mod Operands
pub mod Primary
pub mod Expressions
pub mod Clauses
pub mod Selects
pub mod Tables
pub mod Statements
pub mod Whole
