-- ===== src/Executor.antt =====
-- internal/executor/executor.go: the evaluation of statements over a storage view.
pub mod Expr
pub mod Scope
pub mod Aggregate
pub mod Eval
pub mod ForeignKeys
pub mod Catalog
pub mod Plan
pub mod Join
pub mod Group
pub mod Select
pub mod Accessor
pub mod Insert
pub mod Modify
pub mod Rows
pub mod Statement
