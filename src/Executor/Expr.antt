-- ===== src/Executor/Expr.antt =====
-- The expressions of internal/parser/parser.go and the errors of internal/executor.
use tsql.Base.{String, Bool, Option, List, ◌||◌, str_eq}
use tsql.Base.Int.{ℤ}
use tsql.Platform.{Platform}
use tsql.Types.{Value}

-- SQLError with its SQLSTATE, and Go's panics: an index out of range, and an integer division by
-- zero.
pub data SqlError : Type 0 where
  sql_err : String → SqlError
  runtime_panic : SqlError

-- An empty table name is an unqualified reference.
pub record ColRef : Type 0 where
  pub table : String
  pub name : String

mutual
  pub data Expr (P : Platform) : Type 0 where
    lit : Value P → Expr P
    col_ref : ColRef → Expr P
    func : String → Bool → OptExpr P → Expr P
    cmp : String → Expr P → Expr P → Expr P
    is_null_test : Expr P → Bool → Expr P
    and : Expr P → Expr P → Expr P
    or : Expr P → Expr P → Expr P
    not_expr : Expr P → Expr P
    binary : String → Expr P → Expr P → Expr P
    in_list : Expr P → Exprs P → Bool → Expr P
    in_sub : Expr P → Select P → Bool → Expr P

  -- An Expr that may be nil.
  pub data OptExpr (P : Platform) : Type 0 where
    no_expr : OptExpr P
    an_expr : Expr P → OptExpr P

  pub data Exprs (P : Platform) : Type 0 where
    no_exprs : Exprs P
    more_exprs : Expr P → Exprs P → Exprs P

  -- Tables, On, JoinKinds, Star, Fields, FieldAliases, Where, Group, Having, Order and Limit
  pub data Select (P : Platform) : Type 0 where
    select :
        TableRefs P
        → Exprs P
        → List String
        → Bool
        → Exprs P
        → List String
        → OptExpr P
        → Exprs P
        → OptExpr P
        → OrderTerms P
        → Option ℤ
        → Select P

  -- Table, Alias and Sub of each TableRef
  pub data TableRefs (P : Platform) : Type 0 where
    no_tables : TableRefs P
    plain_table : String → String → TableRefs P → TableRefs P
    derived_table : String → String → Select P → TableRefs P → TableRefs P

  -- Expr and Desc of each OrderTerm
  pub data OrderTerms (P : Platform) : Type 0 where
    no_order : OrderTerms P
    order_term : Expr P → Bool → OrderTerms P → OrderTerms P

unfoldable pub is_aggregate_func : String → Bool
is_aggregate_func name =
    str_eq name "count"
    || str_eq name "sum"
    || str_eq name "avg"
    || str_eq name "min"
    || str_eq name "max"
