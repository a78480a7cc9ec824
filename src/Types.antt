-- ===== src/Types.antt =====
-- internal/types/types.go: the SQL values, their order, and the check of a column's type.
pub mod Order
pub mod Check
use Prim.Native.String.{compare}
use tsql.Base.{
  ℕ, String, Bool, true, false, ◌&&◌, ◌||◌, not, Option, none, some, Ordering, List, [], ◌∷◌,
}
use tsql.Base.{ltb, ◌==◌, str_eq, any, if◌then◌else◌, Result, ok, err}
use tsql.Base.Int.{ℤ, pos, ltb_ℤ, eqb_ℤ}
use tsql.Base.Decimal.{format_int}
use tsql.Platform.{Platform}

pub data Kind : Type 0 where
  kind_null kind_int kind_float kind_text kind_bool kind_time : Kind

-- The order of the constants, which `iota` numbers.
unfoldable pub kind_rank : Kind → ℕ
kind_rank kind_null = 0
kind_rank kind_int = 1
kind_rank kind_float = 2
kind_rank kind_text = 3
kind_rank kind_bool = 4
kind_rank kind_time = 5

abbrev pub ColumnType : Type 0
ColumnType = String

abbrev pub type_int : ColumnType
type_int = "int"

abbrev pub type_bigint : ColumnType
type_bigint = "bigint"

abbrev pub type_float : ColumnType
type_float = "float"

abbrev pub type_text : ColumnType
type_text = "text"

abbrev pub type_bool : ColumnType
type_bool = "bool"

abbrev pub type_timestamp : ColumnType
type_timestamp = "timestamp"

unfoldable pub valid_types : ColumnType → Bool
unfolding any
valid_types ct =
    any (λ t. str_eq ct t)
      (type_int ∷ type_bigint ∷ type_float ∷ type_text ∷ type_bool ∷ type_timestamp ∷ [])

-- Kind.String
unfoldable pub kind_string : Kind → String
kind_string kind_null = "null"
kind_string kind_int = "int"
kind_string kind_float = "float"
kind_string kind_text = "text"
kind_string kind_bool = "bool"
kind_string kind_time = "timestamp"

-- One SQL cell. A Go `Value` carries the field of its kind, and the others are zero.
pub data Value (P : Platform) : Type 0 where
  null : Value P
  int : ℤ → Value P
  float : P.Float → Value P
  text : String → Value P
  bool : Bool → Value P
  time : P.Time → Value P

-- The two-way test `<`, `>` that the numeric and time cases of Compare make.
abbrev pub order_by : Bool → Bool → Ordering
order_by below above = if below then Ordering.lt else if above then Ordering.gt else Ordering.eq

unfoldable pub compare_floats : (P : Platform) → P.Float → P.Float → Ordering
compare_floats P a b = order_by (P.float_lt a b) (P.float_lt b a)

unfoldable pub compare_bools : Bool → Bool → Ordering
compare_bools false true = Ordering.lt
compare_bools true false = Ordering.gt
compare_bools _ _ = Ordering.eq

module _ {P : Platform} where
  unfoldable pub kind : Value P → Kind
  kind null = kind_null
  kind (int i) = kind_int
  kind (float f) = kind_float
  kind (text s) = kind_text
  kind (bool b) = kind_bool
  kind (time t) = kind_time

  abbrev pub is_null : Value P → Bool
  is_null null = true
  is_null _ = false

  -- Value.String
  unfoldable pub value_string : Value P → String
  value_string null = "NULL"
  value_string (int i) = format_int i
  value_string (float f) = P.format_float f
  value_string (text s) = s
  value_string (bool b) = if b then "true" else "false"
  value_string (time t) = P.format_seconds t

  unfoldable pub compare_kinds : Value P → Value P → Ordering
  unfolding kind kind_rank
  compare_kinds v o =
      if ltb (kind_rank (kind v)) (kind_rank (kind o)) then Ordering.lt else Ordering.gt

  -- Value.Compare, with `Ordering` for -1, 0 and 1. Two ints are compared as floats: the numeric
  -- case stands before the one for equal kinds.
  unfoldable pub compare_values : Value P → Value P → Ordering
  unfolding compare_floats compare_kinds compare_bools
  compare_values null null = Ordering.eq
  compare_values null o = Ordering.lt
  compare_values v null = Ordering.gt
  compare_values (int a) (int b) = compare_floats P (P.of_int a) (P.of_int b)
  compare_values (int a) (float b) = compare_floats P (P.of_int a) b
  compare_values (float a) (int b) = compare_floats P a (P.of_int b)
  compare_values (float a) (float b) = compare_floats P a b
  compare_values (text s) (text t) = compare s t
  compare_values (bool a) (bool b) = compare_bools a b
  compare_values (time a) (time b) = order_by (P.before a b) (P.before b a)
  compare_values v o = compare_kinds v o

  unfoldable pub store_int : Value P → Option (Value P)
  store_int (int i) = some (int i)
  store_int (float f) =
      if P.float_eq f (P.of_int (P.to_int f)) then some (int (P.to_int f)) else none
  store_int v = none

  unfoldable pub store_float : Value P → Option (Value P)
  store_float (float f) = some (float f)
  store_float (int i) = some (float (P.of_int i))
  store_float v = none

  unfoldable pub store_text : Value P → Option (Value P)
  store_text (text s) = some (text s)
  store_text v = none

  unfoldable pub store_bool : Value P → Option (Value P)
  store_bool (bool b) = some (bool b)
  store_bool (int i) = some (bool (not (eqb_ℤ i (pos 0))))
  store_bool v = none

  unfoldable pub store_time : Value P → Option (Value P)
  store_time (time t) = some (time t)
  store_time v = none

  -- The switch of Check on the column's type.
  unfoldable pub store : ColumnType → Value P → Option (Value P)
  unfolding store_int store_float store_text store_bool store_time
  store ct v =
      if str_eq ct type_int || str_eq ct type_bigint
      then store_int v
      else if str_eq ct type_float
      then store_float v
      else if str_eq ct type_text
      then store_text v
      else if str_eq ct type_bool
      then store_bool v
      else if str_eq ct type_timestamp
      then store_time v
      else none

  abbrev pub or_mismatch :
      Option (Value P) → Kind → ColumnType → Result (Kind × ColumnType) (Value P)
  or_mismatch (some w) k ct = ok w
  or_mismatch none k ct = err (k, ct)

  -- ColumnType.Check: the value to store, or the kind and the type that do not fit.
  unfoldable pub check : ColumnType → Value P → Result (Kind × ColumnType) (Value P)
  unfolding kind store
  check ct v = if is_null v then ok null else or_mismatch (store ct v) (kind v) ct
