-- ===== src/Types/Check.antt =====
-- On ColumnType.Check: the values that it stores.
use tsql.Base.{◌≡◌, ◌⊎◌, arith, true, ◌||◌, Option, some, none, str_eq, if◌then◌else◌, ok}
use tsql.Platform.{Platform}
use tsql.Types.{Kind, kind_int, kind_float, kind_text, kind_bool, kind_time, kind, ColumnType}
use tsql.Types.{type_int, type_bigint, type_float, type_text, type_bool, type_timestamp}
use tsql.Types.{Value, null, int, float, is_null, check}

-- The kind of the values that a column of a type holds.
abbrev pub column_kind : ColumnType → Option Kind
column_kind ct =
    if str_eq ct type_int || str_eq ct type_bigint
    then some kind_int
    else if str_eq ct type_float
    then some kind_float
    else if str_eq ct type_text
    then some kind_text
    else if str_eq ct type_bool
    then some kind_bool
    else if str_eq ct type_timestamp
    then some kind_time
    else none

module _ {P : Platform} where
  -- A value that the check lets through is NULL and stays NULL, or has the kind of its column.
  pub check-kind :
      (ct : ColumnType) (v w : Value P)
      → check ct v ≡ ok w
      → ((is_null v ≡ true) × (is_null w ≡ true)) ⊎ (some (kind w) ≡ column_kind ct)
  unfolding check kind
  check-kind ct (int i) w h = ground arith
  check-kind ct (float f) w h = ground arith
  check-kind ct v w h = ground arith

  -- A value that the check has let through passes it again unchanged.
  pub check-check : (ct : ColumnType) (v w : Value P) → check ct v ≡ ok w → check ct w ≡ ok w
  unfolding check
  check-check ct null w h = ground arith
  check-check ct v w h = ground arith
