-- ===== src/Examples/Values.antt =====
-- The theorems on values and definitions at concrete inputs.
use tsql.Base.{◌≡◌, ◌⊎◌, refl, arith, true, false, some}
use tsql.Base.{[], ◌∷◌, ok}
use tsql.Base.Int.{pos}
use tsql.Types.{
  Value, null, int, float, text, bool, time, compare_values, kind, type_int, type_bigint, type_text,
}
use tsql.Types.{check, is_null}
use tsql.Types.Order.{IsAsymmetric}
use tsql.Types.Check.{column_kind, check-kind}
use tsql.Schema.{Column, TableDef, validate}
use tsql.Schema.Valid.{IsWellFormed, validate-IsWellFormed}
use tsql.Schema.{
  validate_cols, check_column, is_ident, all_ident_chars, is_letter, is_digit, normalize_pk_type,
  count_primary,
}
use tsql.Base.{any}
use tsql.Types.{valid_types}
use tsql.Examples.Host.{host}

pub host-IsAsymmetric : IsAsymmetric host
host-IsAsymmetric = record { floats = λ a b h. ground arith; times = λ a b h. ground arith }

abbrev seven : Value host
seven = float (pos 7)

check-seven : check {P = host} type_int seven ≡ ok (int (pos 7))
unfolding check tsql.Types.store tsql.Types.store_int
check-seven = refl

check-kind_example :
    ((is_null seven ≡ true) × (is_null {P = host} (int (pos 7)) ≡ true))
    ⊎ (some (kind {P = host} (int (pos 7))) ≡ column_kind type_int)
check-kind_example = check-kind type_int seven (int (pos 7)) check-seven

abbrev key_column : Column
key_column = record {
  name = "id";
  type = type_text;
  not_null = false;
  primary = true;
  auto_inc = true;
  unique = false;
  fk_table = "";
  fk_col = "";
}

abbrev users : TableDef
users = record { name = "users"; cols = key_column ∷ [] }

abbrev users_valid : TableDef
users_valid = record { name = "users"; cols = record key_column { type = type_int } ∷ [] }

users-validate : validate users ≡ ok users_valid
unfolding validate validate_cols check_column is_ident all_ident_chars is_letter is_digit
    normalize_pk_type count_primary any valid_types
users-validate = refl

validate-IsWellFormed_example : IsWellFormed users_valid × (users_valid.name ≡ users.name)
validate-IsWellFormed_example = validate-IsWellFormed users users_valid users-validate
