-- ===== src/Schema.antt =====
-- internal/schema/schema.go: the catalog's columns and tables, and the rules for a definition.
pub mod Valid
use Prim.Native.Char.{Char, code}
use tsql.Base.{ℕ, zero, suc, ◌+◌, String, Bool, true, false, ◌&&◌, ◌||◌, not, List, [], ◌∷◌}
use tsql.Base.{◌==◌, leb, ltb, str_eq, any, if◌then◌else◌, Result, ok, err, ◌>>=◌, ◌>>◌, guard}
use tsql.Types.{ColumnType, type_int, type_bigint, valid_types}

pub record Column : Type 0 where
  pub name : String
  pub type : ColumnType
  pub not_null : Bool
  pub primary : Bool
  pub auto_inc : Bool
  pub unique : Bool
  -- empty: no foreign key
  pub fk_table : String
  pub fk_col : String

pub record TableDef : Type 0 where
  pub name : String
  pub cols : List Column

pub data SchemaError : Type 0 where
  invalid_table_name no_columns invalid_column_name duplicate_column unknown_type : SchemaError
  many_primary_keys : SchemaError

unfoldable pub is_letter : Char → Bool
is_letter c =
    (leb b'a' (code c) && leb (code c) b'z')
    || (leb b'A' (code c) && leb (code c) b'Z')
    || (code c == b'_')

unfoldable pub is_digit : Char → Bool
is_digit c = leb b'0' (code c) && leb (code c) b'9'

unfoldable pub all_ident_chars : String → Bool
unfolding is_letter is_digit
all_ident_chars String.[] = true
all_ident_chars (String.◌∷◌ c s) = (is_letter c || is_digit c) && all_ident_chars s

-- `identRe`: a letter or underscore, then letters, digits and underscores.
unfoldable pub is_ident : String → Bool
unfolding is_letter all_ident_chars
is_ident String.[] = false
is_ident (String.◌∷◌ c s) = is_letter c && all_ident_chars s

-- normalizePKType
unfoldable pub normalize_pk_type : ColumnType → ColumnType
normalize_pk_type ct = if str_eq ct type_int || str_eq ct type_bigint then ct else type_int

abbrev pub normalize_pk : Column → Column
normalize_pk c = if c.primary then record c { type = normalize_pk_type c.type } else c

-- The checks of one round of Validate's loop.
unfoldable pub check_column : List String → Column → Result SchemaError (Unit {0})
unfolding is_ident any valid_types
check_column seen c = do
  guard (is_ident c.name) invalid_column_name
  guard (not (any (str_eq c.name) seen)) duplicate_column
  guard (valid_types c.type) unknown_type

-- The loop of Validate, with the names seen so far: the columns with their primary keys normalized.
unfoldable pub validate_cols : List String → List Column → Result SchemaError (List Column)
unfolding check_column normalize_pk_type
validate_cols seen [] = ok []
validate_cols seen (c ∷ cs) = do
  check_column seen c
  rest ← validate_cols (c.name ∷ seen) cs
  ok (normalize_pk c ∷ rest)

unfoldable pub count_primary : List Column → ℕ
count_primary [] = 0
count_primary (c ∷ cs) = if c.primary then suc (count_primary cs) else count_primary cs

abbrev pub is_empty : List Column → Bool
is_empty [] = true
is_empty (c ∷ cs) = false

-- TableDef.Validate: the definition as it leaves it, or why it is refused.
unfoldable pub validate : TableDef → Result SchemaError TableDef
unfolding is_ident validate_cols count_primary
validate td = do
  guard (is_ident td.name) invalid_table_name
  guard (not (is_empty td.cols)) no_columns
  cols ← validate_cols [] td.cols
  guard (not (ltb 1 (count_primary td.cols))) many_primary_keys
  ok (record td { cols = cols })
