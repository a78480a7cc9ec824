-- ===== src/Examples/Host.antt =====
-- A host with integer floats and times.
use tsql.Base.{ℕ, ◌^◌, none}
use tsql.Base.{ltb, if◌then◌else◌}
use tsql.Base.Int.{ℤ, pos, negsuc, ◌+ℤ◌, ◌-ℤ◌, ◌*ℤ◌, eqb_ℤ, ltb_ℤ}
use tsql.Base.Decimal.{format_int}
use tsql.Platform.{Platform}

-- The largest integers round to one float, as they do in float64.
abbrev rounded : ℤ → ℤ
rounded (pos n) = if ltb n (2 ^ 53) then pos n else pos (2 ^ 53)
rounded (negsuc n) = negsuc n

abbrev pub host : Platform
host = record {
  Float = ℤ;
  of_int = rounded;
  to_int = λ f. f;
  float_eq = eqb_ℤ;
  float_lt = ltb_ℤ;
  float_add = ◌+ℤ◌;
  float_sub = ◌-ℤ◌;
  float_mul = ◌*ℤ◌;
  float_div = λ a b. a;
  float_mod = λ a b. b;
  format_float = format_int;
  parse_float = λ s. none;
  Time = ℕ;
  before = ltb;
  format_time = λ t. format_int (pos t);
  parse_time = λ layout s. none;
  unix_nano = pos;
  format_seconds = λ t. format_int (pos t);
  quote = λ s. s;
}
