-- ===== src/Platform.antt =====
-- What the program takes from Go and its host that this library does not define: IEEE floats, the
-- times of package time and the clock. A development over it holds for every such platform.
use tsql.Base.{String, Bool, Option}
use tsql.Base.Int.{ℤ}

pub record Platform : Type 1 where
  -- float64, with the conversions float64(i) and int64(f)
  pub Float : Type 0
  pub of_int : ℤ → Float
  pub to_int : Float → ℤ
  pub float_eq : Float → Float → Bool
  pub float_lt : Float → Float → Bool
  pub float_add : Float → Float → Float
  pub float_sub : Float → Float → Float
  pub float_mul : Float → Float → Float
  pub float_div : Float → Float → Float
  -- math.Mod
  pub float_mod : Float → Float → Float
  -- strconv.FormatFloat(f, 'g', -1, 64)
  pub format_float : Float → String
  -- strconv.ParseFloat(s, 64)
  pub parse_float : String → Option Float
  -- time.Time: Before, UTC().Format(time.RFC3339Nano) and ParseInLocation of a layout in UTC
  pub Time : Type 0
  pub before : Time → Time → Bool
  pub format_time : Time → String
  pub parse_time : String → String → Option Time
  -- UnixNano, and UTC().Format("2006-01-02 15:04:05")
  pub unix_nano : Time → ℤ
  pub format_seconds : Time → String
  -- strconv.Quote
  pub quote : String → String
