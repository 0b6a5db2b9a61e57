-- ===== src/Value.antt =====
-- JSON values as Go holds them in an `any`, and the conversions of internal/homeconnect/entities.go
-- (convertBool, asInt, asFloat, toString, castValue). float64 and its conversions are Go's: they
-- are a parameter, as are strconv.ParseFloat and fmt.Sprint.
use go_homeconnect2mqtt.Base.{
  String, Bool, true, false, not, Option, none, some, from_option, ◌||◌, if◌then◌else◌,
}
use go_homeconnect2mqtt.Base.Int.{ℤ, pos, int_beq}
use go_homeconnect2mqtt.Base.Keys.{◌==◌, text_key}

-- `composite` is an array or an object, which the program passes on as it came.
pub data Value (F : Type 0) : Type 0 where
  null : Value F
  bool : Bool → Value F
  int : ℤ → Value F
  int64 : ℤ → Value F
  float : F → Value F
  str : String → Value F
  composite : String → Value F

-- float64, and what Go's library does with numbers and text.
pub record Host : Type 1 where
  pub Float : Type 0
  pub of_int : ℤ → Float  -- float64(n)
  pub to_int : Float → ℤ  -- int(f)
  pub is_zero : Float → Bool  -- f == 0
  pub is_one : Float → Bool  -- f == 1
  pub is_positive : Float → Bool  -- f > 0
  pub float_beq : Float → Float → Bool  -- f == g
  pub parse_float : String → Option Float  -- strconv.ParseFloat
  pub atoi : String → Option ℤ  -- strconv.Atoi
  pub trim_space : String → String  -- strings.TrimSpace
  pub trim_quotes : String → String  -- strings.Trim(s, `"`)
  pub lower : String → String  -- strings.ToLower
  pub equal_fold : String → String → Bool  -- strings.EqualFold
  pub print : Value Float → String  -- fmt.Sprint

-- profile.ProtocolType; the constants of internal/profile/types.go, and any other text.
pub data ProtocolType : Type 0 where
  boolean integer floating string object : ProtocolType
  other : String → ProtocolType

abbrev bit : Bool → ℤ
bit true = pos 1
bit false = pos 0

module _ (host : Host) where
  open host use {
    Float, of_int, to_int, is_zero, parse_float, trim_space, trim_quotes, equal_fold, print,
  }

  unfoldable pub convert_bool : Value Float → Bool
  convert_bool (bool b) = b
  convert_bool (str s) = equal_fold (trim_space s) "true"
  convert_bool (float f) = not (is_zero f)
  convert_bool (int n) = not (int_beq n (pos 0))
  convert_bool (int64 n) = not (int_beq n (pos 0))
  convert_bool _ = false

  unfoldable pub as_int : Value Float → Option ℤ
  as_int (int n) = some n
  as_int (int64 n) = some n
  as_int (float f) = some (to_int f)
  as_int (str s) = elim (parse_float (trim_space s)) [ none ↦ none | some f ↦ some (to_int f) ]
  as_int (bool b) = some (bit b)
  as_int _ = none

  unfoldable pub as_float : Value Float → Option Float
  as_float (float f) = some f
  as_float (int n) = some (of_int n)
  as_float (int64 n) = some (of_int n)
  as_float (str s) = parse_float (trim_space s)
  as_float (bool b) = some (of_int (bit b))
  as_float _ = none

  unfoldable pub to_text : Value Float → String
  to_text (str s) = s
  to_text v = print v

  unfoldable pub cast_value : ProtocolType → Value Float → Value Float
  unfolding convert_bool as_int as_float to_text
  cast_value boolean v = bool (convert_bool v)
  cast_value integer v = elim (as_int v) [ none ↦ v | some n ↦ int n ]
  cast_value floating v = elim (as_float v) [ none ↦ v | some f ↦ float f ]
  cast_value string v = str (to_text v)
  cast_value object v = v
  cast_value (other _) v = v

  -- optionalInt of message.go, at the text of a JSON value
  unfoldable pub optional_int : String → Option ℤ
  optional_int raw =
      let s = trim_space raw in
      let t = trim_quotes s in
      if s == "" || s == "null"
      then none
      else if t == ""
      then none
      else elim (parse_float t) [ none ↦ none | some f ↦ some (to_int f) ]

  unfoldable pub coerce_int : String → ℤ
  unfolding optional_int
  coerce_int raw = from_option (pos 0) (optional_int raw)

  -- anyToInt of session.go
  unfoldable pub any_to_int : Value Float → ℤ
  unfolding coerce_int
  any_to_int (float f) = to_int f
  any_to_int (int n) = n
  any_to_int (int64 n) = n
  any_to_int (str s) = coerce_int s
  any_to_int _ = pos 0
