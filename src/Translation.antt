-- ===== src/Translation.antt =====
-- internal/i18n/enums.go: labels of enum members. The table that is generated for German is the
-- parameter `table`; strings.ToLower is the parameter `lower`.
use Prim.Native.Char.{Char, code}
use go_homeconnect2mqtt.Base.{
  String, Bool, true, not, ◌&&◌, ◌||◌, none, some, List, [], ◌∷◌, leb, if◌then◌else◌,
}
use go_homeconnect2mqtt.Base.Keys.{◌==◌, text_key, lookup, insert}

abbrev pub is_digit : Char → Bool
is_digit c = leb b'0' (code c) && leb (code c) b'9'

abbrev pub is_small : Char → Bool
is_small c = leb b'a' (code c) && leb (code c) b'z'

-- The loop of norm, and of progNorm in internal/bridge/command.go
unfoldable pub keep_alnum : String → String
keep_alnum String.[] = ""
keep_alnum (String.◌∷◌ c s) =
    let rest = keep_alnum s in if is_small c || is_digit c then String.◌∷◌ c rest else rest

unfoldable pub all_digits : String → Bool
all_digits String.[] = true
all_digits (String.◌∷◌ c s) = is_digit c && all_digits s

-- isNumeric
unfoldable pub is_numeric : String → Bool
unfolding all_digits
is_numeric s = not (s == "") && all_digits s

module _ (lower : String → String) where
  -- norm
  unfoldable pub norm : String → String
  unfolding keep_alnum
  norm s = keep_alnum (lower s)

  -- enumENGen: the inverse of the table
  unfoldable pub inverted : List (String × String) → List (String × String)
  inverted [] = []
  inverted ((en, de) ∷ rest) = insert (norm de) en (inverted rest)

  module _ (table : List (String × String)) where
    -- EnumLabel
    unfoldable pub enum_label : String → String → String
    enum_label name lang =
        if lang == "de" && not (is_numeric name)
        then elim (lookup (norm name) table) [ none ↦ name | some de ↦ de ]
        else name

    -- EnumValue
    unfoldable pub enum_value : String → String → String
    unfolding inverted
    enum_value label lang =
        if lang == "de" && not (is_numeric label)
        then elim (lookup (norm label) (inverted table)) [ none ↦ label | some en ↦ en ]
        else label
