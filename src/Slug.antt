-- ===== src/Slug.antt =====
-- internal/slug/slug.go: the fold of an appliance's name to an identifier. strings.ToLower is
-- `lower_rune` of package unicode on each rune.
pub mod Shape
pub mod Fixed
pub mod Kept
use Prim.Native.Char.{Char, code}
use Prim.Native.String.{◌++◌}
use go_homeconnect2mqtt.Base.{ℕ, String, Bool, true, false, ◌&&◌, ◌||◌, nat_beq, if◌then◌else◌}
use go_homeconnect2mqtt.Base.Keys.{◌==◌, text_key}
use go_homeconnect2mqtt.Translation.{is_small, is_digit}

abbrev pub is_alnum : Char → Bool
is_alnum c = is_small c || is_digit c

abbrev pub is_underscore : Char → Bool
is_underscore c = nat_beq (code c) b'_'

-- umlautReplacer on one rune
unfoldable pub replaced : Char → String
replaced c =
    if nat_beq (code c) 228
    then "a"
    else if nat_beq (code c) 246
    then "o"
    else if nat_beq (code c) 252
    then "u"
    else if nat_beq (code c) 223
    then "ss"
    else String.◌∷◌ c ""

-- The loop of Slug; `after` is prevUnderscore.
unfoldable pub shape : Bool → String → String
shape after String.[] = ""
shape after (String.◌∷◌ c s) =
    let kept = shape false s in
    let cut = shape true s in
    if is_alnum c then String.◌∷◌ c kept else if after then cut else String.◌∷◌ "_" cut

-- strings.Trim with "_", on the right and on the left
unfoldable pub trim_right : String → String
trim_right String.[] = ""
trim_right (String.◌∷◌ c s) =
    let rest = trim_right s in if is_underscore c && rest == "" then "" else String.◌∷◌ c rest

unfoldable pub trim_left : String → String
trim_left String.[] = ""
trim_left (String.◌∷◌ c s) =
    let rest = trim_left s in if is_underscore c then rest else String.◌∷◌ c s

module _ (lower_rune : Char → Char) where
  -- Fold
  unfoldable pub fold : String → String
  unfolding replaced
  fold String.[] = ""
  fold (String.◌∷◌ c s) = replaced (lower_rune c) ++ fold s

  -- Slug
  unfoldable pub slug : String → String
  unfolding fold shape trim_right trim_left
  slug s = trim_left (trim_right (shape false (fold s)))
