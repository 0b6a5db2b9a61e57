-- ===== src/Layout.antt =====
-- internal/layout/layout.go: the MQTT topics of one appliance. The instance-level layout is
-- go-hamqtt's topic.SmartHome: it is the parameter `SmartHome`, with what its documentation says.
pub mod Topics
pub mod RoundTrip
use Prim.Native.Char.{Char, code}
use Prim.Native.String.{◌++◌}
use go_homeconnect2mqtt.Base.{
  ℕ, String, ◌≡◌, Bool, true, false, Option, none, some, List, [], ◌∷◌, nat_beq, if◌then◌else◌,
}
use go_homeconnect2mqtt.Base.Int.{ℤ, pos}
use go_homeconnect2mqtt.Base.Keys.{◌==◌, text_key}

-- `<name>/<function>/<item...>`, each segment made safe; and Go's decimal numbers.
pub record SmartHome : Type 0 where
  pub name : String
  pub safe : String → String
  pub join : List String → String
  pub status : List String → String
  pub set : List String → String
  pub itoa : ℤ → String
  pub atoi : String → Option ℤ
  pub join_one : (s : String) → join (s ∷ []) ≡ safe s
  pub join_more :
      (s t : String) (r : List String) → join (s ∷ t ∷ r) ≡ safe s ++ ("/" ++ join (t ∷ r))
  pub status_lem :
      (d s : String) (r : List String)
      → status (d ∷ s ∷ r) ≡ name ++ ("/status/" ++ (safe d ++ ("/" ++ join (s ∷ r))))
  pub set_lem :
      (d s : String) (r : List String)
      → set (d ∷ s ∷ r) ≡ name ++ ("/set/" ++ (safe d ++ ("/" ++ join (s ∷ r))))

abbrev pub control_start_program : String
control_start_program = "start_program"

abbrev pub control_stop_program : String
control_stop_program = "stop_program"

abbrev pub control_prefix : String
control_prefix = "_control"

abbrev pub unnamed_prefix : String
unnamed_prefix = "_uid"

abbrev pub dot : ℕ
dot = b'.'

abbrev pub slash : ℕ
slash = b'/'

-- strings.CutPrefix
unfoldable pub cut_prefix : String → String → Option String
cut_prefix String.[] s = some s
cut_prefix (String.◌∷◌ c p) String.[] = none
cut_prefix (String.◌∷◌ c p) (String.◌∷◌ d s) =
    if nat_beq (code c) (code d) then cut_prefix p s else none

abbrev pub cons_head : Char → List String → List String
cons_head c [] = (String.◌∷◌ c "") ∷ []
cons_head c (x ∷ xs) = (String.◌∷◌ c x) ∷ xs

-- strings.Split(s, ".")
unfoldable pub split_dots : String → List String
split_dots String.[] = "" ∷ []
split_dots (String.◌∷◌ c s) =
    let rest = split_dots s in if nat_beq (code c) dot then "" ∷ rest else cons_head c rest

-- strings.ReplaceAll(s, "/", ".")
unfoldable pub slashes_to_dots : String → String
slashes_to_dots String.[] = ""
slashes_to_dots (String.◌∷◌ c s) =
    String.◌∷◌ (if nat_beq (code c) slash then "." else c) (slashes_to_dots s)

-- ControlPath
unfoldable pub control_path : String → String
control_path key = control_prefix ++ ("/" ++ key)

-- What FeatureName makes of a path: a name, or a uid.
pub data Target : Type 0 where
  by_name : String → Target
  by_uid : ℤ → Target

module _ (sh : SmartHome) where
  open sh use {name, safe, join, status, set, itoa, atoi}

  -- FeatureItem
  unfoldable pub feature_item : String → ℤ → List String
  feature_item feature uid =
      if feature == "" then unnamed_prefix ∷ itoa uid ∷ [] else split_dots feature

  -- FeaturePath
  unfoldable pub feature_path : String → ℤ → String
  feature_path feature uid = join (feature_item feature uid)

  unfoldable pub numbered : Option ℤ → Target
  numbered none = by_name ""
  numbered (some n) = by_uid n

  -- FeatureName
  unfoldable pub feature_name : String → Target
  unfolding numbered
  feature_name rel = elim (cut_prefix (unnamed_prefix ++ "/") rel) [
    | some s ↦ numbered (atoi s)
    | none ↦ by_name (slashes_to_dots rel)
  ]

  module _ (ha_id : String) where
    -- Device.State, Command and ControlCommand
    unfoldable pub state : String → ℤ → String
    state feature uid = status (ha_id ∷ feature_item feature uid)

    unfoldable pub command : String → ℤ → String
    command feature uid = set (ha_id ∷ feature_item feature uid)

    unfoldable pub control_command : String → String
    control_command key = set (ha_id ∷ control_prefix ∷ key ∷ [])

    -- setBase and CommandFilter
    unfoldable pub set_base : String
    set_base = name ++ ("/set/" ++ (safe ha_id ++ "/"))

    unfoldable pub command_filter : String
    command_filter = set_base ++ "#"

    -- Relative
    unfoldable pub relative : String → Option String
    relative topic = elim (cut_prefix set_base topic) [
      | none ↦ none
      | some rest ↦ if rest == "" then none else some rest
    ]
