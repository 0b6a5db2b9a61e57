-- ===== src/Devices.antt =====
-- internal/profile/devices.go and ValidHaID of internal/profile/archive.go: which devices file the
-- daemon accepts, and the haId of a device. Parameters: utf8.ValidString, unicode.IsControl,
-- unicode.ToLower on a rune, strings.ToUpper, and `stem`, filepath.Base of a path less its
-- filepath.Ext. The YAML is read already.
pub mod Accepted
pub mod Identifiers
use Prim.Native.Char.{Char, code}
use go_homeconnect2mqtt.Base.{
  ℕ, zero, suc, String, Bool, true, false, not, ◌&&◌, ◌||◌, Option, none, some, is_some, List, [],
  ◌∷◌, Result, ok, err, nat_beq, if◌then◌else◌,
}
use go_homeconnect2mqtt.Base.Keys.{◌==◌, text_key, lookup, insert}
use go_homeconnect2mqtt.Slug.{is_alnum, is_underscore, slug}
use go_homeconnect2mqtt.Slug.Fixed.{is_capital}
use go_homeconnect2mqtt.Slug.Kept.{has_ascii_alnum}

pub record DeviceConfig : Type 0 where
  pub name : String
  pub ha_id : String
  pub host : String
  pub manual_host : Bool
  pub connection_type : String
  pub psk64 : String
  pub iv64 : String
  pub description : String

pub data NameError : Type 0 where
  not_utf8 control_sign no_letter_or_digit : NameError
  wildcard : String → NameError

pub data DeviceError : Type 0 where
  no_devices : DeviceError
  unnamed : ℕ → DeviceError
  bad_name : ℕ → NameError → DeviceError
  duplicate_name : String → DeviceError
  node_clash : String → String → String → DeviceError
  invalid_ha_id invalid_connection_type missing_psk missing_iv : String → DeviceError

pub record Unicode : Type 0 where
  pub is_utf8 : String → Bool
  pub is_control : Char → Bool
  pub lower_rune : Char → Char
  pub upper : String → String

-- Whether a rune of a text is `n`
unfoldable pub has_sign : ℕ → String → Bool
has_sign n String.[] = false
has_sign n (String.◌∷◌ c s) = nat_beq (code c) n || has_sign n s

abbrev pub is_id_sign : Char → Bool
is_id_sign c =
    is_alnum c || is_capital c || nat_beq (code c) b'.' || is_underscore c || nat_beq (code c) b'-'

unfoldable pub all_id_signs : String → Bool
all_id_signs String.[] = true
all_id_signs (String.◌∷◌ c s) = is_id_sign c && all_id_signs s

-- ValidHaID
unfoldable pub valid_ha_id : String → Bool
unfolding all_id_signs
valid_ha_id s = if s == "." || s == ".." then false else not (s == "") && all_id_signs s

unfoldable pub any_control : (Char → Bool) → String → Bool
any_control is_control String.[] = false
any_control is_control (String.◌∷◌ c s) = is_control c || any_control is_control s

module _ (u : Unicode) where
  -- validateDeviceName
  unfoldable pub validate_device_name : String → Option NameError
  unfolding has_sign any_control has_ascii_alnum
  validate_device_name name =
      if not (u.is_utf8 name)
      then some not_utf8
      else if has_sign b'+' name
      then some (wildcard "+")
      else if has_sign b'#' name
      then some (wildcard "#")
      else if any_control u.is_control name
      then some control_sign
      else if has_ascii_alnum name
      then none
      else some no_letter_or_digit

  -- The body of the loop of LoadDevices, before the maps and behind them
  unfoldable pub name_fault : ℕ → DeviceConfig → Option DeviceError
  unfolding validate_device_name
  name_fault i d =
      if d.name == ""
      then some (unnamed i)
      else elim (validate_device_name d.name) [ none ↦ none | some x ↦ some (bad_name i x) ]

  unfoldable pub key_fault : DeviceConfig → Option DeviceError
  unfolding valid_ha_id
  key_fault d =
      if not (d.ha_id == "") && not (valid_ha_id d.ha_id)
      then some (invalid_ha_id d.name)
      else if not (d.connection_type == "AES") && not (d.connection_type == "TLS")
      then some (invalid_connection_type d.name)
      else if d.psk64 == ""
      then some (missing_psk d.name)
      else if d.connection_type == "AES" && d.iv64 == ""
      then some (missing_iv d.name)
      else none

  abbrev pub upper_type : DeviceConfig → DeviceConfig
  upper_type d = record d { connection_type = u.upper d.connection_type }

  abbrev pub before_rest :
      DeviceConfig → Result DeviceError (List DeviceConfig) → Result DeviceError (List DeviceConfig)
  before_rest d (ok ds) = ok (d ∷ ds)
  before_rest d (err x) = err x

  -- The loop of LoadDevices: `i` is the index, `seen` and `nodes` are the maps seen and byNodeID.
  unfoldable pub check_devices :
      ℕ
      → List (String × Bool)
      → List (String × String)
      → List DeviceConfig
      → Result DeviceError (List DeviceConfig)
  unfolding name_fault key_fault slug
  check_devices i seen nodes [] = ok []
  check_devices i seen nodes (d0 ∷ ds) =
      let d = upper_type d0 in
      let node = slug u.lower_rune d.name in
      let rest = check_devices (suc i) (insert d.name true seen) (insert node d.name nodes) ds in
      elim (name_fault i d) [
        | some x ↦ err x
        | none ↦
            if is_some (lookup d.name seen)
            then err (duplicate_name d.name)
            else elim (lookup node nodes) [
              | some first ↦ err (node_clash first d.name node)
              | none ↦ elim (key_fault d) [ some x ↦ err x | none ↦ before_rest d rest ]
            ]
      ]

  -- LoadDevices
  unfoldable pub load_devices : List DeviceConfig → Result DeviceError (List DeviceConfig)
  unfolding check_devices
  load_devices [] = err no_devices
  load_devices (d ∷ ds) = check_devices 0 [] [] (d ∷ ds)

pub data HaIdSource : Type 0 where
  from_config from_description from_file_name : HaIdSource

pub data HaIdError : Type 0 where
  invalid_id invalid_described_id no_ha_id : HaIdError

-- The last source of ResolveHaID
abbrev pub by_file_name : (String → String) → String → Result HaIdError (String × HaIdSource)
by_file_name stem path =
    if not (path == "") && not (stem path == "") && valid_ha_id (stem path)
    then ok (stem path, from_file_name)
    else err no_ha_id

abbrev pub by_description :
    (String → String) → String → Option String → Result HaIdError (String × HaIdSource)
by_description stem path none = by_file_name stem path
by_description stem path (some id) =
    if id == ""
    then by_file_name stem path
    else if valid_ha_id id
    then ok (id, from_description)
    else err invalid_described_id

-- ResolveHaID; `described` is the haId of the description, none where there is no description.
unfoldable pub resolve_ha_id :
    (String → String) → DeviceConfig → Option String → Result HaIdError (String × HaIdSource)
resolve_ha_id stem d described =
    if d.ha_id == ""
    then by_description stem d.description described
    else if valid_ha_id d.ha_id
    then ok (d.ha_id, from_config)
    else err invalid_id
