-- ===== src/Discovery.antt =====
-- internal/hass/payload.go: what a feature becomes in Home Assistant. The order of float64 and the
-- tables of go-ha-catalog are parameters.
pub mod Bounds
pub mod Describe
pub mod Enrich
pub mod Sanitize
pub mod Model
use Prim.Native.Char.{Char, code}
use Prim.Native.String.{◌++◌}
use go_homeconnect2mqtt.Base.{
  ℕ, String, Bool, true, false, not, ◌&&◌, ◌||◌, Option, none, some, is_some, from_option, List, [],
  ◌∷◌, leb, if◌then◌else◌,
}
use go_homeconnect2mqtt.Base.Int.{ℤ}
use go_homeconnect2mqtt.Base.Keys.{◌==◌, text_key}
use go_homeconnect2mqtt.Value.{ProtocolType, boolean, integer, floating}
use go_homeconnect2mqtt.Entity.{
  EntryKind, status, setting, event, command, option, program, active_program, selected_program,
  protection_port, Entry, Entity, is_enum,
}
use go_homeconnect2mqtt.Layout.{cut_prefix}
use go_homeconnect2mqtt.Command.Programs.{prog_leaf, text_ltb}

pub data Platform : Type 0 where
  sensor binary_sensor switch select number button : Platform

abbrev pub is_sensor : Platform → Bool
is_sensor sensor = true
is_sensor _ = false

abbrev pub is_number : Platform → Bool
is_number number = true
is_number _ = false

abbrev pub reads_only : Platform → Bool
reads_only sensor = true
reads_only binary_sensor = true
reads_only _ = false

-- float64 as numberBounds needs it: `greater` is f > g, `milli` is 1e-3.
pub record Floats (F : Type 0) : Type 0 where
  pub is_finite : F → Bool
  pub greater : F → F → Bool
  pub at_least : F → F → Bool
  pub naught : F
  pub hundred : F
  pub milli : F

-- The tables of Home Assistant's classes; none where they do not load.
pub record Relations : Type 0 where
  pub numeric : String → Bool
  pub units : String → Option (List String)
  pub state_classes : String → Option (List String)

pub record Tables : Type 0 where
  pub device_classes : Option (Platform → String → Bool)
  pub relations : Option Relations

platform_by_type : ProtocolType → Bool → Platform
platform_by_type boolean w = if w then switch else binary_sensor
platform_by_type integer w = if w then number else sensor
platform_by_type floating w = if w then number else sensor
platform_by_type _ w = sensor

abbrev number_typed : ProtocolType → Bool
number_typed integer = true
number_typed floating = true
number_typed _ = false

is_primary_leaf : String → Bool
is_primary_leaf n =
    n == "PowerState"
    || n == "OperationState"
    || n == "DoorState"
    || n == "RemainingProgramTime"
    || n == "ProgramProgress"
    || n == "StartInRelative"
    || n == "ActiveProgram"
    || n == "SelectedProgram"
    || n == "RemoteControlActive"
    || n == "RemoteControlStartAllowed"
    || n == "BackendConnected"
    || n == "ProgramFinished"
    || n == "ProgramAborted"
    || n == "BatteryLevel"
    || n == "ChargingState"

primary_kind : EntryKind → Bool
primary_kind active_program = true
primary_kind selected_program = true
primary_kind _ = false

category_of : EntryKind → Bool → String
category_of setting w = if w then "config" else "diagnostic"
category_of option w = if w then "config" else "diagnostic"
category_of command w = "config"
category_of status w = "diagnostic"
category_of event w = "diagnostic"
category_of _ w = ""

has_part : String → String → Bool
has_part p String.[] = p == ""
has_part p (String.◌∷◌ c s) = is_some (cut_prefix p (String.◌∷◌ c s)) || has_part p s

module _ {F : Type 0} where
  -- Writable of Entry
  abbrev pub may_write : Entry F → Bool
  may_write d = d.access == "readwrite" || d.access == "writeonly"

  by_content : Entry F → Platform
  unfolding platform_by_type
  by_content d =
      if is_enum d
      then (if may_write d then select else sensor)
      else platform_by_type d.protocol_type (may_write d)

  by_entry_kind : EntryKind → Entry F → Option Platform
  unfolding by_content
  by_entry_kind command d = some button
  by_entry_kind event d = some binary_sensor
  by_entry_kind active_program d = some sensor
  by_entry_kind selected_program d = some (if may_write d && is_enum d then select else sensor)
  by_entry_kind program d = none
  by_entry_kind protection_port d = none
  by_entry_kind _ d = some (by_content d)

  -- classify
  unfoldable pub classify : Entity F → Option Platform
  unfolding by_entry_kind
  classify e = by_entry_kind e.desc.kind e.desc

  -- numericValue
  unfoldable pub numeric_value : Entity F → Bool
  numeric_value e = not (is_enum e.desc) && number_typed e.desc.protocol_type

  -- leafName
  abbrev pub leaf_name : Entity F → String
  leaf_name e = prog_leaf e.desc.name

  -- isPrimary
  unfoldable pub is_primary : Entity F → Bool
  unfolding is_primary_leaf primary_kind
  is_primary e = primary_kind e.desc.kind || is_primary_leaf (leaf_name e)

  -- entityCategoryFor
  unfoldable pub entity_category_for : Entity F → String
  unfolding is_primary category_of
  entity_category_for e = if is_primary e then "" else category_of e.desc.kind (may_write e.desc)

  -- stateClassFor
  unfoldable pub state_class_for : Entity F → Platform → String
  unfolding has_part
  state_class_for e p =
      if is_sensor p && not (is_enum e.desc) && number_typed e.desc.protocol_type
      then (if has_part "Count" e.desc.name then "total_increasing" else "measurement")
      else ""

  -- deviceClassAndUnit
  unfoldable pub device_class_and_unit : Entity F → String × String
  device_class_and_unit e =
      let c = e.desc.content_type in
      if is_enum e.desc
      then ("enum", "")
      else if c == "temperatureCelsius"
      then ("temperature", "°C")
      else if c == "temperatureFahrenheit"
      then ("temperature", "°F")
      else if c == "percent"
      then ("", "%")
      else if c == "timeSpan"
      then ("duration", "s")
      else if c == "dbm"
      then ("signal_strength", "dBm")
      else if c == "rpm"
      then ("", "rpm")
      else if c == "power"
      then ("power", "W")
      else if c == "energy"
      then ("energy", "Wh")
      else if c == "weight"
      then ("weight", "g")
      else ("", "")

  module _ (floats : Floats F) where
    finite_only : Option F → Option F
    finite_only none = none
    finite_only (some f) = if floats.is_finite f then some f else none

    step_only : Option F → Option F
    step_only none = none
    step_only (some s) = if floats.at_least s floats.milli then some s else none

    -- Home Assistant's minimum and maximum for the bounds that it reads
    abbrev pub least : Option F → F
    least m = from_option floats.naught m

    abbrev pub most : Option F → F
    most m = from_option floats.hundred m

    -- numberBounds: minimum, maximum and step
    unfoldable pub number_bounds : Entity F → Option F × Option F × Option F
    unfolding finite_only step_only
    number_bounds e =
        let lo = finite_only e.min in
        let hi = finite_only e.max in
        let crossed = floats.greater (least lo) (most hi) in
        (
          if crossed then none else lo,
          if crossed then none else hi,
          step_only (finite_only e.step_size),
        )
