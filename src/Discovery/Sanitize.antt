-- ===== src/Discovery/Sanitize.antt =====
-- sanitizeDescriptionForPlatform of internal/hass/hamqtt.go, with renderableCategory,
-- reconcileSensorClasses and textSensorClass of internal/hass/payload.go.
use go_homeconnect2mqtt.Base.{
  String, Bool, false, not, ◌&&◌, ◌||◌, Option, none, some, is_some, List, [], ◌∷◌, if◌then◌else◌,
}
use go_homeconnect2mqtt.Base.Keys.{◌==◌, text_key}
use go_homeconnect2mqtt.Discovery.{Platform, is_sensor, is_number, Relations}
use go_homeconnect2mqtt.Discovery.Describe.{Description, Setup, device_class_allowed}
use go_homeconnect2mqtt.Discovery.Enrich.{entity_category_allowed}

-- renderableCategory
unfoldable pub renderable_category : Platform → String → String
unfolding entity_category_allowed
renderable_category p cat =
    if entity_category_allowed p cat then cat else if cat == "config" then "diagnostic" else ""

-- slices.Contains
unfoldable pub has_text : String → List String → Bool
has_text x [] = false
has_text x (y ∷ ys) = y == x || has_text x ys

-- Whether a table knows the class and does not list the value
unfoldable pub table_refuses : Option (List String) → String → Bool
unfolding has_text
table_refuses none v = false
table_refuses (some vs) v = not (v == "") && not (has_text v vs)

unfoldable pub reconciled_in : Relations → String → String → String → String × String × String
unfolding table_refuses
reconciled_in t dc unit sc =
    if not (t.numeric dc)
    then (dc, "", "")
    else if table_refuses (t.units dc) unit
    then ("", unit, sc)
    else (dc, unit, if table_refuses (t.state_classes dc) sc then "" else sc)

-- reconcileSensorClassesIn
unfoldable pub reconcile_sensor_classes :
    Option Relations → String → String → String → String × String × String
unfolding reconciled_in
reconcile_sensor_classes tables dc unit sc =
    if dc == ""
    then (dc, unit, sc)
    else elim tables [ none ↦ ("", unit, sc) | some t ↦ reconciled_in t dc unit sc ]

-- textSensorClass
unfoldable pub text_sensor_class : Option Relations → String → Bool → String
text_sensor_class tables dc is_enum =
    if is_enum
    then "enum"
    else if dc == "" || dc == "enum"
    then dc
    else elim tables [ none ↦ "" | some t ↦ if t.numeric dc then "" else dc ]

module _ {F : Type 0} (setup : Setup F) where
  -- what every platform asks for: class, category and unit
  unfoldable pub kept_for : Platform → Description F → Description F
  unfolding device_class_allowed renderable_category
  kept_for p d = record d {
    device_class =
        if not (d.device_class == "") && not (device_class_allowed setup p d.device_class)
        then ""
        else d.device_class;
    category = renderable_category p d.category;
    unit = if is_sensor p || is_number p then d.unit else "";
  }

  unfoldable pub sensor_kept : Description F → Description F
  unfolding reconcile_sensor_classes
  sensor_kept d =
      if d.device_class == "enum"
      then (if is_some d.options
          then record d { unit = ""; state_class = "" }
          else record d { device_class = "" })
      else (let r =
            reconcile_sensor_classes setup.tables.relations d.device_class d.unit d.state_class in
          record d { options = none; device_class = r.0; unit = r.1; state_class = r.2 })

  -- sanitizeDescriptionForPlatform
  unfoldable pub sanitize : Platform → Description F → Description F
  unfolding kept_for sensor_kept
  sanitize p d =
      if is_sensor p then sensor_kept (kept_for p d) else record (kept_for p d) { state_class = "" }
