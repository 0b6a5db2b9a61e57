-- ===== src/Tests/Features.antt =====
-- The features of an appliance on a small description.
use mathlib.Core.Option
use go_homeconnect2mqtt.Base.{
  ℕ, ◌≡◌, ◌⊎◌, refl, true, Option, none, some, [], ◌∷◌, ok, err, if◌then◌else◌,
}
use go_homeconnect2mqtt.Base.Int.{ℤ, pos}
use go_homeconnect2mqtt.Base.Keys.{◌==◌, int_key, text_key, lookup, insert}
use go_homeconnect2mqtt.Value.{int, str, integer, as_int}
use go_homeconnect2mqtt.Message.{Item}
use go_homeconnect2mqtt.Entity.{
  setting, Entry, reversed, new_entity, value, update, resolve_write_value,
}
use go_homeconnect2mqtt.Entity.Writes.{Fits, IsMember, resolve_write_value-Fits, enum_roundtrip}
use go_homeconnect2mqtt.Appliance.{
  Appliance, entity, Call, ApplianceError, new_appliance, apply_item, write_value,
}
use go_homeconnect2mqtt.Appliance.Index.{new_appliance-IsCoherent}
use go_homeconnect2mqtt.Appliance.Routing.{apply_item_routes}
use go_homeconnect2mqtt.Appliance.Gate.{IsAllowed, write_value_gate}
use go_homeconnect2mqtt.Tests.Parameters.{whole_host}

-- A writable setting with two members.
abbrev pub power : Entry ℤ
power = record {
  uid = pos 539;
  name = "Power";
  kind = setting;
  ref_cid = pos 3;
  ref_did = pos 128;
  handling = "";
  level = "";
  init_value = "";
  default_value = "";
  options = [];
  protocol_type = integer;
  access = "readwrite";
  execution = "";
  available = true;
  min = none;
  max = none;
  step_size = none;
  content_type = "";
  enumeration = (pos 1, "off") ∷ (pos 2, "on") ∷ [];
}

abbrev power_on : Item ℤ
power_on = ("uid", int (pos 539)) ∷ ("value", int (pos 2)) ∷ []

abbrev pub oven : Appliance ℤ
oven = new_appliance whole_host true (power ∷ [])

abbrev refuses : Call ℤ → Option ℕ
refuses call = some 3

enum_roundtrip_example :
    (resolve_write_value whole_host (str "on") (new_entity whole_host power) ≡ ok (int (pos 2)))
    × (value whole_host
          (update whole_host (("value", int (pos 2)) ∷ []) (new_entity whole_host power))
        ≡ str "on")
unfolding new_entity reversed lookup insert
enum_roundtrip_example =
    enum_roundtrip whole_host (new_entity whole_host power) (pos 2) "on" "on" refl refl
      (refl, (refl, tt)) refl refl

resolve_write_value-Fits_example :
    Fits {F = ℤ} integer (str "on") (int (pos 2))
    ⊎ IsMember whole_host (new_entity whole_host power) (str "on") (int (pos 2))
unfolding new_entity reversed lookup insert resolve_write_value
resolve_write_value-Fits_example =
    resolve_write_value-Fits whole_host (str "on") (int (pos 2)) (new_entity whole_host power) refl

apply_item_routes_example : entity (pos 539) (apply_item whole_host power_on oven) ≡ (
    if pos 539 == pos 539
    then Option.map (update whole_host power_on) (entity (pos 539) oven)
    else entity (pos 539) oven)
unfolding lookup as_int
apply_item_routes_example =
    apply_item_routes whole_host power_on oven (pos 539) (pos 539)
      (new_appliance-IsCoherent whole_host true (power ∷ [])) refl

write_value_gate_example :
    ((x : ApplianceError ℕ) × (write_value whole_host refuses (pos 539) (str "on") oven
        ≡ (err x, [], oven)))
    ⊎ ((call : Call ℤ) × ((write_value whole_host refuses (pos 539) (str "on") oven).1 ≡ call ∷ [])
        × IsAllowed whole_host (pos 539) (str "on") oven call)
write_value_gate_example = write_value_gate whole_host refuses (pos 539) (str "on") oven
