-- ===== src/Tests/Documents.antt =====
-- The devices file, the identifiers, the link items and the discovery document on concrete devices.
use Prim.Native.Char.{Char}
use go_homeconnect2mqtt.Base.{
  String, ◌≡◌, refl, Bool, true, false, none, some, List, [], ◌∷◌, All, ok, arith, if◌then◌else◌,
}
use go_homeconnect2mqtt.Base.Int.{ℤ, pos, ltb_ℤ}
use go_homeconnect2mqtt.Base.Keys.{text_key, lookup, insert}
use go_homeconnect2mqtt.Entity.{Entity, new_entity}
use go_homeconnect2mqtt.Reconnect.{connected, offline}
use go_homeconnect2mqtt.Slug.{slug, shape, fold, replaced, trim_left, trim_right}
use go_homeconnect2mqtt.Slug.Fixed.{is_capital, LowersAscii}
use go_homeconnect2mqtt.Translation.{is_small}
use go_homeconnect2mqtt.Devices.{
  DeviceConfig, Unicode, has_sign, all_id_signs, valid_ha_id, any_control, validate_device_name,
  name_fault, key_fault, check_devices, load_devices,
}
use go_homeconnect2mqtt.Slug.Kept.{has_ascii_alnum}
use go_homeconnect2mqtt.Devices.Accepted.{node_id, IsUsable, Distinct, accepted_devices}
use go_homeconnect2mqtt.Link.{LinkOp, enters, settles, reasserts, forgets, link_run, no_link}
use go_homeconnect2mqtt.Link.Restored.{Agrees, link_is_restored}
use go_homeconnect2mqtt.Discovery.{Floats}
use go_homeconnect2mqtt.Discovery.Describe.{Setup}
use go_homeconnect2mqtt.Discovery.Model.{hamqtt_model}
use go_homeconnect2mqtt.Discovery.Model.Rendered.{ComponentFits, rendered_components_fit}
use go_homeconnect2mqtt.Tests.Parameters.{whole_host, plain_layout}
use go_homeconnect2mqtt.Tests.Features.{power}

-- Names in small letters; any capital letter becomes one.
abbrev small_letter : Char → Char
small_letter c = if is_capital c then "a" else c

small_letter-LowersAscii : LowersAscii small_letter
small_letter-LowersAscii = record {
  keeps = λ c h. by_case c (ground arith);
  lowers = λ c h. by_capital c h;
}
  where
    by_case : (c : Char) → is_capital c ≡ false → small_letter c ≡ c
    by_case c h = rw h refl

    by_capital : (c : Char) → is_capital c ≡ true → is_small (small_letter c) ≡ true
    by_capital c h = rw h refl

abbrev ascii : Unicode
ascii = record {
  is_utf8 = λ s. true;
  is_control = λ c. false;
  lower_rune = small_letter;
  upper = λ s. s;
}

abbrev oven_config : DeviceConfig
oven_config = record {
  name = "oven";
  ha_id = "";
  host = "oven.lan";
  manual_host = false;
  connection_type = "TLS";
  psk64 = "c2VjcmV0";
  iv64 = "";
  description = "profiles/0123.json";
}

abbrev dryer_config : DeviceConfig
dryer_config = record oven_config { name = "dryer"; ha_id = "0456" }

both_accepted :
    load_devices ascii (oven_config ∷ dryer_config ∷ []) ≡ ok (oven_config ∷ dryer_config ∷ [])
unfolding load_devices check_devices name_fault key_fault validate_device_name has_sign any_control
    has_ascii_alnum valid_ha_id all_id_signs slug shape fold replaced trim_left trim_right lookup
    insert
both_accepted = refl

accepted_devices_example :
    All (λ d. IsUsable ascii d × (node_id ascii d ≡ "" → ⊥)) (oven_config ∷ dryer_config ∷ [])
    × Distinct ascii (oven_config ∷ dryer_config ∷ [])
accepted_devices_example =
    accepted_devices ascii small_letter-LowersAscii (oven_config ∷ dryer_config ∷ [])
      (oven_config ∷ dryer_config ∷ []) both_accepted

abbrev stem_0123 : String → String
stem_0123 path = "0123"

abbrev outage : List LinkOp
outage = enters connected true ∷ settles connected true ∷ enters offline false ∷ forgets ∷ []

abbrev back_again : List LinkOp
back_again = settles offline true ∷ enters connected true ∷ []

link_is_restored_example : Agrees (link_run (link_run no_link outage) (reasserts true ∷ back_again))
link_is_restored_example = link_is_restored outage back_again (refl, (refl, tt))

abbrev reports : List (String × Bool)
reports = ("0123", true) ∷ ("0456", false) ∷ []

abbrev whole_floats : Floats ℤ
whole_floats = record {
  is_finite = λ n. true;
  greater = λ a b. ltb_ℤ b a;
  at_least = λ a b. ltb_ℤ b a;
  naught = pos 0;
  hundred = pos 100;
  milli = pos 0;
}

abbrev crossed_power : Entity ℤ
crossed_power = record (new_entity whole_host power) { min = some (pos 9); max = some (pos 3) }

abbrev german : Setup ℤ
german = record {
  floats = whole_floats;
  tables = record { device_classes = none; relations = none };
  lower = λ s. s;
  lower_rune = small_letter;
  itoa = λ n. "1";
  labels = ("off", "aus") ∷ [];
  language = "de";
  status_template = "{{ value_json.val }}";
  enrich = none;
  curated = true;
}

rendered_components_fit_example :
    All
      (ComponentFits plain_layout german)
      (hamqtt_model plain_layout german (new_entity whole_host power ∷ crossed_power ∷ [])).0
rendered_components_fit_example =
    rendered_components_fit plain_layout german (new_entity whole_host power ∷ crossed_power ∷ [])
