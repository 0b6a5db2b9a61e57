-- ===== src/Tests/Retained.antt =====
-- The theorems on retained topics and documents at concrete ones.
use Prim.Native.Char.{code}
use Prim.Native.String.{◌++◌ as ◌^^◌}
use go_homeconnect2mqtt.Base.{
  absurd_bool, String, ◌≡◌, refl, sym, ap, ◌∙◌, Bool, true, false, ◌||◌, inl, inr, Bool-cases, ℕ,
  Option, none, some, replicate, ok, List, [], ◌∷◌, nat_beq, if◌then◌else◌,
}
use go_homeconnect2mqtt.Base.Int.{pos}
use go_homeconnect2mqtt.Base.Keys.{◌==◌, ==_iff, text_key, lookup, insert}
use go_homeconnect2mqtt.Layout.{SmartHome, slash, cut_prefix, state, feature_item, split_dots}
use go_homeconnect2mqtt.Migration.{
  first_segment, trim_root, has_topic, SweepDevice, clears, status_prefix, current_items,
  legacy_sweep_plan,
}
use go_homeconnect2mqtt.Migration.Kept.{IsNew}
use go_homeconnect2mqtt.Migration.Current.{clears_foreign}
use go_homeconnect2mqtt.Crypto.{new_crypto}
use go_homeconnect2mqtt.Devices.{has_sign, valid_ha_id}
use go_homeconnect2mqtt.Devices.Identifiers.{valid_ha_id-IsSegment}
use go_homeconnect2mqtt.Bridge.{DeviceSpec, Deps, build_device, with_id, accept_devices, new_bridge}
use go_homeconnect2mqtt.Bridge.Accepted.{started_sweep_spares}
use go_homeconnect2mqtt.Tests.Parameters.{plain_cipher}

-- A slash in a segment becomes a dash.
abbrev dashed : String → String
dashed String.[] = ""
dashed (String.◌∷◌ c s) = String.◌∷◌ (if nat_beq (code c) slash then "-" else c) (dashed s)

first_segment-dashed : (s : String) → first_segment (dashed s) ≡ dashed s
unfolding first_segment
first_segment-dashed String.[] = refl
first_segment-dashed (String.◌∷◌ c s) = elim (Bool-cases (nat_beq (code c) slash)) [
  | inl e ↦ rw e (ap (String.◌∷◌ "-") (first_segment-dashed s))
  | inr e ↦ rw (e, e) (ap (String.◌∷◌ c) (first_segment-dashed s))
]

undashed : (s : String) → has_sign slash s ≡ false → dashed s ≡ s
unfolding has_sign
undashed String.[] h = refl
undashed (String.◌∷◌ c s) h = elim (Bool-cases (nat_beq (code c) slash)) [
  | inl e ↦ absurd_bool (rw (has_sign, e) at h)
  | inr e ↦ rw e (ap (String.◌∷◌ c) (undashed s (rw (has_sign, e) at h)))
]

dashed_ids : (s : String) → valid_ha_id s ≡ true → dashed s ≡ s
dashed_ids s h =
    let (full, no_slash, no_plus, no_sharp) = valid_ha_id-IsSegment s h in undashed s no_slash

abbrev joined : List String → String
joined [] = ""
joined (s ∷ []) = dashed s
joined (s ∷ t ∷ r) = dashed s ^^ ("/" ^^ joined (t ∷ r))

abbrev levels : String → List String → String
levels function [] = ""
levels function (d ∷ []) = ""
levels function (d ∷ s ∷ r) = "home" ^^ (function ^^ (dashed d ^^ ("/" ^^ joined (s ∷ r))))

abbrev home : SmartHome
home = record {
  name = "home";
  safe = dashed;
  join = joined;
  status = levels "/status/";
  set = levels "/set/";
  itoa = λ n. "1";
  atoi = λ s. some (pos 1);
  join_one = λ s. refl;
  join_more = λ s t r. refl;
  status_lem = λ d s r. refl;
  set_lem = λ d s r. refl;
}

abbrev is_function : String → Bool
is_function s = s == "status" || s == "set"

abbrev oven : SweepDevice
oven = record { device_name = "oven"; ha_id = "A1"; features = ("Power", pos 1) ∷ [] }

-- Its name is a function's.
abbrev dryer : SweepDevice
dryer = record { device_name = "status"; ha_id = "B2"; features = ("Power", pos 1) ∷ [] }

abbrev both : List SweepDevice
both = oven ∷ dryer ∷ []

named_home : trim_root "home" ≡ "home"
unfolding trim_root
named_home = refl

differ : {A : Type 0} (s t : String) → (s == t) ≡ false → s ≡ t → A
differ s t f h = absurd_bool (sym ((==_iff s t).1 h) ∙ f)

dryer_power : has_topic "home/status/B2/Power" (current_items home is_function dryer) ≡ true
unfolding current_items has_topic state feature_item split_dots
dryer_power = refl

abbrev spec_of : String → String → DeviceSpec
spec_of name id = record {
  config = record {
    name = name;
    ha_id = id;
    host = "10.0.0.7";
    manual_host = false;
    connection_type = "AES";
    psk64 = "a2V5";
    iv64 = "aXY";
    description = "";
  };
  described = none;
  features = ("Power", pos 1) ∷ [];
}

-- Every text stands for sixteen zero bytes.
abbrev key_of : String → Option (List ℕ)
key_of text = some (replicate 16 0)

abbrev with_two : Deps
with_two = record {
  has_config = true;
  has_mqtt = true;
  has_plane = true;
  accepts_name = true;
  devices = spec_of "oven" "A1" ∷ spec_of "status" "B2" ∷ [];
}

starts : new_bridge plain_cipher (λ s. s) (λ s. s) key_of with_two ≡ ok both
unfolding new_bridge accept_devices build_device with_id valid_ha_id new_crypto lookup insert
starts = refl

started_sweep_spares_example :
    clears (legacy_sweep_plan home is_function "home" both) "home/status/B2/Power" ≡ false
started_sweep_spares_example =
    started_sweep_spares home is_function "home" plain_cipher (λ s. s) (λ s. s) key_of with_two both
      1 dryer "home/status/B2/Power" starts refl named_home refl first_segment-dashed dashed_ids
      dryer_power

power_command : IsNew home is_function "home" "home/set/A1/Power" "set/A1/Power"
unfolding trim_root first_segment
power_command = (refl, (refl, differ "set/A1/Power" "status" refl))

clears_foreign_example :
    clears (legacy_sweep_plan home is_function "home" both) "home/set/A1/Power" ≡ false
clears_foreign_example =
    clears_foreign home is_function "home" both "home/set/A1/Power" "set/A1/Power" power_command
      (unfold status_prefix cut_prefix in (refl, (refl, tt)))
