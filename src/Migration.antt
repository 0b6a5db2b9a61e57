-- ===== src/Migration.antt =====
-- internal/bridge/migrate.go: which retained topics the migration sweep clears, over the layout of
-- internal/layout/legacy.go and the status topics of internal/layout/layout.go. A Go set of topics is
-- their list; topic.IsFunction of go-hamqtt is a parameter.
pub mod Current
pub mod Items
pub mod Kept
use Prim.Native.Char.{Char, code}
use Prim.Native.String.{◌++◌ as ◌^^◌}
use go_homeconnect2mqtt.Base.{
  String, Bool, true, false, not, ◌&&◌, ◌||◌, Option, none, some, is_some, List, [], ◌∷◌, ◌++◌,
  nat_beq, if◌then◌else◌,
}
use go_homeconnect2mqtt.Base.Int.{ℤ}
use go_homeconnect2mqtt.Base.Keys.{◌==◌, text_key, insert}
use go_homeconnect2mqtt.Discovery.Describe.{sort_strings}
use go_homeconnect2mqtt.Layout.{SmartHome, slash, cut_prefix, feature_item, state}

-- strings.TrimRight(s, "/"), trimRoot
unfoldable pub trim_root : String → String
trim_root String.[] = ""
trim_root (String.◌∷◌ c s) =
    let rest = trim_root s in if nat_beq (code c) slash && rest == "" then "" else String.◌∷◌ c rest

-- The first result of strings.Cut(s, "/")
unfoldable pub first_segment : String → String
first_segment String.[] = ""
first_segment (String.◌∷◌ c s) =
    let rest = first_segment s in if nat_beq (code c) slash then "" else String.◌∷◌ c rest

-- strings.Join(segments, "/")
unfoldable pub join_slashes : List String → String
join_slashes [] = ""
join_slashes (s ∷ []) = s
join_slashes (s ∷ t ∷ rest) = s ^^ ("/" ^^ join_slashes (t ∷ rest))

-- LegacyBridge
unfoldable pub legacy_bridge : String → String
unfolding trim_root
legacy_bridge root = trim_root root ^^ "/status"

-- NewLegacyDevice and LegacyDevice.Base
unfoldable pub legacy_base : String → String → String
unfolding trim_root
legacy_base root device = trim_root root ^^ ("/" ^^ device)

-- LegacyDevice.Availability and LegacyDevice.ConnectionState
unfoldable pub legacy_availability : String → String
legacy_availability base = base ^^ "/availability"

unfoldable pub legacy_connection_state : String → String
legacy_connection_state base = base ^^ "/connection_state"

unfoldable pub has_topic : String → List String → Bool
has_topic topic [] = false
has_topic topic (t ∷ ts) = t == topic || has_topic topic ts

-- What the plan reads of a device: its name, its haId, and the name and uid of each entity.
pub record SweepDevice : Type 0 where
  pub device_name : String
  pub ha_id : String
  pub features : List (String × ℤ)

-- sweepPlan
pub record SweepPlan : Type 0 where
  pub filters : List String
  pub legacy : List String
  pub current : List (String × List String)

-- The loop of clears: the first prefix that fits decides. Go takes the entries in any order, here it
-- is that of the devices.
unfoldable pub under_current : String → List (String × List String) → Bool
unfolding has_topic
under_current topic [] = false
under_current topic ((prefix, items) ∷ rest) =
    let later = under_current topic rest in
    if is_some (cut_prefix prefix topic) then not (has_topic topic items) else later

-- clears
unfoldable pub clears : SweepPlan → String → Bool
unfolding has_topic under_current
clears plan topic = if has_topic topic plan.legacy then true else under_current topic plan.current

-- The set `stale` of sweepLegacy, from the retained topics that the window delivers
unfoldable pub stale_topics : SweepPlan → List String → List String
unfolding clears has_topic
stale_topics plan [] = []
stale_topics plan (topic ∷ topics) =
    let rest = stale_topics plan topics in
    if clears plan topic && not (has_topic topic rest) then topic ∷ rest else rest

-- sweepLegacy: the topics that it evicts
unfoldable pub sweep_legacy : SweepPlan → List String → List String
unfolding stale_topics sort_strings
sweep_legacy plan retained = sort_strings (stale_topics plan retained)

module _ (sh : SmartHome) (is_function : String → Bool) where
  open sh use {name, safe, status}

  -- legacyFeaturePath
  unfoldable pub legacy_feature_path : String → ℤ → String
  unfolding join_slashes
  legacy_feature_path feature uid = join_slashes (feature_item sh feature uid)

  -- LegacyDevice.State
  unfoldable pub legacy_state : String → String → ℤ → String
  unfolding legacy_feature_path
  legacy_state base feature uid = base ^^ ("/" ^^ (legacy_feature_path feature uid ^^ "/state"))

  -- Device.StatusPrefix, Device.Online and Device.ConnectionState
  unfoldable pub status_prefix : String → String
  status_prefix ha_id = name ^^ ("/status/" ^^ (safe ha_id ^^ "/"))

  unfoldable pub online_topic : String → String
  online_topic ha_id = status (ha_id ∷ "online" ∷ [])

  unfoldable pub connection_state_topic : String → String
  connection_state_topic ha_id = status (ha_id ∷ "connection_state" ∷ [])

  unfoldable pub legacy_states : String → List (String × ℤ) → List String
  unfolding legacy_state
  legacy_states base [] = []
  legacy_states base ((feature, uid) ∷ fs) = legacy_state base feature uid ∷ legacy_states base fs

  unfoldable pub current_states : String → List (String × ℤ) → List String
  current_states ha_id [] = []
  current_states ha_id ((feature, uid) ∷ fs) = state sh ha_id feature uid ∷ current_states ha_id fs

  -- The two halves of the body of legacySweepPlan's loop
  unfoldable pub old_topics : String → SweepDevice → List String
  unfolding legacy_base legacy_availability legacy_connection_state legacy_states first_segment
  old_topics root d =
      if is_function (first_segment d.device_name)
      then []
      else legacy_availability (legacy_base root d.device_name)
        ∷ legacy_connection_state (legacy_base root d.device_name)
        ∷ legacy_states (legacy_base root d.device_name) d.features

  unfoldable pub old_filter : String → SweepDevice → List String
  unfolding legacy_base first_segment
  old_filter root d =
      if is_function (first_segment d.device_name)
      then []
      else (legacy_base root d.device_name ^^ "/#") ∷ []

  unfoldable pub current_items : SweepDevice → List String
  unfolding online_topic connection_state_topic current_states
  current_items d =
      online_topic d.ha_id ∷ connection_state_topic d.ha_id ∷ current_states d.ha_id d.features

  unfoldable pub add_device : String → SweepDevice → SweepPlan → SweepPlan
  unfolding old_topics old_filter status_prefix current_items
  add_device root d plan = record {
    filters = plan.filters ++ old_filter root d ++ (status_prefix d.ha_id ^^ "#") ∷ [];
    legacy = plan.legacy ++ old_topics root d;
    current = insert (status_prefix d.ha_id) (current_items d) plan.current;
  }

  unfoldable pub add_devices : String → List SweepDevice → SweepPlan → SweepPlan
  unfolding add_device
  add_devices root [] plan = plan
  add_devices root (d ∷ ds) plan = add_devices root ds (add_device root d plan)

  -- legacySweepPlan
  unfoldable pub legacy_sweep_plan : String → List SweepDevice → SweepPlan
  unfolding legacy_bridge add_devices
  legacy_sweep_plan root ds =
      add_devices root ds (record {
        filters = legacy_bridge root ∷ [];
        legacy = legacy_bridge root ∷ [];
        current = [];
      })
