-- ===== src/Ownership.antt =====
-- internal/hass/discovery.go and internal/hass/tombstone.go: which retained discovery configs are this
-- instance's, and which components of a document the next one removes. Decoding JSON, and the
-- Component, Bundle and ConfigTopic of go-hamqtt with their methods, are parameters.
pub mod Nested
pub mod Tombstones
use Prim.Native.Char.{code}
use Prim.Native.String.{◌++◌ as ◌^^◌}
use go_homeconnect2mqtt.Base.{
  String, ◌≡◌, ◌≢◌, Bool, true, false, not, ◌&&◌, ◌||◌, Option, none, some, is_some, List, [], ◌∷◌,
  ◌++◌, map, nat_beq, if◌then◌else◌,
}
use go_homeconnect2mqtt.Base.Keys.{◌==◌, text_key, lookup, insert}
use go_homeconnect2mqtt.Entity.{is_nil}
use go_homeconnect2mqtt.Layout.{cut_prefix, slash}
use go_homeconnect2mqtt.Migration.{legacy_bridge, has_topic}
use go_homeconnect2mqtt.Discovery.Describe.{sort_strings}

-- strings.Contains(s, "/")
unfoldable pub contains_slash : String → Bool
contains_slash String.[] = false
contains_slash (String.◌∷◌ c s) = nat_beq (code c) slash || contains_slash s

-- strings.CutSuffix
unfoldable pub cut_suffix : String → String → Option String
cut_suffix suffix String.[] = if "" == suffix then some "" else none
cut_suffix suffix (String.◌∷◌ c s) =
    let rest = cut_suffix suffix s in
    if String.◌∷◌ c s == suffix
    then some ""
    else elim rest [ none ↦ none | some front ↦ some (String.◌∷◌ c front) ]

-- singleLevel
unfoldable pub single_level : String → Bool
unfolding contains_slash
single_level s = not (s == "") && not (contains_slash s)

-- retainedConfig
pub record RetainedConfig : Type 0 where
  pub unique_id : String
  pub state_topic : String
  pub command_topic : String
  pub availability_topic : String
  pub availability : List String

-- retainedConfig.topics
unfoldable pub topics : RetainedConfig → List String
topics cfg = cfg.state_topic ∷ cfg.command_topic ∷ cfg.availability_topic ∷ cfg.availability

-- publisher.ConfigTopic
pub record ConfigTopic : Type 0 where
  pub is_bundle : Bool
  pub platform : String
  pub node_id : String
  pub object_id : String

-- publishedPlatforms
abbrev pub published_platforms : List String
published_platforms = "sensor" ∷ "binary_sensor" ∷ "switch" ∷ "select" ∷ "number" ∷ "button" ∷ []

-- The node set of OwnsConfigTopic; `sanitize` is the function of that name.
unfoldable pub node_ids : (String → String) → List String → List String
node_ids sanitize [] = []
node_ids sanitize (device ∷ devices) =
    let rest = node_ids sanitize devices in
    if sanitize device == "" then rest else sanitize device ∷ rest

-- OwnsConfigTopic
unfoldable pub owns_config_topic : (String → String) → List String → ConfigTopic → Bool
unfolding node_ids has_topic
owns_config_topic sanitize devices t =
    if t.is_bundle || t.platform == "" || t.node_id == "" || t.object_id == ""
    then false
    else if not (has_topic t.platform published_platforms)
    then false
    else has_topic t.node_id (node_ids sanitize devices)

-- The root topic, and Instance.Connected: the two texts of Discovery that ownership reads.
pub record Instance : Type 0 where
  pub root_topic : String
  pub connected : String

module _ (inst : Instance) where
  open inst use {root_topic, connected}

  -- The branch of isIdentityAnchor for the appliance's `online` item
  unfoldable pub is_online_anchor : String → Bool
  unfolding cut_prefix cut_suffix single_level
  is_online_anchor rel = elim (cut_prefix "status/" rel) [
    | none ↦ false
    | some item ↦ elim (cut_suffix "/online" item) [
      | none ↦ false
      | some ha_id ↦ single_level ha_id
    ]
  ]

  unfoldable pub is_availability_anchor : String → Bool
  unfolding cut_suffix single_level
  is_availability_anchor rel = elim (cut_suffix "/availability" rel) [
    | none ↦ false
    | some device ↦ single_level device
  ]

  -- isIdentityAnchor
  unfoldable pub is_identity_anchor : String → Bool
  unfolding legacy_bridge is_online_anchor is_availability_anchor
  is_identity_anchor topic =
      if topic == legacy_bridge root_topic || topic == connected
      then true
      else elim (cut_prefix (root_topic ^^ "/") topic) [
        | none ↦ false
        | some rel ↦ if is_online_anchor rel then true else is_availability_anchor rel
      ]

  -- The loop of IsOwnConfig; `anchored` is the variable of that name.
  unfoldable pub all_under_root : Bool → List String → Bool
  unfolding cut_prefix is_identity_anchor
  all_under_root anchored [] = anchored
  all_under_root anchored (topic ∷ rest) =
      let passed = all_under_root anchored rest in
      let proven = all_under_root true rest in
      if topic == ""
      then passed
      else if not (is_some (cut_prefix (root_topic ^^ "/") topic))
      then false
      else if is_identity_anchor topic
      then proven
      else passed

  -- IsOwnConfig behind json.Unmarshal
  unfoldable pub is_own : RetainedConfig → Bool
  unfolding all_under_root topics cut_prefix
  is_own cfg =
      if not (is_some (cut_prefix "homeconnect_" cfg.unique_id))
      then false
      else all_under_root false (topics cfg)

  -- IsOwnConfig
  unfoldable pub is_own_config : {Raw : Type 0} → (Raw → Option RetainedConfig) → Raw → Bool
  unfolding is_own
  is_own_config decode raw = elim (decode raw) [ none ↦ false | some cfg ↦ is_own cfg ]

-- discovery.Component, as far as it is read
pub record DocumentPart : Type 0 where
  pub platform : String
  pub unique_id : String

-- discovery.Bundle: its components and RemoveComponents, which leaves of each key that it is given and
-- that the earlier document had an entry with the platform alone.
pub record Bundles : Type 1 where
  pub Bundle : Type 0
  pub parts : Bundle → List (String × DocumentPart)
  pub remove_components : List (String × DocumentPart) → List String → Bundle → Bundle
  pub kept_by_remove :
      (prior : List (String × DocumentPart)) (keys : List String) (key : String) (b : Bundle)
      → has_topic key keys ≡ false
      → lookup key (parts (remove_components prior keys b)) ≡ lookup key (parts b)
  pub left_by_remove :
      (prior : List (String × DocumentPart)) (keys : List String) (key : String)
      (part : DocumentPart) (b : Bundle)
      → has_topic key keys ≡ true
      → lookup key prior ≡ some part
      → lookup key (parts (remove_components prior keys b))
        ≡ some (record { platform = part.platform; unique_id = "" })

-- What the two functions below that read a document need of encoding/json.
pub record Decoders : Type 1 where
  pub Raw : Type 0
  pub read_components : Raw → Option (List (String × Raw))
  pub read_part : Raw → Option DocumentPart
  pub read_config : Raw → Option RetainedConfig

module _ (inst : Instance) (decoders : Decoders) where
  open decoders use {Raw, read_components, read_part, read_config}

  -- one turn of the loop of BundleComponents
  unfoldable pub own_part : Raw → Option DocumentPart
  unfolding is_own_config
  own_part raw = elim (read_part raw) [
    | none ↦ none
    | some part ↦
        if part.platform == ""
        then none
        else if is_own_config inst read_config raw
        then some part
        else none
  ]

  unfoldable pub own_parts : List (String × Raw) → List (String × DocumentPart)
  unfolding own_part
  own_parts [] = []
  own_parts ((key, raw) ∷ rest) =
      let later = own_parts rest in
      elim (own_part raw) [ none ↦ later | some part ↦ (key, part) ∷ later ]

  -- BundleComponents; nil and the empty map are one value here.
  unfoldable pub bundle_components : Raw → List (String × DocumentPart)
  unfolding own_parts
  bundle_components payload = elim (read_components payload) [
    | none ↦ []
    | some doc ↦ own_parts doc
  ]

-- LiveComponents
unfoldable pub live_components : List (String × DocumentPart) → List (String × DocumentPart)
live_components [] = []
live_components ((key, part) ∷ rest) =
    let later = live_components rest in
    if not (part.platform == "") && not (part.unique_id == "") then (key, part) ∷ later else later

-- The keys of ApplyTombstones that the new document does not declare
unfoldable pub gone_keys : List (String × DocumentPart) → List (String × DocumentPart) → List String
gone_keys parts [] = []
gone_keys parts ((key, part) ∷ prior) =
    let rest = gone_keys parts prior in if is_some (lookup key parts) then rest else key ∷ rest

module _ (bundles : Bundles) where
  open bundles use {Bundle, parts, remove_components}

  -- ApplyTombstones: the document, and the keys that it marked.
  unfoldable pub apply_tombstones : List (String × DocumentPart) → Bundle → Bundle × List String
  unfolding gone_keys sort_strings
  apply_tombstones prior b =
      let gone = sort_strings (gone_keys (parts b) prior) in
      if is_nil gone then (b, []) else (remove_components prior gone b, gone)
