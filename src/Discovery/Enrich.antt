-- ===== src/Discovery/Enrich.antt =====
-- enrichDescription and localizeDescriptionOptions of internal/hass/hamqtt.go: what the operator
-- configured and the language put over a description.
use go_homeconnect2mqtt.Base.{
  String, Bool, true, false, Option, none, some, List, [], ◌∷◌, from_option, if◌then◌else◌,
}
use go_homeconnect2mqtt.Base.Keys.{◌==◌, text_key}
use go_homeconnect2mqtt.Entity.{Entity}
use go_homeconnect2mqtt.Slug.{fold}
use go_homeconnect2mqtt.Translation.{enum_label}
use go_homeconnect2mqtt.Command.Programs.{text_ltb}
use go_homeconnect2mqtt.Discovery.{Platform, sensor, binary_sensor}
use go_homeconnect2mqtt.Discovery.Describe.{Description, Overrides, Setup, device_class_allowed}

-- entityCategoryAllowed
unfoldable pub entity_category_allowed : Platform → String → Bool
entity_category_allowed p cat =
    if cat == ""
    then true
    else if cat == "diagnostic"
    then true
    else if cat == "config"
    then (elim p [ sensor ↦ false | binary_sensor ↦ false | _ ↦ true ])
    else false

abbrev enable : Option Bool → Option Bool → Option Bool
enable none old = old
enable (some true) old = none
enable (some false) old = some false

abbrev allowed_or : (String → Bool) → Option String → String → String
allowed_or allowed none old = old
allowed_or allowed (some new) old = if allowed new then new else old

module _ {F : Type 0} where
  module _ (setup : Setup F) where
    overlaid : Overrides → Platform → Description F → Description F
    unfolding entity_category_allowed device_class_allowed
    overlaid o p d = record d {
      name = from_option d.name o.localized_name;
      device_class = allowed_or (device_class_allowed setup p) o.device_class d.device_class;
      unit = from_option d.unit o.unit;
      state_class = from_option d.state_class o.state_class;
      category = allowed_or (entity_category_allowed p) o.entity_category d.category;
      enabled = enable o.enabled_by_default d.enabled;
    }

    -- enrichDescription
    unfoldable pub enrich_description : Entity F → Platform → Description F → Description F
    unfolding overlaid
    enrich_description e p d = elim setup.enrich [
      | none ↦ d
      | some f ↦ if e.desc.name == "" then d else overlaid (f e.desc.name) p d
    ]

    -- The order of the labels
    abbrev label_of : String → String
    unfolding enum_label
    label_of c = enum_label setup.lower setup.labels c setup.language

    label_ltb : String → String → Bool
    unfolding label_of fold
    label_ltb a b =
        let ka = fold setup.lower_rune (label_of a) in
        let kb = fold setup.lower_rune (label_of b) in
        if ka == kb then text_ltb (label_of a) (label_of b) else text_ltb ka kb

    -- One step of the stable sort: `x` stands before what it is not behind.
    insert_by_label : String → List String → List String
    unfolding label_ltb
    insert_by_label x [] = x ∷ []
    insert_by_label x (y ∷ ys) =
        let rest = insert_by_label x ys in if label_ltb y x then y ∷ rest else x ∷ y ∷ ys

    sort_localized : List String → List String
    unfolding insert_by_label
    sort_localized [] = []
    sort_localized (x ∷ xs) = insert_by_label x (sort_localized xs)

    -- the labels that are not their codes
    changed_labels : List String → List (String × String)
    unfolding label_of
    changed_labels [] = []
    changed_labels (c ∷ cs) =
        let rest = changed_labels cs in if label_of c == c then rest else (c, label_of c) ∷ rest

    -- localizeDescriptionOptions
    unfoldable pub localize_options : Description F → Description F
    unfolding sort_localized changed_labels
    localize_options d = elim d.options [
      | none ↦ d
      | some o ↦
          let codes = sort_localized o.codes in
          record d { options = some (record { codes = codes; labels = changed_labels codes }) }
    ]
