-- ===== src/Discovery/Describe.antt =====
-- describe, enrichDescription and localizeDescriptionOptions of internal/hass/hamqtt.go, with
-- enumOptions, humanize and featureKey of internal/hass/payload.go. The operator's overrides
-- (Enricher) are a parameter; discovery.StatusValueTemplate of go-hamqtt is `status_template`.
use Prim.Native.Char.{Char}
use Prim.Native.String.{◌++◌}
use go_homeconnect2mqtt.Base.{
  String, Bool, true, false, not, ◌&&◌, ◌||◌, Option, none, some, List, [], ◌∷◌, map, if◌then◌else◌,
}
use go_homeconnect2mqtt.Base.Int.{ℤ}
use go_homeconnect2mqtt.Base.Keys.{◌==◌, text_key}
use go_homeconnect2mqtt.Entity.{EntryKind, event, Entity, is_enum}
use go_homeconnect2mqtt.Slug.{slug}
use go_homeconnect2mqtt.Slug.Fixed.{is_capital}
use go_homeconnect2mqtt.Translation.{is_digit}
use go_homeconnect2mqtt.Command.Programs.{text_ltb}
use go_homeconnect2mqtt.Discovery.{
  Platform, sensor, binary_sensor, switch, select, number, button, Floats, Tables, leaf_name,
  is_primary, entity_category_for, state_class_for, device_class_and_unit, number_bounds,
}

-- The codes of an enumeration, and the labels that differ from them.
pub record Choices : Type 0 where
  pub codes : List String
  pub labels : List (String × String)

-- model.Description; no `enabled` is Home Assistant's default, enabled.
pub record Description (F : Type 0) : Type 0 where
  pub name : String
  pub device_class : String
  pub unit : String
  pub state_class : String
  pub category : String
  pub options : Option Choices
  pub min : Option F
  pub max : Option F
  pub step : Option F
  pub extra : List (String × String)
  pub value_template : Option String
  pub enabled : Option Bool

-- What the operator configured for a feature (Enricher), and what has no override.
pub record Overrides : Type 0 where
  pub localized_name : Option String
  pub device_class : Option String
  pub unit : Option String
  pub state_class : Option String
  pub entity_category : Option String
  pub enabled_by_default : Option Bool
  pub excluded : Bool

-- The parameters of a run of discovery.
pub record Setup (F : Type 0) : Type 0 where
  pub floats : Floats F
  pub tables : Tables
  pub lower : String → String
  pub lower_rune : Char → Char
  pub itoa : ℤ → String
  pub labels : List (String × String)
  pub language : String
  pub status_template : String
  pub enrich : Option (String → Overrides)
  pub curated : Bool

-- An insertion of sortStrings, and the sort.
unfoldable pub insert_text : String → List String → List String
insert_text x [] = x ∷ []
insert_text x (y ∷ ys) =
    let rest = insert_text x ys in if text_ltb x y then x ∷ y ∷ ys else y ∷ rest

unfoldable pub sort_strings : List String → List String
unfolding insert_text
sort_strings [] = []
sort_strings (x ∷ xs) = insert_text x (sort_strings xs)

-- The loop of humanize: `prev` is the rune before, where there is one.
unfoldable pub spaced : Option Char → String → String
spaced prev String.[] = ""
spaced none (String.◌∷◌ c s) = String.◌∷◌ c (spaced (some c) s)
spaced (some p) (String.◌∷◌ c s) =
    let rest = String.◌∷◌ c (spaced (some c) s) in
    if is_capital c && not (is_capital p) || is_digit c && not (is_digit p)
    then String.◌∷◌ " " rest
    else rest

abbrev is_event : EntryKind → Bool
is_event event = true
is_event _ = false

truth : List (String × String)
truth = ("payload_on", "true") ∷ ("payload_off", "false") ∷ []

module _ {F : Type 0} where
  -- enumOptions
  unfoldable pub enum_options : Entity F → List String
  unfolding sort_strings
  enum_options e = sort_strings (map (λ x. x.1) e.desc.enumeration)

  module _ (setup : Setup F) where
    -- humanize
    unfoldable pub humanize : Entity F → String
    unfolding spaced
    humanize e =
        if e.desc.name == "" then "UID " ++ setup.itoa e.desc.uid else spaced none (leaf_name e)

    -- featureKey
    unfoldable pub feature_key : Entity F → String
    unfolding slug
    feature_key e =
        if e.desc.name == ""
        then "uid_" ++ setup.itoa e.desc.uid
        else slug setup.lower_rune e.desc.name

    -- what describe derives before it looks at the platform
    plain_description : Entity F → Platform → Description F
    unfolding humanize device_class_and_unit state_class_for entity_category_for is_primary
    plain_description e p = record {
      name = humanize e;
      device_class = (device_class_and_unit e).0;
      unit = (device_class_and_unit e).1;
      state_class = state_class_for e p;
      category = entity_category_for e;
      options = none;
      min = none;
      max = none;
      step = none;
      extra = [];
      value_template = none;
      enabled = if is_primary e then none else some false;
    }

    choices : Entity F → Option Choices
    unfolding enum_options
    choices e = some (record { codes = enum_options e; labels = [] })

    by_platform : Platform → Entity F → Description F → Description F
    unfolding truth choices number_bounds
    by_platform switch e d = record d { extra = truth }
    by_platform binary_sensor e d =
        if is_event e.desc.kind
        then record d {
          extra = ("payload_on", "Present") ∷ ("payload_off", "Off") ∷ [];
          value_template = some setup.status_template;
        }
        else record d { extra = truth }
    by_platform button e d = record d { extra = ("payload_press", "true") ∷ [] }
    by_platform select e d = record d { options = choices e }
    by_platform sensor e d = if is_enum e.desc then record d { options = choices e } else d
    by_platform number e d =
        let (lo, hi, step) = number_bounds setup.floats e in
        record d { min = lo; max = hi; step = step }

    -- describe
    unfoldable pub describe : Entity F → Platform → Description F
    unfolding plain_description by_platform
    describe e p = by_platform p e (plain_description e p)

    -- deviceClassAllowed
    unfoldable pub device_class_allowed : Platform → String → Bool
    device_class_allowed p dc = elim setup.tables.device_classes [ none ↦ false | some t ↦ t p dc ]
