-- ===== src/Discovery/Model.antt =====
-- hamqttModel, hamqttBindings and hamqttProgramControls of internal/hass/hamqtt.go: the components of
-- an appliance's discovery document.
pub mod Valid
pub mod Rendered
use go_homeconnect2mqtt.Base.{
  ℕ, zero, suc, String, Bool, true, false, not, ◌&&◌, ◌||◌, Option, none, some, is_some, List, [],
  ◌∷◌, ◌++◌, if◌then◌else◌,
}
use go_homeconnect2mqtt.Base.Keys.{◌==◌, text_key}
use go_homeconnect2mqtt.Entity.{EntryKind, active_program, selected_program, Entity, is_enum}
use go_homeconnect2mqtt.Layout.{
  SmartHome, feature_item, control_prefix, control_start_program, control_stop_program,
}
use go_homeconnect2mqtt.Discovery.{
  Platform, sensor, binary_sensor, switch, select, number, button, is_sensor, may_write, classify,
  numeric_value,
}
use go_homeconnect2mqtt.Discovery.Describe.{Description, Overrides, Setup, feature_key, describe}
use go_homeconnect2mqtt.Discovery.Enrich.{enrich_description, localize_options}
use go_homeconnect2mqtt.Discovery.Sanitize.{text_sensor_class, sanitize}

-- model.Binding: the path that an entity's state is read from, or that it writes to.
pub data Binding : Type 0 where
  state_of command_of : List String → Binding

-- model.Basic
pub record Component (F : Type 0) : Type 0 where
  pub key : String
  pub platform : Platform
  pub description : Description F
  pub binds : List Binding

-- What becomes of a feature: it is left out, left out by the curated filter, or shown.
pub data Exposure (F : Type 0) : Type 0 where
  skipped omitted : Exposure F
  shown : Component F → Exposure F

abbrev pub is_disabled : Option Bool → Bool
is_disabled (some false) = true
is_disabled _ = false

abbrev is_controllable : Platform → Bool
is_controllable switch = true
is_controllable select = true
is_controllable number = true
is_controllable _ = false

abbrev is_button : Platform → Bool
is_button button = true
is_button _ = false

is_program_choice : EntryKind → Bool
is_program_choice active_program = true
is_program_choice selected_program = true
is_program_choice _ = false

module _ {F : Type 0} where
  -- hamqttBindings
  unfoldable pub bindings : Entity F → Platform → List String → List Binding
  bindings e p path =
      if is_button p
      then command_of path ∷ []
      else if may_write e.desc && is_controllable p
      then state_of path ∷ command_of path ∷ []
      else state_of path ∷ []

  pub has_program : List (Entity F) → Bool
  unfolding is_program_choice
  has_program [] = false
  has_program (e ∷ es) = is_program_choice e.desc.kind || has_program es

  module _ (sh : SmartHome) (setup : Setup F) where
    -- a sensor without a numeric value
    unfoldable pub as_text : Entity F → Platform → Description F → Description F
    unfolding numeric_value text_sensor_class
    as_text e p d =
        if is_sensor p && not (numeric_value e)
        then record d {
          device_class = text_sensor_class setup.tables.relations d.device_class (is_enum e.desc);
          unit = "";
          state_class = "";
        }
        else d

    -- the body of the loop of hamqttModel, from describe to sanitizeDescriptionForPlatform
    unfoldable pub finished : Entity F → Platform → Description F
    unfolding describe enrich_description localize_options as_text sanitize
    finished e p =
        sanitize setup p
          (as_text e p (localize_options setup (enrich_description setup e p (describe setup e p))))

    pub is_excluded : Entity F → Bool
    is_excluded e = elim setup.enrich [
      | none ↦ false
      | some f ↦ not (e.desc.name == "") && (f e.desc.name).excluded
    ]

    -- the body of the loop
    unfoldable pub expose : Entity F → Exposure F
    unfolding is_excluded classify finished bindings feature_item feature_key
    expose e = if is_excluded e then skipped else elim (classify e) [
      | none ↦ skipped
      | some p ↦
          let d = finished e p in
          if setup.curated && is_disabled d.enabled
          then omitted
          else shown (record {
            key = feature_key setup e;
            platform = p;
            description = d;
            binds = bindings e p (feature_item sh e.desc.name e.desc.uid);
          })
    ]

    abbrev pub button_description : String → Description F
    button_description name = record {
      name = name;
      device_class = "";
      unit = "";
      state_class = "";
      category = "";
      options = none;
      min = none;
      max = none;
      step = none;
      extra = ("payload_press", "PRESS") ∷ [];
      value_template = none;
      enabled = none;
    }

    -- a button of hamqttProgramControls
    unfoldable pub program_button : String → String → Component F
    unfolding sanitize
    program_button key name = record {
      key = key;
      platform = button;
      description = sanitize setup button (button_description name);
      binds = command_of (control_prefix ∷ key ∷ []) ∷ [];
    }

    abbrev pub in_language : String → String → String
    in_language de en = if setup.language == "de" then de else en

    -- hamqttProgramControls
    unfoldable pub program_controls : List (Entity F) → List (Component F)
    unfolding has_program program_button
    program_controls es =
        if has_program es
        then program_button control_start_program (in_language "Programm starten" "Start program")
          ∷ program_button control_stop_program (in_language "Programm stoppen" "Stop program")
          ∷ []
        else []

    abbrev pub collect : Exposure F → List (Component F) × ℕ → List (Component F) × ℕ
    collect skipped r = r
    collect omitted (cs, n) = (cs, suc n)
    collect (shown c) (cs, n) = (c ∷ cs, n)

    unfoldable pub features : List (Entity F) → List (Component F) × ℕ
    unfolding expose
    features [] = ([], 0)
    features (e ∷ es) = collect (expose e) (features es)

    -- hamqttModel: the components, and how many the curated filter left out
    unfoldable pub hamqtt_model : List (Entity F) → List (Component F) × ℕ
    unfolding features program_controls
    hamqtt_model es = let r = features es in (r.0 ++ program_controls es, r.1)
