-- ===== src/Discovery/Model/Rendered.antt =====
-- Every component of the discovery document of internal/hass/hamqtt.go is one that Home Assistant
-- takes.
use go_homeconnect2mqtt.Base.{
  ℕ, String, inl, inr, ◌&&◌, Bool-cases, Option-cases, List, [], ◌∷◌, All, All-append,
}
use go_homeconnect2mqtt.Base.Keys.{text_key}
use go_homeconnect2mqtt.Entity.{Entity}
use go_homeconnect2mqtt.Layout.{SmartHome, control_start_program, control_stop_program}
use go_homeconnect2mqtt.Discovery.{Platform, button, classify}
use go_homeconnect2mqtt.Discovery.Describe.{Setup, describe}
use go_homeconnect2mqtt.Discovery.Enrich.{enrich_description, localize_options}
use go_homeconnect2mqtt.Discovery.Model.{
  Component, Exposure, skipped, omitted, shown, is_disabled, is_excluded, has_program, as_text,
  finished, expose, collect, features, in_language, button_description, program_button,
  program_controls, hamqtt_model,
}
use go_homeconnect2mqtt.Discovery.Model.Valid.{Fits, sanitize-Fits}

module _ {F : Type 0} (sh : SmartHome) (setup : Setup F) where
  abbrev pub ComponentFits : Component F → Type 0
  ComponentFits c = Fits setup c.platform c.description

  abbrev ShownFits : Exposure F → Type 0
  ShownFits (shown c) = ComponentFits c
  ShownFits _ = Unit

  finished-Fits : (e : Entity F) (p : Platform) → Fits setup p (finished sh setup e p)
  unfolding finished
  finished-Fits e p = sanitize-Fits setup p (
      as_text sh setup e p
        (localize_options setup (enrich_description setup e p (describe setup e p))))

  expose-ShownFits : (e : Entity F) → ShownFits (expose sh setup e)
  unfolding expose
  expose-ShownFits e = elim (Bool-cases (is_excluded sh setup e)) [
    | inl out ↦ rw (expose, out) tt
    | inr in_document ↦ elim (Option-cases (classify e)) [
      | inl gone ↦ rw (expose, in_document, gone) tt
      | inr (p, placed) ↦
          elim (Bool-cases (setup.curated && is_disabled (finished sh setup e p).enabled)) [
            | inl left ↦ rw (expose, in_document, placed, left) tt
            | inr kept ↦ rw (expose, in_document, placed, kept) (finished-Fits e p)
          ]
    ]
  ]

  features-ComponentFits : (es : List (Entity F)) → All ComponentFits (features sh setup es).0
  unfolding features
  features-ComponentFits [] = tt
  features-ComponentFits (e ∷ es) =
      collected (expose sh setup e) (features sh setup es) (expose-ShownFits e)
        (features-ComponentFits es)
    where
      collected :
          (x : Exposure F) (r : List (Component F) × ℕ)
          → ShownFits x
          → All ComponentFits r.0
          → All ComponentFits (collect sh setup x r).0
      collected skipped r h hs = hs
      collected omitted r h hs = hs
      collected (shown c) r h hs = (h, hs)

  program_button-ComponentFits :
      (key name : String) → ComponentFits (program_button sh setup key name)
  unfolding program_button
  program_button-ComponentFits key name =
      sanitize-Fits setup button (button_description sh setup name)

  program_controls-ComponentFits :
      (es : List (Entity F)) → All ComponentFits (program_controls sh setup es)
  unfolding program_controls
  program_controls-ComponentFits es = elim (Bool-cases (has_program es)) [
    | inl choice ↦
        let start = in_language sh setup "Programm starten" "Start program" in
        let halt = in_language sh setup "Programm stoppen" "Stop program" in
        rw (program_controls, choice)
          (
            program_button-ComponentFits control_start_program start,
            (program_button-ComponentFits control_stop_program halt, tt),
          )
    | inr no_choice ↦ rw (program_controls, no_choice) tt
  ]

  -- Home Assistant takes every component of the document on its platform: its device class and its
  -- category are allowed there, its unit and state class stand on a sensor (the unit on a number
  -- too), a sensor has options exactly where its class is enum, and class, unit and state class of
  -- another sensor are a combination of Home Assistant's tables.
  pub rendered_components_fit :
      (es : List (Entity F)) → All ComponentFits (hamqtt_model sh setup es).0
  unfolding hamqtt_model
  rendered_components_fit es =
      All-append ComponentFits (features sh setup es).0 (program_controls sh setup es)
        (features-ComponentFits es) (program_controls-ComponentFits es)
