-- ===== src/Discovery/Model/Valid.antt =====
-- What Home Assistant takes of a description, and that sanitizeDescriptionForPlatform of
-- internal/hass/hamqtt.go yields nothing else.
use go_homeconnect2mqtt.Base.{
  String, ◌≡◌, ◌⊎◌, inl, inr, refl, true, false, not, ◌&&◌, ◌||◌, Bool-cases, Option, none, some,
  is_some, List, arith,
}
use go_homeconnect2mqtt.Base.Keys.{◌==◌, ==_iff, text_key}
use go_homeconnect2mqtt.Discovery.{
  Platform, sensor, binary_sensor, switch, select, number, button, is_sensor, is_number, Relations,
}
use go_homeconnect2mqtt.Discovery.Describe.{Description, Setup, device_class_allowed}
use go_homeconnect2mqtt.Discovery.Enrich.{entity_category_allowed}
use go_homeconnect2mqtt.Discovery.Sanitize.{
  renderable_category, table_refuses, reconciled_in, reconcile_sensor_classes, kept_for,
  sensor_kept, sanitize,
}

-- Device class, unit and state class as Home Assistant's tables let a sensor combine them
abbrev pub Combine : Option Relations → String → String → String → Type 0
Combine none dc unit sc = dc ≡ ""
Combine (some t) dc unit sc =
    (dc ≡ "")
    ⊎ (((t.numeric dc ≡ true) ⊎ ((unit ≡ "") × (sc ≡ "")))
        × (table_refuses (t.units dc) unit ≡ false)
        × (table_refuses (t.state_classes dc) sc ≡ false))

module _ {F : Type 0} (setup : Setup F) where
  -- A sensor with options is of the class enum and has no unit and no state class; any other has no
  -- options, and its class, unit and state class combine.
  abbrev pub SensorFits : Description F → Type 0
  SensorFits d =
      ((d.device_class ≡ "enum")
        × (is_some d.options ≡ true)
        × (d.unit ≡ "")
        × (d.state_class ≡ ""))
      ⊎ ((d.options ≡ none) × Combine setup.tables.relations d.device_class d.unit d.state_class)

  abbrev pub Fits : Platform → Description F → Type 0
  Fits p d =
      ((d.device_class ≡ "") ⊎ (device_class_allowed setup p d.device_class ≡ true))
      × (entity_category_allowed p d.category ≡ true)
      × ((d.unit ≡ "") ⊎ ((is_sensor p || is_number p) ≡ true))
      × ((d.state_class ≡ "") ⊎ (is_sensor p ≡ true))
      × ((is_sensor p ≡ false) ⊎ SensorFits d)

  category_stays :
      (p : Platform) (cat : String) → entity_category_allowed p (renderable_category p cat) ≡ true
  unfolding renderable_category
  category_stays p cat = elim (Bool-cases (entity_category_allowed p cat)) [
    | inl fine ↦ rw (renderable_category, fine) fine
    | inr refused ↦ elim (Bool-cases (cat == "config")) [
      | inl config ↦ rw (renderable_category, refused, config) refl
      | inr other ↦ rw (renderable_category, refused, other) refl
    ]
  ]

  class_stays :
      (p : Platform) (d : Description F)
      → (let c = (kept_for setup p d).device_class in
          (c ≡ "") ⊎ (device_class_allowed setup p c ≡ true))
  unfolding kept_for
  class_stays p d =
      elim (Bool-cases
        (not (d.device_class == "") && not (device_class_allowed setup p d.device_class))) [
          | inl refused ↦ rw refused (inl refl)
          | inr fine ↦ elim (Bool-cases (d.device_class == "")) [
            | inl empty ↦ rw fine (inl ((==_iff d.device_class "").0 empty))
            | inr full ↦ rw fine (inr (ground arith))
          ]
        ]

  unit_stays :
      (p : Platform) (d : Description F)
      → ((kept_for setup p d).unit ≡ "") ⊎ ((is_sensor p || is_number p) ≡ true)
  unfolding kept_for
  unit_stays p d = elim (Bool-cases (is_sensor p || is_number p)) [
    | inl measured ↦ inr measured
    | inr other ↦ rw other (inl refl)
  ]

  -- the three fields that a reconciliation yields
  abbrev Reconciled : Option Relations → String → String → String × String × String → Type 0
  Reconciled t dc unit r =
      ((r.0 ≡ "") ⊎ (r.0 ≡ dc)) × ((r.1 ≡ "") ⊎ (r.1 ≡ unit)) × Combine t r.0 r.1 r.2

  table_refuses_nothing : (t : Option (List String)) → table_refuses t "" ≡ false
  unfolding table_refuses
  table_refuses_nothing none = refl
  table_refuses_nothing (some vs) = refl

  reconciled_in-Reconciled :
      (t : Relations) (dc unit sc : String)
      → Reconciled (some t) dc unit (reconciled_in t dc unit sc)
  unfolding reconciled_in
  reconciled_in-Reconciled t dc unit sc = elim (Bool-cases (t.numeric dc)) [
    | inr textual ↦
        rw (reconciled_in, textual)
          (
            inr refl,
            inl refl,
            inr (
              inr (refl, refl),
              table_refuses_nothing (t.units dc),
              table_refuses_nothing (t.state_classes dc),
            ),
          )
    | inl numbers ↦ elim (Bool-cases (table_refuses (t.units dc) unit)) [
      | inl refused ↦ rw (reconciled_in, numbers, refused) (inl refl, inr refl, inl refl)
      | inr fine ↦ elim (Bool-cases (table_refuses (t.state_classes dc) sc)) [
        | inl dropped ↦
            rw (reconciled_in, numbers, fine, dropped)
              (
                inr refl,
                inr refl,
                inr (inl numbers, fine, table_refuses_nothing (t.state_classes dc)),
              )
        | inr kept ↦
            rw (reconciled_in, numbers, fine, kept)
              (inr refl, inr refl, inr (inl numbers, fine, kept))
      ]
    ]
  ]

  reconcile-Reconciled :
      (t : Option Relations) (dc unit sc : String)
      → Reconciled t dc unit (reconcile_sensor_classes t dc unit sc)
  unfolding reconcile_sensor_classes
  reconcile-Reconciled none dc unit sc = elim (Bool-cases (dc == "")) [
    | inl empty ↦ rw (reconcile_sensor_classes, empty) (inr refl, inr refl, (==_iff dc "").0 empty)
    | inr full ↦ rw (reconcile_sensor_classes, full) (inl refl, inr refl, refl)
  ]
  reconcile-Reconciled (some t) dc unit sc = elim (Bool-cases (dc == "")) [
    | inl empty ↦
        rw (reconcile_sensor_classes, empty) (inr refl, inr refl, inl ((==_iff dc "").0 empty))
    | inr full ↦ rw (reconcile_sensor_classes, full) (reconciled_in-Reconciled t dc unit sc)
  ]

  -- what stays allowed when the reconciliation drops the class
  allowed_after :
      (p : Platform) (old new : String)
      → (new ≡ "") ⊎ (new ≡ old)
      → (old ≡ "") ⊎ (device_class_allowed setup p old ≡ true)
      → (new ≡ "") ⊎ (device_class_allowed setup p new ≡ true)
  allowed_after p old new (inl gone) h = inl gone
  allowed_after p old new (inr same) h = rw same h

  classless : (t : Option Relations) (unit sc : String) → Combine t "" unit sc
  classless none unit sc = refl
  classless (some t) unit sc = inl refl

  sensor_kept-Fits :
      (d : Description F)
      → (d.device_class ≡ "") ⊎ (device_class_allowed setup sensor d.device_class ≡ true)
      → entity_category_allowed sensor d.category ≡ true
      → Fits sensor (sensor_kept setup d)
  unfolding sensor_kept
  sensor_kept-Fits d c cat = elim (Bool-cases (d.device_class == "enum")) [
    | inl enumerated ↦
        let class : d.device_class ≡ "enum" = (==_iff d.device_class "enum").0 enumerated in
        elim (Bool-cases (is_some d.options)) [
          | inl listed ↦
              rw (sensor_kept, enumerated, listed)
                (c, cat, inl refl, inl refl, inr (inl (class, listed, refl, refl)))
          | inr unlisted ↦
              rw (sensor_kept, enumerated, unlisted)
                (
                  inl refl,
                  cat,
                  inr refl,
                  inr refl,
                  inr (
                      inr (
                        none_of d.options unlisted,
                        classless setup.tables.relations d.unit d.state_class,
                      )),
                )
        ]
    | inr other ↦
        let (class, unit, combined) =
          reconcile-Reconciled setup.tables.relations d.device_class d.unit d.state_class in
        rw (sensor_kept, other)
          (
            allowed_after sensor d.device_class _ class c,
            cat,
            inr refl,
            inr refl,
            inr (inr (refl, combined)),
          )
  ]
    where
      none_of : {A : Type 0} (o : Option A) → is_some o ≡ false → o ≡ none
      none_of none h = refl
      none_of (some a) h = cc

  -- What sanitizeDescriptionForPlatform leaves is a description that Home Assistant takes on that
  -- platform: class and category are allowed there, only a sensor or a number has a unit and only a
  -- sensor a state class; a sensor has options exactly where its class is enum, and else its class,
  -- unit and state class are a combination of Home Assistant's tables.
  pub sanitize-Fits : (p : Platform) (d : Description F) → Fits p (sanitize setup p d)
  unfolding sanitize
  sanitize-Fits sensor d =
      sensor_kept-Fits (kept_for setup sensor d) (class_stays sensor d)
        (category_stays sensor d.category)
  sanitize-Fits binary_sensor d = (
    class_stays binary_sensor d,
    category_stays binary_sensor d.category,
    inl refl,
    inl refl,
    inl refl,
  )
  sanitize-Fits switch d =
      (class_stays switch d, category_stays switch d.category, inl refl, inl refl, inl refl)
  sanitize-Fits select d =
      (class_stays select d, category_stays select d.category, inl refl, inl refl, inl refl)
  sanitize-Fits button d =
      (class_stays button d, category_stays button d.category, inl refl, inl refl, inl refl)
  sanitize-Fits number d =
      (class_stays number d, category_stays number d.category, inr refl, inl refl, inl refl)
