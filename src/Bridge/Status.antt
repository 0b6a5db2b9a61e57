-- ===== src/Bridge/Status.antt =====
-- What the status of an active or selected program shows.
use go_homeconnect2mqtt.Base.{String, ◌≡◌, refl, ◌⊎◌, inl, inr, true, false, not, ◌&&◌, Bool-cases}
use go_homeconnect2mqtt.Value.{Value, null, bool, int, int64, float, str, composite, Host}
use go_homeconnect2mqtt.Entity.{Entity, is_enum, value, has_enum_name}
use go_homeconnect2mqtt.Bridge.{is_choice, is_null, program_value, choice_value, status_value}

module _ (host : Host) where
  open host use {Float}

  -- A text, by a name of the enumeration where there is one.
  abbrev IsChoice : Entity Float → Value Float → Type 0
  IsChoice e v =
      (v ≡ str "None")
      ⊎ ((s : String) × (v ≡ str s) × ((is_enum e.desc && not (has_enum_name host s e)) ≡ false))

  program_value-IsChoice :
      (e : Entity Float) (v : Value Float) → IsChoice e (program_value host e v)
  unfolding program_value
  program_value-IsChoice e (str s) =
      elim (Bool-cases (is_enum e.desc && not (has_enum_name host s e))) [
        | inl q ↦ rw (program_value, q) (inl refl)
        | inr q ↦ rw (program_value, q) (inr (s, refl, q))
      ]
  program_value-IsChoice e null = inl refl
  program_value-IsChoice e (bool b) = inl refl
  program_value-IsChoice e (int n) = inl refl
  program_value-IsChoice e (int64 n) = inl refl
  program_value-IsChoice e (float x) = inl refl
  program_value-IsChoice e (composite s) = inl refl

  choice_value-IsChoice :
      (e : Entity Float) (v : Value Float)
      → is_choice e.desc.kind ≡ true
      → (choice_value host e v ≡ null) ⊎ IsChoice e (choice_value host e v)
  unfolding choice_value
  choice_value-IsChoice e v h = elim (Bool-cases (is_null v)) [
    | inl q ↦ rw (choice_value, q) (inl refl)
    | inr q ↦ rw (choice_value, q, h) (inr (program_value-IsChoice e v))
  ]

  -- The status of an active or selected program is empty, "None", or a text, which is a name of the
  -- enumeration where the feature has one: never a raw uid that is no option of the select.
  pub status_value-IsChoice :
      (e : Entity Float)
      → is_choice e.desc.kind ≡ true
      → (status_value host e ≡ null) ⊎ IsChoice e (status_value host e)
  unfolding status_value
  status_value-IsChoice e h = choice_value-IsChoice e (value host e) h
