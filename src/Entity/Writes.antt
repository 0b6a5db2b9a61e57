-- ===== src/Entity/Writes.antt =====
-- resolveWriteValue and Value of internal/homeconnect/entities.go.
use go_homeconnect2mqtt.Base.{
  String, ◌≡◌, ◌⊎◌, refl, Bool, true, false, none, some, List, [], ◌∷◌, ok, err_ok, ok_ok, sym, inl,
  inr, Option, Option-cases, Bool-cases, arith,
}
use go_homeconnect2mqtt.Base.Int.{ℤ}
use go_homeconnect2mqtt.Base.Keys.{==_iff, text_key, int_key, lookup, lookup-insert}
use go_homeconnect2mqtt.Value.{
  Value, bool, int, int64, float, str, Host, ProtocolType, boolean, integer, floating, string,
  object, other, as_int, null, composite, cast_value,
}
use go_homeconnect2mqtt.Entity.{
  Entry, Entity, by_type, by_name, member, reversed, is_enum, value, update, resolve_write_value,
}

abbrev pub is_bool : {F : Type 0} → Value F → Bool
is_bool (bool _) = true
is_bool _ = false

abbrev pub is_int : {F : Type 0} → Value F → Bool
is_int (int _) = true
is_int _ = false

-- A JSON number as a feature of type float is written: a float, or an integer for a step of one.
abbrev pub is_number : {F : Type 0} → Value F → Bool
is_number (float _) = true
is_number (int64 _) = true
is_number _ = false

-- What a feature of each protocol type is sent for the value `v`.
abbrev pub Fits : {F : Type 0} → ProtocolType → Value F → Value F → Type 0
Fits boolean v w = is_bool w ≡ true
Fits integer v w = is_int w ≡ true
Fits floating v w = is_number w ≡ true
Fits _ v w = w ≡ v

module _ (host : Host) where
  open host use {Float, lower, atoi, trim_space}

  -- A text for an enumerated feature, and the number that is sent for it: that of the member with
  -- this name, in any case, or where there is none the number that the text spells.
  abbrev pub IsMember : Entity Float → Value Float → Value Float → Type 0
  IsMember e v w =
      (is_enum e.desc ≡ true)
      × ((s : String) × ((n : ℤ) × ((v ≡ str s)
              × ((w ≡ int n)
                  × ((lookup (lower s) e.rev_enum ≡ some n)
                      ⊎ ((lookup (lower s) e.rev_enum ≡ none) × (atoi (trim_space s) ≡ some n)))))))

  by_type-Fits :
      (t : ProtocolType) (step : Option Float) (v w : Value Float)
      → by_type host t step v ≡ ok w
      → Fits t v w
  unfolding by_type
  by_type-Fits boolean step v w h = rw (← ok_ok h) refl
  by_type-Fits integer step v w h = elim (Option-cases (as_int host v)) [
    | inl e ↦ err_ok (rw (by_type, e) at h)
    | inr (n, e) ↦ let sent : int n ≡ w = ok_ok (rw (by_type, e) at h) in rw (← sent) refl
  ]
  by_type-Fits floating step v w h = ground arith
  by_type-Fits string step v w h = sym (ok_ok h)
  by_type-Fits object step v w h = sym (ok_ok h)
  by_type-Fits (other t) step v w h = sym (ok_ok h)

  member-IsMember :
      (e : Entity Float) (s : String) (w : Value Float) (named spelled : Option ℤ)
      → is_enum e.desc ≡ true
      → lookup (lower s) e.rev_enum ≡ named
      → atoi (trim_space s) ≡ spelled
      → member host named spelled ≡ ok w
      → IsMember e (str s) w
  unfolding member
  member-IsMember e s w (some n) spelled m f g h = (m, (s, (n, (refl, (sym (ok_ok h), inl f)))))
  member-IsMember e s w none (some n) m f g h = (m, (s, (n, (refl, (sym (ok_ok h), inr (f, g))))))
  member-IsMember e s w none none m f g h = err_ok h

  -- a value for an enumerated feature
  enumerated_value :
      (v w : Value Float) (e : Entity Float)
      → is_enum e.desc ≡ true
      → elim (by_name host v e) [
        | none ↦ by_type host e.desc.protocol_type e.step_size v
        | some r ↦ r
      ]
        ≡ ok w
      → Fits e.desc.protocol_type v w ⊎ IsMember e v w
  unfolding by_name
  enumerated_value (str s) w e m h =
      inr (member-IsMember e s w (lookup (lower s) e.rev_enum) (atoi (trim_space s)) m refl refl h)
  enumerated_value null w e m h = inl (by_type-Fits e.desc.protocol_type e.step_size null w h)
  enumerated_value (bool b) w e m h =
      inl (by_type-Fits e.desc.protocol_type e.step_size (bool b) w h)
  enumerated_value (int n) w e m h = inl (by_type-Fits e.desc.protocol_type e.step_size (int n) w h)
  enumerated_value (int64 n) w e m h =
      inl (by_type-Fits e.desc.protocol_type e.step_size (int64 n) w h)
  enumerated_value (float x) w e m h =
      inl (by_type-Fits e.desc.protocol_type e.step_size (float x) w h)
  enumerated_value (composite t) w e m h =
      inl (by_type-Fits e.desc.protocol_type e.step_size (composite t) w h)

  -- What is sent has the JSON type of the feature's protocol type, and is the given value itself for a
  -- text, an object and every other type; or the feature is enumerated, the value a text, and what is
  -- sent is the number of the member that the text names in any case, or where it names none the number
  -- that it spells.
  pub resolve_write_value-Fits :
      (v w : Value Float) (e : Entity Float)
      → resolve_write_value host v e ≡ ok w
      → Fits e.desc.protocol_type v w ⊎ IsMember e v w
  unfolding resolve_write_value
  resolve_write_value-Fits v w e h = elim (Bool-cases (is_enum e.desc)) [
    | inr plain ↦
        inl
          (by_type-Fits e.desc.protocol_type e.step_size v w (rw (resolve_write_value, plain) at h))
    | inl m ↦ enumerated_value v w e m (rw (resolve_write_value, m) at h)
  ]

  -- No two members have names that differ in case alone.
  abbrev pub NoClash : List (ℤ × String) → Type 0
  NoClash [] = Unit
  NoClash ((n, name) ∷ rest) = (lookup (lower name) (reversed host rest) ≡ none) × NoClash rest

  lookup-reversed :
      (l : List (ℤ × String)) (n : ℤ) (name : String)
      → NoClash l
      → lookup n l ≡ some name
      → lookup (lower name) (reversed host l) ≡ some n
  unfolding lookup reversed
  lookup-reversed [] n name c h = cc
  lookup-reversed ((j, named) ∷ rest) n name c h = ground (
    arith,
    ==_iff j n,
    ==_iff (lower named) (lower name),
    lookup-insert (lower named) (lower name) j (reversed host rest),
    lookup-reversed rest n name c.1,
  )

  is_enum_of_lookup :
      (d : Entry Float) (n : ℤ) (name : String)
      → lookup n d.enumeration ≡ some name
      → is_enum d ≡ true
  unfolding lookup
  is_enum_of_lookup d n name h = ground arith

  update_reported :
      (n : ℤ) (e : Entity Float)
      → update host (("value", int n) ∷ []) e ≡ (
          let raw = cast_value host e.desc.protocol_type (int n) in
          record e { value_raw = raw; value_shadow = raw; has_value = true })
  unfolding update lookup
  update_reported n e = refl

  value_reported :
      (n : ℤ) (name : String) (e : Entity Float)
      → is_enum e.desc ≡ true
      → lookup n e.desc.enumeration ≡ some name
      → e.has_value ≡ true
      → e.value_raw ≡ int n
      → value host e ≡ str name
  unfolding value
  value_reported n name e m h v r = ground arith

  resolve_name :
      (e : Entity Float) (n : ℤ) (spelled : String)
      → is_enum e.desc ≡ true
      → lookup (lower spelled) e.rev_enum ≡ some n
      → resolve_write_value host (str spelled) e ≡ ok (int n)
  unfolding resolve_write_value
  resolve_name e n spelled m h = ground arith

  -- An enumerated integer feature with members that differ in more than case: a member's name, in
  -- any case, is written as its number, and once the appliance reports that number the feature
  -- shows the name again.
  pub enum_roundtrip :
      (e : Entity Float) (n : ℤ) (name spelled : String)
      → e.desc.protocol_type ≡ integer
      → e.rev_enum ≡ reversed host e.desc.enumeration
      → NoClash e.desc.enumeration
      → lookup n e.desc.enumeration ≡ some name
      → lower spelled ≡ lower name
      → (resolve_write_value host (str spelled) e ≡ ok (int n))
        × (value host (update host (("value", int n) ∷ []) e) ≡ str name)
  unfolding cast_value
  enum_roundtrip e n name spelled p r c h s =
      let found = lookup-reversed e.desc.enumeration n name c h in
      let m = is_enum_of_lookup e.desc n name h in
      (
        resolve_name e n spelled m (rw (r, s) found),
        rw (update_reported n e) (value_reported n name _ m h refl (rw p refl)),
      )
