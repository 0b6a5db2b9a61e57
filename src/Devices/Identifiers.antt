-- ===== src/Devices/Identifiers.antt =====
-- The haId of a device (internal/profile/devices.go) as the device segment of a topic.
use Prim.Native.Char.{Char, code}
use go_homeconnect2mqtt.Base.{
  ℕ, String, ◌≡◌, ◌≢◌, inl, inr, refl, true, false, not, ◌&&◌, ◌||◌, Bool-cases, Option, none, some,
  Result, ok, err, nat_beq, arith,
}
use go_homeconnect2mqtt.Base.Keys.{◌==◌, ==_iff, text_key}
use go_homeconnect2mqtt.Devices.{
  DeviceConfig, HaIdError, HaIdSource, has_sign, is_id_sign, all_id_signs, valid_ha_id,
  by_file_name, by_description, resolve_ha_id,
}

-- What is a segment of a topic name and no more.
abbrev pub IsSegment : String → Type 0
IsSegment id =
    (id ≢ "") × (has_sign b'/' id ≡ false) × (has_sign b'+' id ≡ false) × (has_sign b'#' id ≡ false)

id_signs-has_sign :
    (n : ℕ) (s : String)
    → ((c : Char) → is_id_sign c ≡ true → nat_beq (code c) n ≡ false)
    → all_id_signs s ≡ true
    → has_sign n s ≡ false
unfolding all_id_signs has_sign
id_signs-has_sign n String.[] apart h = refl
id_signs-has_sign n (String.◌∷◌ c s) apart h =
    let here : is_id_sign c ≡ true = ground arith in
    let rest : all_id_signs s ≡ true = ground arith in
    rw (apart c here, id_signs-has_sign n s apart rest) refl

pub valid_ha_id-IsSegment : (id : String) → valid_ha_id id ≡ true → IsSegment id
unfolding valid_ha_id
valid_ha_id-IsSegment id h = elim (Bool-cases (id == "." || id == "..")) [
  | inl dots ↦ let no : false ≡ true = rw (valid_ha_id, dots) at h in cc
  | inr fine ↦
      let both : (not (id == "") && all_id_signs id) ≡ true = rw (valid_ha_id, fine) at h in
      let full : (id == "") ≡ false = ground arith in
      let signs : all_id_signs id ≡ true = ground arith in
      (
        λ e. let same : (id == "") ≡ true = (==_iff id "").1 e in cc,
        id_signs-has_sign b'/' id (λ c k. ground arith) signs,
        id_signs-has_sign b'+' id (λ c k. ground arith) signs,
        id_signs-has_sign b'#' id (λ c k. ground arith) signs,
      )
]

abbrev pub IsValid : Result HaIdError (String × HaIdSource) → Type 0
IsValid (ok (id, _)) = valid_ha_id id ≡ true
IsValid (err _) = Unit

file_name-IsValid : (stem : String → String) (path : String) → IsValid (by_file_name stem path)
file_name-IsValid stem path =
    elim (Bool-cases (not (path == "") && not (stem path == "") && valid_ha_id (stem path))) [
      | inr bad ↦ rw bad tt
      | inl good ↦ rw good (ground arith)
    ]

description-IsValid :
    (stem : String → String) (path : String) (described : Option String)
    → IsValid (by_description stem path described)
description-IsValid stem path none = file_name-IsValid stem path
description-IsValid stem path (some id) = elim (Bool-cases (id == "")) [
  | inl empty ↦ rw empty (file_name-IsValid stem path)
  | inr full ↦ elim (Bool-cases (valid_ha_id id)) [
    | inl good ↦ rw (full, good) good
    | inr bad ↦ rw (full, bad) tt
  ]
]

pub resolved-IsValid :
    (stem : String → String) (d : DeviceConfig) (described : Option String)
    → IsValid (resolve_ha_id stem d described)
unfolding resolve_ha_id
resolved-IsValid stem d described = elim (Bool-cases (d.ha_id == "")) [
  | inl empty ↦ rw (resolve_ha_id, empty) (description-IsValid stem d.description described)
  | inr full ↦ elim (Bool-cases (valid_ha_id d.ha_id)) [
    | inl good ↦ rw (resolve_ha_id, full, good) good
    | inr bad ↦ rw (resolve_ha_id, full, bad) tt
  ]
]

-- Wherever the haId of a device comes from, it is one level of a topic: it is not empty and holds
-- no level separator and no wildcard.
pub resolve_ha_id-IsSegment :
    (stem : String → String) (d : DeviceConfig) (described : Option String) (id : String)
    (from : HaIdSource)
    → resolve_ha_id stem d described ≡ ok (id, from)
    → IsSegment id
resolve_ha_id-IsSegment stem d described id from e =
    let good : IsValid (ok (id, from)) = rw e at (resolved-IsValid stem d described) in
    valid_ha_id-IsSegment id good
