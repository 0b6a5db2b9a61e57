-- ===== src/Devices/Accepted.antt =====
-- What LoadDevices of internal/profile/devices.go accepts.
use go_homeconnect2mqtt.Base.{
  ℕ, suc, String, ◌≡◌, ◌≢◌, ◌⊎◌, inl, inr, sym, ◌∙◌, Bool, true, false, Bool-cases, Option-cases,
  none, some, is_some, List, [], ◌∷◌, All, Result, ok, err, arith, if◌then◌else◌,
}
use go_homeconnect2mqtt.Base.Keys.{◌==◌, ==_iff, text_key, lookup, insert, lookup-insert}
use go_homeconnect2mqtt.Slug.{slug}
use go_homeconnect2mqtt.Slug.Fixed.{LowersAscii}
use go_homeconnect2mqtt.Slug.Kept.{has_ascii_alnum, slug_of_named}
use go_homeconnect2mqtt.Devices.{
  DeviceConfig, DeviceError, Unicode, has_sign, any_control, valid_ha_id, validate_device_name,
  name_fault, key_fault, upper_type, before_rest, check_devices, load_devices,
}

module _ (u : Unicode) where
  abbrev pub node_id : DeviceConfig → String
  node_id d = slug u.lower_rune d.name

  -- What a device must have
  abbrev pub IsUsable : DeviceConfig → Type 0
  IsUsable d =
      (has_ascii_alnum d.name ≡ true)
      × (u.is_utf8 d.name ≡ true)
      × (any_control u.is_control d.name ≡ false)
      × (has_sign b'+' d.name ≡ false)
      × (has_sign b'#' d.name ≡ false)
      × ((d.ha_id ≡ "") ⊎ (valid_ha_id d.ha_id ≡ true))
      × (((d.connection_type ≡ "AES") × (d.iv64 ≢ "")) ⊎ (d.connection_type ≡ "TLS"))
      × (d.psk64 ≢ "")

  good_name :
      (name : String)
      → validate_device_name u name ≡ none
      → (has_ascii_alnum name ≡ true)
        × (u.is_utf8 name ≡ true)
        × (any_control u.is_control name ≡ false)
        × (has_sign b'+' name ≡ false)
        × (has_sign b'#' name ≡ false)
  unfolding validate_device_name
  good_name name h = ground arith

  differs : (s t : String) → (s == t) ≡ false → s ≢ t
  differs s t h e = let same : (s == t) ≡ true = (==_iff s t).1 e in cc

  good_keys :
      (d : DeviceConfig)
      → key_fault u d ≡ none
      → ((d.ha_id ≡ "") ⊎ (valid_ha_id d.ha_id ≡ true))
        × (((d.connection_type ≡ "AES") × (d.iv64 ≢ "")) ⊎ (d.connection_type ≡ "TLS"))
        × (d.psk64 ≢ "")
  unfolding key_fault
  good_keys d h = ground (
    arith,
    ==_iff d.ha_id "",
    ==_iff d.connection_type "AES",
    ==_iff d.connection_type "TLS",
    ==_iff d.psk64 "",
    ==_iff d.iv64 "",
  )

  validated :
      (i : ℕ) (d : DeviceConfig) → name_fault u i d ≡ none → validate_device_name u d.name ≡ none
  unfolding name_fault
  validated i d h = ground arith

  -- the devices that a run of the loop may still take
  abbrev Fresh : List (String × String) → DeviceConfig → Type 0
  Fresh nodes d = IsUsable d × (lookup (node_id d) nodes ≡ none)

  -- No two devices of the list have the same node id.
  abbrev pub Distinct : List DeviceConfig → Type 0
  Distinct [] = Unit
  Distinct (d ∷ ds) = All (λ other. node_id d ≢ node_id other) ds × Distinct ds

  abbrev AllFresh : List (String × String) → Result DeviceError (List DeviceConfig) → Type 0
  AllFresh nodes (err x) = Unit
  AllFresh nodes (ok ds) = All (Fresh nodes) ds × Distinct ds

  rest_splits :
      (node first : String) (nodes : List (String × String)) (ds : List DeviceConfig)
      → All (Fresh (insert node first nodes)) ds
      → All (Fresh nodes) ds × All (λ other. node ≢ node_id other) ds
  rest_splits node first nodes [] h = (tt, tt)
  rest_splits node first nodes (d ∷ ds) ((usable, new), h) =
      let (old, apart) = rest_splits node first nodes ds h in
      let split : (if node == node_id d then some first else lookup (node_id d) nodes) ≡ none =
        sym (lookup-insert node (node_id d) first nodes) ∙ new in
      elim (Bool-cases (node == node_id d)) [
        | inl same ↦ let clash : some first ≡ none = rw same at split in cc
        | inr other ↦ (((usable, rw other at split), old), (differs node (node_id d) other, apart))
      ]

  AllFresh-before_rest :
      (d : DeviceConfig) (nodes : List (String × String))
      (r : Result DeviceError (List DeviceConfig))
      → Fresh nodes d
      → AllFresh (insert (node_id d) d.name nodes) r
      → AllFresh nodes (before_rest u d r)
  AllFresh-before_rest d nodes (err x) f h = tt
  AllFresh-before_rest d nodes (ok ds) f (fresh, distinct) =
      let (old, apart) = rest_splits (node_id d) d.name nodes ds fresh in
      ((f, old), (apart, distinct))

  checked :
      (i : ℕ) (seen : List (String × Bool)) (nodes : List (String × String))
      (ds : List DeviceConfig)
      → AllFresh nodes (check_devices u i seen nodes ds)
  unfolding check_devices
  checked i seen nodes [] = (tt, tt)
  checked i seen nodes (d0 ∷ ds) =
      let d = upper_type u d0 in
      elim (Option-cases (name_fault u i d)) [
        | inr (x, bad) ↦ rw (check_devices, bad) tt
        | inl name_ok ↦ elim (Bool-cases (is_some (lookup d.name seen))) [
          | inl twice ↦ rw (check_devices, name_ok, twice) tt
          | inr first ↦ elim (Option-cases (lookup (node_id d) nodes)) [
            | inr (other, clash) ↦ rw (check_devices, name_ok, first, clash) tt
            | inl new ↦ elim (Option-cases (key_fault u d)) [
              | inr (x, bad) ↦ rw (check_devices, name_ok, first, new, bad) tt
              | inl keys_ok ↦
                  let (letters, utf8, control, plus, hash) =
                    good_name d.name (validated i d name_ok) in
                  let (id, type_ok, key) = good_keys d keys_ok in
                  rw (check_devices, name_ok, first, new, keys_ok)
                    (AllFresh-before_rest d nodes _
                      ((letters, utf8, control, plus, hash, id, type_ok, key), new)
                      (checked (suc i) (insert d.name true seen) (insert (node_id d) d.name nodes)
                        ds))
            ]
          ]
        ]
      ]

  with_node_ids :
      LowersAscii u.lower_rune
      → (nodes : List (String × String)) (ds : List DeviceConfig) → All (Fresh nodes) ds
      → All (λ d. IsUsable d × (node_id d ≢ "")) ds
  with_node_ids ascii nodes [] h = tt
  with_node_ids ascii nodes (d ∷ ds) ((usable, new), h) =
      ((usable, slug_of_named u.lower_rune ascii d.name usable.0), with_node_ids ascii nodes ds h)

  -- Every device that LoadDevices accepts has a name that is valid UTF-8 with an ASCII letter or digit,
  -- no control character and no wildcard of a topic filter; a valid haId or none,
  -- a known connection type and the keys of that type; its node id is not empty, and no two of the
  -- devices share a node id. ToLower maps ASCII capital letters to small ones and keeps small
  -- letters, digits and the underscore.
  pub accepted_devices :
      LowersAscii u.lower_rune
      → (ds accepted : List DeviceConfig) → load_devices u ds ≡ ok accepted
      → All (λ d. IsUsable d × (node_id d ≢ "")) accepted × Distinct accepted
  unfolding load_devices
  accepted_devices ascii [] accepted e = cc
  accepted_devices ascii (d ∷ ds) accepted e =
      let found : AllFresh [] (ok accepted) = rw e at (checked 0 [] [] (d ∷ ds)) in
      (with_node_ids ascii [] accepted found.0, found.1)
