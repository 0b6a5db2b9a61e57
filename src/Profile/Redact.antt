-- ===== src/Profile/Redact.antt =====
-- internal/profile/redact.go, logvalue.go and inventory.go: what is never logged in clear text.
-- strings.ToLower is `lower_rune` of package unicode on each rune; the length of a text and its first
-- bytes, which Go counts in UTF-8, are parameters.
pub mod Keys
use Prim.Native.Char.{Char, code}
use Prim.Native.String.{◌++◌ as ◌^^◌}
use go_homeconnect2mqtt.Base.{
  ℕ, String, Bool, true, false, not, ◌&&◌, ◌||◌, Option, none, some, List, [], ◌∷◌, map, leb,
  nat_beq, if◌then◌else◌,
}
use go_homeconnect2mqtt.Base.Keys.{◌==◌, text_key}
use go_homeconnect2mqtt.Devices.{DeviceConfig}
use go_homeconnect2mqtt.Migration.{has_topic}
use go_homeconnect2mqtt.Slug.Fixed.{is_capital}
use go_homeconnect2mqtt.Profile.Archive.{DeviceProfile, default_host}

abbrev pub secret_keys : List String
secret_keys =
    "psk" ∷ "key" ∷ "psk64" ∷ "iv" ∷ "aesiv" ∷ "iv64" ∷ "deviceid" ∷ "serialnumber" ∷ "shipski"
    ∷ "mac" ∷ []

abbrev pub is_separator : Char → Bool
is_separator c = nat_beq (code c) b'_' || nat_beq (code c) b'-'

-- needsNormalization: no byte of a rune beyond ASCII is a capital or a separator.
unfoldable pub needs_normalization : String → Bool
needs_normalization String.[] = false
needs_normalization (String.◌∷◌ c s) = (is_capital c || is_separator c) || needs_normalization s

-- A field of the log, or of an attribute
pub record Field : Type 0 where
  pub key : String
  pub text : String

-- InventoryEntry
pub record InventoryEntry : Type 0 where
  pub ha_id : String
  pub connection_type : String
  pub psk64 : String
  pub iv64 : String
  pub device_type : String
  pub brand : String
  pub vib : String
  pub host : String

-- The entries of WriteInventory
unfoldable pub inventory_entry : {F : Type 0} → DeviceProfile F → InventoryEntry
unfolding default_host
inventory_entry p = record {
  ha_id = p.ha_id;
  connection_type = p.connection_type;
  psk64 = p.psk64;
  iv64 = p.iv64;
  device_type = p.device_type;
  brand = p.brand;
  vib = p.vib;
  host = default_host p;
}

module _ (lower_rune : Char → Char) where
  -- normalizeKey
  unfoldable pub normalize_key : String → String
  normalize_key String.[] = ""
  normalize_key (String.◌∷◌ c s) =
      let rest = normalize_key s in
      if is_separator (lower_rune c) then rest else String.◌∷◌ (lower_rune c) rest

  -- IsSecretKey
  unfoldable pub is_secret_key : String → Bool
  unfolding has_topic needs_normalization normalize_key
  is_secret_key name =
      if has_topic name secret_keys
      then true
      else if not (needs_normalization name)
      then false
      else has_topic (normalize_key name) secret_keys

module _ (byte_length : String → ℕ) (first_bytes : ℕ → String → String) where
  -- Redact
  unfoldable pub redact : String → String
  redact value =
      if value == ""
      then ""
      else if leb (byte_length value) 4
      then "****"
      else first_bytes 2 value ^^ ("…" ^^ "****")

  -- RedactAttr on an attribute that is no group: its text is that of the resolved value.
  unfoldable pub redact_attr : (Char → Char) → Field → Field
  unfolding is_secret_key redact
  redact_attr lower_rune a =
      if is_secret_key lower_rune a.key then record a { text = redact a.text } else a

  -- LogValue of DeviceConfig, DeviceProfile and InventoryEntry
  unfoldable pub log_config : DeviceConfig → List Field
  unfolding redact
  log_config c =
      record { key = "name"; text = c.name }
      ∷ record { key = "host"; text = c.host }
      ∷ record { key = "connectionType"; text = c.connection_type }
      ∷ record { key = "psk64"; text = redact c.psk64 }
      ∷ record { key = "iv64"; text = redact c.iv64 }
      ∷ []

  unfoldable pub log_profile : {F : Type 0} → DeviceProfile F → List Field
  unfolding redact
  log_profile p =
      record { key = "haId"; text = p.ha_id }
      ∷ record { key = "connectionType"; text = p.connection_type }
      ∷ record { key = "brand"; text = p.brand }
      ∷ record { key = "type"; text = p.device_type }
      ∷ record { key = "vib"; text = p.vib }
      ∷ record { key = "model"; text = p.model }
      ∷ record { key = "psk64"; text = redact p.psk64 }
      ∷ record { key = "iv64"; text = redact p.iv64 }
      ∷ []

  unfoldable pub log_inventory : InventoryEntry → List Field
  unfolding redact
  log_inventory e =
      record { key = "haId"; text = e.ha_id }
      ∷ record { key = "connectionType"; text = e.connection_type }
      ∷ record { key = "type"; text = e.device_type }
      ∷ record { key = "brand"; text = e.brand }
      ∷ record { key = "vib"; text = e.vib }
      ∷ record { key = "host"; text = e.host }
      ∷ record { key = "psk64"; text = redact e.psk64 }
      ∷ record { key = "iv64"; text = redact e.iv64 }
      ∷ []
