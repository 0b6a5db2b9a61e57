-- ===== src/Profile.antt =====
-- internal/profile/types.go: the wire types of a refCID. internal/profile/description.go: the entries
-- of a parsed description with their two indexes.
pub mod Archive
pub mod Parser
pub mod Rebuilt
pub mod Redact
pub mod Xml
use go_homeconnect2mqtt.Base.{
  ℕ, zero, suc, ◌+◌, String, ◌≡◌, Bool, Option, some, from_option, List, [], ◌∷◌, ◌++◌,
  if◌then◌else◌,
}
use go_homeconnect2mqtt.Base.Int.{ℤ, pos}
use go_homeconnect2mqtt.Base.Keys.{◌==◌, text_key, int_key, lookup, insert}
use go_homeconnect2mqtt.Value.{ProtocolType, boolean, integer, floating, string, object}
use go_homeconnect2mqtt.Entity.{Entry}

-- The literal of buildProtocolTypes
abbrev named_types : List (ℤ × ProtocolType)
named_types =
    (pos 1, boolean)
    ∷ (pos 2, integer)
    ∷ (pos 3, integer)
    ∷ (pos 4, floating)
    ∷ (pos 5, string)
    ∷ (pos 6, string)
    ∷ (pos 7, floating)
    ∷ (pos 8, floating)
    ∷ (pos 10, string)
    ∷ (pos 16, integer)
    ∷ (pos 17, floating)
    ∷ (pos 18, integer)
    ∷ (pos 19, integer)
    ∷ (pos 20, integer)
    ∷ (pos 21, integer)
    ∷ (pos 22, string)
    ∷ (pos 23, string)
    ∷ (pos 24, integer)
    ∷ (pos 30, string)
    ∷ (pos 31, integer)
    ∷ (pos 32, integer)
    ∷ (pos 33, floating)
    ∷ (pos 34, floating)
    ∷ (pos 35, floating)
    ∷ (pos 36, floating)
    ∷ (pos 37, integer)
    ∷ (pos 38, integer)
    ∷ (pos 39, floating)
    ∷ (pos 40, object)
    ∷ (pos 41, floating)
    ∷ (pos 42, object)
    ∷ (pos 47, integer)
    ∷ (pos 48, string)
    ∷ (pos 49, object)
    ∷ (pos 50, string)
    ∷ (pos 58, integer)
    ∷ (pos 59, integer)
    ∷ (pos 61, string)
    ∷ (pos 64, floating)
    ∷ (pos 65, floating)
    ∷ []

-- `for c := lo; c < lo + n; c++ { m[c] = t }`
unfoldable pub fill_range : ℕ → ℕ → ProtocolType → List (ℤ × ProtocolType) → List (ℤ × ProtocolType)
fill_range zero lo t m = m
fill_range (suc n) lo t m = fill_range n (lo + 1) t (insert (pos lo) t m)

-- buildProtocolTypes
unfoldable pub protocol_types : List (ℤ × ProtocolType)
unfolding fill_range
protocol_types = fill_range 66 129 object (
    fill_range 2 62 object
      (fill_range 7 51 floating (fill_range 4 43 floating (fill_range 3 25 object named_types))))

-- ProtocolTypeFor
unfoldable pub protocol_type_for : ℤ → ProtocolType
unfolding protocol_types
protocol_type_for ref_cid = from_option string (lookup ref_cid protocol_types)

-- buildContentTypes
abbrev pub content_types : List (ℤ × String)
content_types =
    (pos 1, "boolean")
    ∷ (pos 2, "integer")
    ∷ (pos 3, "enumeration")
    ∷ (pos 4, "float")
    ∷ (pos 5, "string")
    ∷ (pos 6, "dateTime")
    ∷ (pos 7, "temperatureCelsius")
    ∷ (pos 8, "temperatureFahrenheit")
    ∷ (pos 10, "hexBinary")
    ∷ (pos 16, "timeSpan")
    ∷ (pos 17, "percent")
    ∷ (pos 18, "dbm")
    ∷ (pos 19, "weight")
    ∷ (pos 20, "liquidVolume")
    ∷ (pos 21, "uidValue")
    ∷ (pos 22, "date")
    ∷ (pos 23, "time")
    ∷ (pos 24, "waterHardness")
    ∷ (pos 25, "point2D")
    ∷ (pos 26, "pose2D")
    ∷ (pos 27, "line2D")
    ∷ (pos 30, "rgb")
    ∷ (pos 31, "rpm")
    ∷ (pos 32, "flowRate")
    ∷ (pos 33, "length")
    ∷ (pos 34, "area")
    ∷ (pos 35, "power")
    ∷ (pos 36, "energy")
    ∷ (pos 37, "bigInteger")
    ∷ (pos 38, "identifier")
    ∷ (pos 39, "speed")
    ∷ (pos 40, "programInstruction")
    ∷ (pos 41, "weightPound")
    ∷ (pos 42, "localeString")
    ∷ (pos 43, "teaspoon")
    ∷ (pos 46, "piece")
    ∷ (pos 47, "byteLength")
    ∷ (pos 48, "uuid")
    ∷ (pos 49, "timezone")
    ∷ (pos 50, "csv")
    ∷ (pos 51, "leaf")
    ∷ (pos 52, "bunch")
    ∷ (pos 59, "portion")
    ∷ (pos 61, "utcDateTime")
    ∷ (pos 62, "programRunSummary")
    ∷ (pos 63, "programSessionSummary")
    ∷ (pos 64, "liquidVolumeThroughput")
    ∷ (pos 65, "weightOunces")
    ∷ []

-- ContentTypeFor: a missing key yields the empty text.
unfoldable pub content_type_for : ℤ → String
content_type_for ref_cid = from_option "" (lookup ref_cid content_types)

-- The two lookup maps of a Description.
pub record Indexes (F : Type 0) : Type 0 where
  pub by_uid : List (ℤ × Entry F)
  pub by_name : List (String × Entry F)

-- DeviceInfo
pub record DeviceInfo : Type 0 where
  pub device_type : String
  pub brand : String
  pub model : String
  pub version : ℤ
  pub revision : ℤ

-- Description; the enumerations map an id to the names of its values.
pub record Description (F : Type 0) : Type 0 where
  pub ha_id : String
  pub info : DeviceInfo
  pub entries : List (Entry F)
  pub indexes : Indexes F
  pub enumerations : List (ℤ × List (ℤ × String))

abbrev pub no_indexes : {F : Type 0} → Indexes F
no_indexes = record { by_uid = []; by_name = [] }

-- newDescription
abbrev pub new_description : {F : Type 0} → Description F
new_description = record {
  ha_id = "";
  info = record { device_type = ""; brand = ""; model = ""; version = pos 0; revision = pos 0 };
  entries = [];
  indexes = no_indexes;
  enumerations = [];
}

module _ {F : Type 0} where
  -- the body of the loop of rebuildIndex
  unfoldable pub index_entry : Entry F → Indexes F → Indexes F
  index_entry e ix = record {
    by_uid = insert e.uid e ix.by_uid;
    by_name = if e.name == "" then ix.by_name else insert e.name e ix.by_name;
  }

  unfoldable pub index_all : List (Entry F) → Indexes F → Indexes F
  index_all [] ix = ix
  index_all (e ∷ es) ix = index_all es (index_entry e ix)

  -- add
  unfoldable pub add : Entry F → Description F → Description F
  unfolding index_entry
  add e d = record d {
    entries = d.entries ++ e ∷ [];
    indexes = record {
      by_uid = insert e.uid e d.indexes.by_uid;
      by_name = if e.name == "" then d.indexes.by_name else insert e.name e d.indexes.by_name;
    };
  }

  -- rebuildIndex
  unfoldable pub rebuild_index : Description F → Description F
  unfolding index_all
  rebuild_index d = record d { indexes = index_all d.entries no_indexes }

  -- ByUID and ByName
  unfoldable pub entry_by_uid : ℤ → Description F → Option (Entry F)
  entry_by_uid uid d = lookup uid d.indexes.by_uid

  unfoldable pub entry_by_name : String → Description F → Option (Entry F)
  entry_by_name name d = lookup name d.indexes.by_name
