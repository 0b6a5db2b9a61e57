-- ===== src/Profile/Xml.antt =====
-- internal/profile/parser.go: the two XML documents of a profile as encoding/xml decodes them. An
-- attribute that the document leaves out is the empty text.
use go_homeconnect2mqtt.Base.{String, List, [], ◌++◌}

-- xmlNamedRef: ref_id is the refUID of a feature and the refEID of an error.
pub record NamedRef : Type 0 where
  pub ref_id : String
  pub name : String

-- xmlEnumMember
pub record EnumMember : Type 0 where
  pub ref_value : String
  pub name : String

-- xmlEnumDesc
pub record EnumDesc : Type 0 where
  pub ref_enid : String
  pub members : List EnumMember

-- xmlFeatureMapping
pub record MappingDocument : Type 0 where
  pub features : List NamedRef
  pub errors : List NamedRef
  pub enum_descs : List EnumDesc

-- xmlProgramOption
pub record OptionNode : Type 0 where
  pub ref_uid : String
  pub access : String
  pub available : String
  pub live_update : String
  pub default_value : String

-- xmlElement
pub record Element : Type 0 where
  pub uid : String
  pub ref_cid : String
  pub ref_did : String
  pub enumeration_type : String
  pub access : String
  pub available : String
  pub execution : String
  pub handling : String
  pub level : String
  pub min : String
  pub max : String
  pub step_size : String
  pub init_value : String
  pub default_value : String
  pub options : List OptionNode

-- xmlProgram
pub record Program : Type 0 where
  pub uid : String
  pub available : String
  pub execution : String
  pub access : String
  pub options : List OptionNode

-- xmlEnumType, each xmlEnumTypeValue as its text
pub record EnumType : Type 0 where
  pub enid : String
  pub subset_of : String
  pub enumeration : List String

-- xmlStatusList, xmlSettingList, xmlEventList, xmlCommandList, xmlOptionList and xmlProgramGroup are
-- one shape: items, and further lists of the same kind.
mutual
  pub data Group (A : Type 0) : Type 0 where
    group : List A → Groups A → Group A

  pub data Groups (A : Type 0) : Type 0 where
    end : Groups A
    more : Group A → Groups A → Groups A

-- flattenStatus and its five copies
unfoldable mutual
  pub flatten : {A : Type 0} → Groups A → List A
  flatten end = []
  flatten (more g rest) = flatten_group g ++ flatten rest

  pub flatten_group : {A : Type 0} → Group A → List A
  flatten_group (group items sub) = items ++ flatten sub

-- xmlDescription
pub record Head : Type 0 where
  pub device_type : String
  pub brand : String
  pub model : String
  pub version : String
  pub revision : String

-- xmlDevice
pub record DeviceDocument : Type 0 where
  pub description : Head
  pub status_list : Groups Element
  pub setting_list : Groups Element
  pub event_list : Groups Element
  pub command_list : Groups Element
  pub option_list : Groups Element
  pub programs : Groups Program
  pub active : Element
  pub selected : Element
  pub protection : Element
  pub enum_types : List EnumType
