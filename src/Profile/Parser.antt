-- ===== src/Profile/Parser.antt =====
-- internal/profile/parser.go: the entries of an appliance from the two decoded XML documents. The
-- texts of numbers are read by Host, those of hexadecimal ids by Digits.
pub mod Choices
pub mod Document
pub mod Indexes
pub mod Subsets
pub mod Tolerance
use go_homeconnect2mqtt.Base.{
  String, Bool, true, false, not, ◌&&◌, ◌||◌, Option, none, some, from_option, is_some, List, [],
  ◌∷◌, ◌++◌, map, Result, ok, err, if◌then◌else◌,
}
use go_homeconnect2mqtt.Base.Int.{ℤ, pos}
use go_homeconnect2mqtt.Base.Keys.{◌==◌, text_key, int_key, lookup, insert}
use go_homeconnect2mqtt.Value.{Host, ProtocolType, string, other}
use go_homeconnect2mqtt.Entity.{
  Entry, EntryKind, ProgramOption, is_nil, status, setting, event, command, option, program,
  active_program, selected_program, protection_port,
}
use go_homeconnect2mqtt.Profile.{
  Description, DeviceInfo, new_description, add, content_type_for, protocol_type_for,
}
use go_homeconnect2mqtt.Profile.Xml.{
  NamedRef, EnumMember, EnumDesc, MappingDocument, OptionNode, Element, Program, EnumType, Head,
  DeviceDocument, flatten,
}

-- What the parser takes of strconv and strings beside Host.
pub record Digits : Type 0 where
  pub from_hex : String → Option ℤ  -- strconv.ParseInt(s, 16, 64)
  pub number : String → ℤ  -- the number of strconv.Atoi, which it returns beside an error too
  pub cut_last : String → Option (String × String)  -- strings.CutLast(s, ".")

-- featureMapping
pub record FeatureMapping : Type 0 where
  pub feature : List (ℤ × String)
  pub errors : List (ℤ × String)
  pub enum : List (ℤ × List (ℤ × String))

module _ (host : Host) (digits : Digits) where
  open host use {Float, is_zero, parse_float, atoi, trim_space, lower}
  open digits use {from_hex, number, cut_last}

  -- parseHex
  unfoldable pub parse_hex : String → Option ℤ
  parse_hex text = let s = trim_space text in if s == "" then none else from_hex s

  -- parseFloat
  unfoldable pub parse_number : String → Option Float
  parse_number text = let s = trim_space text in if s == "" then none else parse_float s

  -- parseBoolDefault
  unfoldable pub parse_bool_default : String → Bool → Bool
  parse_bool_default text fallback =
      let s = trim_space (lower text) in
      if s == ""
      then fallback
      else if s == "true"
      then true
      else if s == "false"
      then false
      else elim (parse_float s) [ none ↦ fallback | some f ↦ not (is_zero f) ]

  -- atoiSafe
  unfoldable pub atoi_safe : String → ℤ
  atoi_safe text = number (trim_space text)

  -- The loops of parseFeatureMapping: an id that cannot be read is skipped.
  unfoldable pub read_names : List NamedRef → List (ℤ × String) → List (ℤ × String)
  unfolding parse_hex
  read_names [] names = names
  read_names (ref ∷ refs) names = read_names refs (elim (parse_hex ref.ref_id) [
    | none ↦ names
    | some uid ↦ insert uid (trim_space ref.name) names
  ])

  unfoldable pub read_members : List EnumMember → List (ℤ × String) → List (ℤ × String)
  read_members [] values = values
  read_members (m ∷ ms) values = read_members ms (elim (atoi (trim_space m.ref_value)) [
    | none ↦ values
    | some v ↦ insert v (trim_space m.name) values
  ])

  unfoldable pub read_enums :
      List EnumDesc → List (ℤ × List (ℤ × String)) → List (ℤ × List (ℤ × String))
  unfolding parse_hex read_members
  read_enums [] enums = enums
  read_enums (d ∷ ds) enums = read_enums ds (elim (parse_hex d.ref_enid) [
    | none ↦ enums
    | some enid ↦ insert enid (read_members d.members []) enums
  ])

  -- parseFeatureMapping behind its xml.Unmarshal
  unfoldable pub parse_feature_mapping : MappingDocument → FeatureMapping
  unfolding read_names read_enums
  parse_feature_mapping doc = record {
    feature = read_names doc.features [];
    errors = read_names doc.errors [];
    enum = read_enums doc.enum_descs [];
  }

  -- The inner loop of resolveEnumSubsets: the listed values that the parent names.
  unfoldable pub subset_of_parent :
      List (ℤ × String) → List String → List (ℤ × String) → List (ℤ × String)
  subset_of_parent parent [] subset = subset
  subset_of_parent parent (text ∷ texts) subset =
      subset_of_parent parent texts (elim (atoi (trim_space text)) [
        | none ↦ subset
        | some v ↦ elim (lookup v parent) [ none ↦ subset | some name ↦ insert v name subset ]
      ])

  -- one turn of the loop of resolveEnumSubsets, on fm.enum
  unfoldable pub resolve_subset :
      EnumType → List (ℤ × List (ℤ × String)) → List (ℤ × List (ℤ × String))
  unfolding parse_hex subset_of_parent
  resolve_subset et enums = if et.subset_of == "" then enums else elim (parse_hex et.enid) [
    | none ↦ enums
    | some enid ↦ elim (parse_hex et.subset_of) [
      | none ↦ enums
      | some parent ↦ elim (lookup parent enums) [
        | none ↦ enums
        | some members ↦ insert enid (subset_of_parent members et.enumeration []) enums
      ]
    ]
  ]

  unfoldable pub resolve_enum_subsets :
      List EnumType → List (ℤ × List (ℤ × String)) → List (ℤ × List (ℤ × String))
  unfolding resolve_subset
  resolve_enum_subsets [] enums = enums
  resolve_enum_subsets (et ∷ ets) enums = resolve_enum_subsets ets (resolve_subset et enums)

  -- the enumeration of convertElement
  unfoldable pub enumeration_of : String → List (ℤ × List (ℤ × String)) → List (ℤ × String)
  unfolding parse_hex
  enumeration_of text enums =
      if text == ""
      then []
      else elim (parse_hex text) [ none ↦ [] | some enid ↦ from_option [] (lookup enid enums) ]

  -- convertElement behind its test of the uid
  unfoldable pub element_entry : Element → EntryKind → FeatureMapping → ℤ → Entry Float
  unfolding parse_hex parse_number parse_bool_default enumeration_of content_type_for
      protocol_type_for
  element_entry x kind fm uid = record {
    uid = uid;
    name = from_option "" (lookup uid fm.feature);
    kind = kind;
    ref_cid = from_option (pos 0) (parse_hex x.ref_cid);
    ref_did = from_option (pos 0) (parse_hex x.ref_did);
    content_type = elim (parse_hex x.ref_cid) [ none ↦ "" | some cid ↦ content_type_for cid ];
    protocol_type = elim (parse_hex x.ref_cid) [ none ↦ string | some cid ↦ protocol_type_for cid ];
    access = lower x.access;
    execution = lower x.execution;
    handling = lower x.handling;
    level = lower x.level;
    available = parse_bool_default x.available true;
    min = parse_number x.min;
    max = parse_number x.max;
    step_size = parse_number x.step_size;
    init_value = x.init_value;
    default_value = x.default_value;
    enumeration = enumeration_of x.enumeration_type fm.enum;
    options = [];
  }

  -- convertElement
  unfoldable pub convert_element : Element → EntryKind → FeatureMapping → Option (Entry Float)
  unfolding parse_hex element_entry
  convert_element x kind fm = elim (parse_hex x.uid) [
    | none ↦ none
    | some uid ↦ some (element_entry x kind fm uid)
  ]

  -- the loop over the options of convertProgram
  unfoldable pub program_options : List OptionNode → List ProgramOption
  unfolding parse_hex parse_bool_default
  program_options [] = []
  program_options (o ∷ os) =
      let rest = program_options os in
      elim (parse_hex o.ref_uid) [
        | none ↦ rest
        | some uid ↦
            record {
              ref_uid = uid;
              access = lower o.access;
              available = parse_bool_default o.available true;
              live_update = parse_bool_default o.live_update false;
              default_value = parse_bool_default o.default_value false;
            }
            ∷ rest
      ]

  unfoldable pub program_entry : Program → FeatureMapping → ℤ → Entry Float
  unfolding parse_bool_default program_options
  program_entry p fm uid = record {
    uid = uid;
    name = from_option "" (lookup uid fm.feature);
    kind = program;
    ref_cid = pos 0;
    ref_did = pos 0;
    content_type = "";
    protocol_type = other "";
    access = lower p.access;
    execution = lower p.execution;
    handling = "";
    level = "";
    available = parse_bool_default p.available true;
    min = none;
    max = none;
    step_size = none;
    init_value = "";
    default_value = "";
    enumeration = [];
    options = program_options p.options;
  }

  -- convertProgram
  unfoldable pub convert_program : Program → FeatureMapping → Option (Entry Float)
  unfolding parse_hex program_entry
  convert_program p fm = elim (parse_hex p.uid) [
    | none ↦ none
    | some uid ↦ some (program_entry p fm uid)
  ]
