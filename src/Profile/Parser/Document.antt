-- ===== src/Profile/Parser/Document.antt =====
-- internal/profile/parser.go: ParseDescription, from the decoded documents to the description.
use go_homeconnect2mqtt.Base.{
  String, Bool, true, false, not, ◌&&◌, Option, none, some, List, [], ◌∷◌, map, Result, ok, err,
  if◌then◌else◌,
}
use go_homeconnect2mqtt.Base.Int.{ℤ}
use go_homeconnect2mqtt.Base.Keys.{◌==◌, text_key, int_key, insert}
use go_homeconnect2mqtt.Value.{Host}
use go_homeconnect2mqtt.Entity.{
  Entry, EntryKind, is_nil, status, setting, event, command, option, program, active_program,
  selected_program, protection_port,
}
use go_homeconnect2mqtt.Profile.{Description, DeviceInfo, new_description, add}
use go_homeconnect2mqtt.Profile.Xml.{
  MappingDocument, Element, Program, Head, DeviceDocument, flatten,
}
use go_homeconnect2mqtt.Profile.Parser.{
  Digits, FeatureMapping, atoi_safe, parse_feature_mapping, resolve_enum_subsets, convert_element,
  convert_program,
}

pub data ParseError : Type 0 where
  bad_mapping bad_description : ParseError

-- the kinds that resolveProgramNames looks for
unfoldable pub is_program_kind : EntryKind → Bool
is_program_kind program = true
is_program_kind _ = false

unfoldable pub is_choice_kind : EntryKind → Bool
is_choice_kind active_program = true
is_choice_kind selected_program = true
is_choice_kind _ = false

module _ (host : Host) (digits : Digits) where
  open host use {Float}
  open digits use {cut_last}

  -- A conversion's result: an entry is added, an element that failed is skipped.
  unfoldable pub add_converted : Option (Entry Float) → Description Float → Description Float
  unfolding add
  add_converted none d = d
  add_converted (some e) d = add e d

  -- addElems
  unfoldable pub add_elems :
      List Element → EntryKind → FeatureMapping → Description Float → Description Float
  unfolding add_converted
  add_elems [] kind fm d = d
  add_elems (x ∷ xs) kind fm d =
      add_elems xs kind fm (add_converted (convert_element host digits x kind fm) d)

  -- the loop over the programs
  unfoldable pub add_programs :
      List Program → FeatureMapping → Description Float → Description Float
  unfolding add_converted
  add_programs [] fm d = d
  add_programs (p ∷ ps) fm d =
      add_programs ps fm (add_converted (convert_program host digits p fm) d)

  -- one of the singles: an element that is missing has no uid.
  unfoldable pub add_single :
      Element → EntryKind → FeatureMapping → Description Float → Description Float
  unfolding add_converted
  add_single x kind fm d =
      if x.uid == "" then d else add_converted (convert_element host digits x kind fm) d

  -- programLeaf
  unfoldable pub program_leaf : String → String
  program_leaf name = elim (cut_last name) [ none ↦ name | some parts ↦ parts.1 ]

  -- progEnum of resolveProgramNames
  unfoldable pub program_enum : List (Entry Float) → List (ℤ × String) → List (ℤ × String)
  unfolding is_program_kind program_leaf
  program_enum [] table = table
  program_enum (e ∷ es) table = program_enum es (
      if is_program_kind e.kind && not (e.name == "")
      then insert e.uid (program_leaf e.name) table
      else table)

  unfoldable pub give_programs : List (ℤ × String) → Entry Float → Entry Float
  unfolding is_choice_kind
  give_programs table e =
      if is_choice_kind e.kind && is_nil e.enumeration then record e { enumeration = table } else e

  -- An entry is one object of the list and of both indexes, so that each of them sees the change.
  unfoldable pub on_values :
      {K : Type 0} → (Entry Float → Entry Float) → List (K × Entry Float) → List (K × Entry Float)
  on_values f [] = []
  on_values f ((k, e) ∷ es) = (k, f e) ∷ on_values f es

  unfoldable pub on_entries : (Entry Float → Entry Float) → Description Float → Description Float
  unfolding on_values
  on_entries f d = record d {
    entries = map f d.entries;
    indexes = record {
      by_uid = on_values f d.indexes.by_uid;
      by_name = on_values f d.indexes.by_name;
    };
  }

  -- resolveProgramNames
  unfoldable pub resolve_program_names : Description Float → Description Float
  unfolding program_enum give_programs on_entries
  resolve_program_names d =
      let table = program_enum d.entries [] in
      if is_nil table then d else on_entries (give_programs table) d

  -- the DeviceInfo of ParseDescription
  unfoldable pub device_info : Head → DeviceInfo
  unfolding atoi_safe
  device_info head = record {
    device_type = head.device_type;
    brand = head.brand;
    model = head.model;
    version = atoi_safe host digits head.version;
    revision = atoi_safe host digits head.revision;
  }

  -- The entries of ParseDescription, in the order of its calls, up to resolveProgramNames.
  unfoldable pub add_document :
      DeviceDocument → FeatureMapping → Description Float → Description Float
  unfolding add_elems add_programs add_single
  add_document dev fm d =
      let d = add_elems (flatten dev.status_list) status fm d in
      let d = add_elems (flatten dev.setting_list) setting fm d in
      let d = add_elems (flatten dev.event_list) event fm d in
      let d = add_elems (flatten dev.command_list) command fm d in
      let d = add_elems (flatten dev.option_list) option fm d in
      let d = add_programs (flatten dev.programs) fm d in
      let d = add_single dev.active active_program fm d in
      let d = add_single dev.selected selected_program fm d in
      add_single dev.protection protection_port fm d

  -- ParseDescription from the two decoded documents on, before its last call
  unfoldable pub read_device : MappingDocument → DeviceDocument → Description Float
  unfolding add_document device_info
  read_device mapping dev =
      let read = parse_feature_mapping host digits mapping in
      let fm = record read { enum = resolve_enum_subsets host digits dev.enum_types read.enum } in
      add_document dev fm
        (record new_description { info = device_info dev.description; enumerations = fm.enum })

  unfoldable pub describe_device : MappingDocument → DeviceDocument → Description Float
  unfolding read_device resolve_program_names
  describe_device mapping dev = resolve_program_names (read_device mapping dev)

  -- ParseDescription; the two parameters are xml.Unmarshal at the two documents.
  unfoldable pub parse_description :
      {Bytes : Type 0}
      → (Bytes → Option MappingDocument)
      → (Bytes → Option DeviceDocument)
      → Bytes
      → Bytes
      → Result ParseError (Description Float)
  unfolding describe_device
  parse_description read_mapping read_device description_xml mapping_xml =
      elim (read_mapping mapping_xml) [
        | none ↦ err bad_mapping
        | some mapping ↦ elim (read_device description_xml) [
          | none ↦ err bad_description
          | some dev ↦ ok (describe_device mapping dev)
        ]
      ]
