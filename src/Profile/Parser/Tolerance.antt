-- ===== src/Profile/Parser/Tolerance.antt =====
-- ParseDescription of internal/profile/parser.go on documents with uids that cannot be read.
use go_homeconnect2mqtt.Base.{
  ◌≡◌, refl, sym, String, Bool, true, false, Bool-cases, Option-cases, inl, inr, none, is_some,
  List, [], ◌∷◌, ◌++◌, if◌then◌else◌,
}
use go_homeconnect2mqtt.Base.Keys.{◌==◌, text_key}
use go_homeconnect2mqtt.Value.{Host}
use go_homeconnect2mqtt.Entity.{EntryKind}
use go_homeconnect2mqtt.Profile.{Description}
use go_homeconnect2mqtt.Profile.Xml.{
  MappingDocument, Element, Program, DeviceDocument, Group, Groups, group, end, more, flatten,
  flatten_group,
}
use go_homeconnect2mqtt.Profile.Parser.{
  Digits, FeatureMapping, parse_hex, parse_feature_mapping, resolve_enum_subsets, convert_element,
  convert_program,
}
use go_homeconnect2mqtt.Profile.Parser.Document.{
  add_converted, add_elems, add_programs, add_single, add_document, read_device, describe_device,
}

module _ {A : Type 0} (p : A → Bool) where
  unfoldable pub kept : List A → List A
  kept [] = []
  kept (x ∷ xs) = let rest = kept xs in if p x then x ∷ rest else rest

  kept-append : (xs ys : List A) → kept (xs ++ ys) ≡ kept xs ++ kept ys
  unfolding kept
  kept-append [] ys = refl
  kept-append (x ∷ xs) ys = elim (Bool-cases (p x)) [
    | inl t ↦ rw (t, kept-append xs ys) refl
    | inr t ↦ rw (t, kept-append xs ys) refl
  ]

  -- The items that p refuses are taken out of the list and of every list within it.
  unfoldable mutual
    unfolding kept

    pub prune : Groups A → Groups A
    prune end = end
    prune (more g rest) = more (prune_group g) (prune rest)

    pub prune_group : Group A → Group A
    prune_group (group items sub) = group (kept items) (prune sub)

  mutual
    unfolding prune flatten kept

    pub flatten-prune : (gs : Groups A) → flatten (prune gs) ≡ kept (flatten gs)
    flatten-prune end = refl
    flatten-prune (more g rest) =
        rw (flatten_group-prune_group g, flatten-prune rest)
          (sym (kept-append (flatten_group g) (flatten rest)))

    flatten_group-prune_group :
        (g : Group A) → flatten_group (prune_group g) ≡ kept (flatten_group g)
    flatten_group-prune_group (group items sub) =
        rw (flatten-prune sub) (sym (kept-append items (flatten sub)))

if_same : {A : Type 0} (b : Bool) (a : A) → (if b then a else a) ≡ a
if_same true a = refl
if_same false a = refl

module _ (host : Host) (digits : Digits) where
  open host use {Float}

  abbrev readable : String → Bool
  readable text = is_some (parse_hex host digits text)

  abbrev readable_element : Element → Bool
  readable_element x = readable x.uid

  abbrev readable_program : Program → Bool
  readable_program p = readable p.uid

  abbrev pub without_unreadable : Element → Element
  without_unreadable x = if readable x.uid then x else record x { uid = "" }

  -- The document without its elements and programs whose uid cannot be read, at any depth.
  abbrev pub pruned : DeviceDocument → DeviceDocument
  pruned dev = record dev {
    status_list = prune readable_element dev.status_list;
    setting_list = prune readable_element dev.setting_list;
    event_list = prune readable_element dev.event_list;
    command_list = prune readable_element dev.command_list;
    option_list = prune readable_element dev.option_list;
    programs = prune readable_program dev.programs;
    active = without_unreadable dev.active;
    selected = without_unreadable dev.selected;
    protection = without_unreadable dev.protection;
  }

  element_skipped :
      (x : Element) (kind : EntryKind) (fm : FeatureMapping) (d : Description Float)
      → parse_hex host digits x.uid ≡ none
      → add_converted host digits (convert_element host digits x kind fm) d ≡ d
  unfolding add_converted convert_element
  element_skipped x kind fm d h = rw (h, convert_element) refl

  program_skipped :
      (p : Program) (fm : FeatureMapping) (d : Description Float)
      → parse_hex host digits p.uid ≡ none
      → add_converted host digits (convert_program host digits p fm) d ≡ d
  unfolding add_converted convert_program
  program_skipped p fm d h = rw (h, convert_program) refl

  add_elems-kept :
      (xs : List Element) (kind : EntryKind) (fm : FeatureMapping) (d : Description Float)
      → add_elems host digits (kept readable_element xs) kind fm d
        ≡ add_elems host digits xs kind fm d
  unfolding add_elems kept
  add_elems-kept [] kind fm d = refl
  add_elems-kept (x ∷ xs) kind fm d = elim (Option-cases (parse_hex host digits x.uid)) [
    | inl e ↦ rw (e, element_skipped x kind fm d e) (add_elems-kept xs kind fm d)
    | inr e ↦ rw e.1 (
        add_elems-kept xs kind fm
          (add_converted host digits (convert_element host digits x kind fm) d))
  ]

  add_programs-kept :
      (ps : List Program) (fm : FeatureMapping) (d : Description Float)
      → add_programs host digits (kept readable_program ps) fm d ≡ add_programs host digits ps fm d
  unfolding add_programs kept
  add_programs-kept [] fm d = refl
  add_programs-kept (p ∷ ps) fm d = elim (Option-cases (parse_hex host digits p.uid)) [
    | inl e ↦ rw (e, program_skipped p fm d e) (add_programs-kept ps fm d)
    | inr e ↦
        rw e.1
          (add_programs-kept ps fm (add_converted host digits (convert_program host digits p fm) d))
  ]

  add_single-without_unreadable :
      (x : Element) (kind : EntryKind) (fm : FeatureMapping) (d : Description Float)
      → add_single host digits (without_unreadable x) kind fm d ≡ add_single host digits x kind fm d
  unfolding add_single
  add_single-without_unreadable x kind fm d = elim (Option-cases (parse_hex host digits x.uid)) [
    | inl e ↦ rw (e, element_skipped x kind fm d e) (sym (if_same (x.uid == "") d))
    | inr e ↦ rw e.1 refl
  ]

  add_elems-prune :
      (gs : Groups Element) (kind : EntryKind) (fm : FeatureMapping) (d : Description Float)
      → add_elems host digits (flatten (prune readable_element gs)) kind fm d
        ≡ add_elems host digits (flatten gs) kind fm d
  add_elems-prune gs kind fm d =
      rw (flatten-prune readable_element gs) (add_elems-kept (flatten gs) kind fm d)

  add_programs-prune :
      (gs : Groups Program) (fm : FeatureMapping) (d : Description Float)
      → add_programs host digits (flatten (prune readable_program gs)) fm d
        ≡ add_programs host digits (flatten gs) fm d
  add_programs-prune gs fm d =
      rw (flatten-prune readable_program gs) (add_programs-kept (flatten gs) fm d)

  -- A description does not change when every element, program and single whose uid cannot be read is
  -- taken out of the document, however deeply its list is nested: such an element costs itself only.
  pub describe_device-pruned :
      (mapping : MappingDocument) (dev : DeviceDocument)
      → describe_device host digits mapping (pruned dev) ≡ describe_device host digits mapping dev
  unfolding describe_device read_device add_document
  describe_device-pruned mapping dev =
      let read = parse_feature_mapping host digits mapping in
      let fm = record read { enum = resolve_enum_subsets host digits dev.enum_types read.enum } in
      rw
        (
          add_single-without_unreadable dev.protection,
          add_single-without_unreadable dev.selected,
          add_single-without_unreadable dev.active,
          add_programs-prune dev.programs,
          add_elems-prune dev.option_list,
          add_elems-prune dev.command_list,
          add_elems-prune dev.event_list,
          add_elems-prune dev.setting_list,
          add_elems-prune dev.status_list,
        )
        refl
