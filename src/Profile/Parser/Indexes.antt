-- ===== src/Profile/Parser/Indexes.antt =====
-- The indexes and the uids of what ParseDescription of internal/profile/parser.go returns.
use go_homeconnect2mqtt.Base.{
  ◌≡◌, refl, sym, ap, ◌∙◌, String, Bool-cases, inl, inr, Option, none, some, List, [], ◌∷◌, map,
  if◌then◌else◌, ◌&&◌,
}
use go_homeconnect2mqtt.Base.Int.{ℤ}
use go_homeconnect2mqtt.Base.Keys.{Key, ◌==◌, text_key, int_key, insert}
use go_homeconnect2mqtt.Value.{Host}
use go_homeconnect2mqtt.Entity.{
  Entry, EntryKind, is_nil, status, setting, event, command, option, active_program,
  selected_program, protection_port,
}
use go_homeconnect2mqtt.Profile.{
  Description, DeviceInfo, new_description, Indexes, no_indexes, index_entry, index_all,
  rebuild_index,
}
use go_homeconnect2mqtt.Profile.Rebuilt.{rebuild_index-add}
use go_homeconnect2mqtt.Profile.Xml.{MappingDocument, Element, Program, DeviceDocument, flatten}
use go_homeconnect2mqtt.Profile.Parser.{
  Digits, FeatureMapping, parse_feature_mapping, resolve_enum_subsets, convert_element,
  convert_program,
}
use go_homeconnect2mqtt.Profile.Parser.Document.{
  is_choice_kind, add_converted, add_elems, add_programs, add_single, add_document, give_programs,
  on_entries, on_values, resolve_program_names, read_device, describe_device, device_info,
  program_enum,
}

module _ (host : Host) (digits : Digits) where
  open host use {Float}

  -- Every step of the parser that adds keeps the indexes equal to those of a rebuild.
  abbrev IsIndexed : Description Float → Type 0
  IsIndexed d = rebuild_index d ≡ d

  add_converted-IsIndexed :
      (o : Option (Entry Float)) (d : Description Float)
      → IsIndexed d
      → IsIndexed (add_converted host digits o d)
  unfolding add_converted
  add_converted-IsIndexed none d h = h
  add_converted-IsIndexed (some e) d h = rebuild_index-add e d h

  add_elems-IsIndexed :
      (xs : List Element) (kind : EntryKind) (fm : FeatureMapping) (d : Description Float)
      → IsIndexed d
      → IsIndexed (add_elems host digits xs kind fm d)
  unfolding add_elems
  add_elems-IsIndexed [] kind fm d h = h
  add_elems-IsIndexed (x ∷ xs) kind fm d h =
      let o = convert_element host digits x kind fm in
      add_elems-IsIndexed xs kind fm (add_converted host digits o d) (add_converted-IsIndexed o d h)

  add_programs-IsIndexed :
      (ps : List Program) (fm : FeatureMapping) (d : Description Float)
      → IsIndexed d
      → IsIndexed (add_programs host digits ps fm d)
  unfolding add_programs
  add_programs-IsIndexed [] fm d h = h
  add_programs-IsIndexed (p ∷ ps) fm d h =
      let o = convert_program host digits p fm in
      add_programs-IsIndexed ps fm (add_converted host digits o d) (add_converted-IsIndexed o d h)

  add_single-IsIndexed :
      (x : Element) (kind : EntryKind) (fm : FeatureMapping) (d : Description Float)
      → IsIndexed d
      → IsIndexed (add_single host digits x kind fm d)
  unfolding add_single
  add_single-IsIndexed x kind fm d h = elim (Bool-cases (x.uid == "")) [
    | inl e ↦ rw e h
    | inr e ↦ rw e (add_converted-IsIndexed (convert_element host digits x kind fm) d h)
  ]

  add_document-IsIndexed :
      (dev : DeviceDocument) (fm : FeatureMapping) (d : Description Float)
      → IsIndexed d
      → IsIndexed (add_document host digits dev fm d)
  unfolding add_document
  add_document-IsIndexed dev fm d h =
      let h = add_elems-IsIndexed (flatten dev.status_list) status fm _ h in
      let h = add_elems-IsIndexed (flatten dev.setting_list) setting fm _ h in
      let h = add_elems-IsIndexed (flatten dev.event_list) event fm _ h in
      let h = add_elems-IsIndexed (flatten dev.command_list) command fm _ h in
      let h = add_elems-IsIndexed (flatten dev.option_list) option fm _ h in
      let h = add_programs-IsIndexed (flatten dev.programs) fm _ h in
      let h = add_single-IsIndexed dev.active active_program fm _ h in
      let h = add_single-IsIndexed dev.selected selected_program fm _ h in
      add_single-IsIndexed dev.protection protection_port fm _ h

  module _ (f : Entry Float → Entry Float) (same_uid : (e : Entry Float) → (f e).uid ≡ e.uid)
      (same_name : (e : Entry Float) → (f e).name ≡ e.name) where
    on_indexes : Indexes Float → Indexes Float
    on_indexes ix = record {
      by_uid = on_values host digits f ix.by_uid;
      by_name = on_values host digits f ix.by_name;
    }

    on_values-insert :
        {K : Type 0} ⦃e : Key K⦄ (k : K) (v : Entry Float) (es : List (K × Entry Float))
        → on_values host digits f (insert k v es) ≡ insert k (f v) (on_values host digits f es)
    unfolding on_values insert
    on_values-insert k v [] = refl
    on_values-insert k v ((j, w) ∷ es) = elim (Bool-cases (j == k)) [
      | inl t ↦ rw t refl
      | inr t ↦ rw t (ap (λ l. (j, f w) ∷ l) (on_values-insert k v es))
    ]

    named_in : String → Entry Float → List (String × Entry Float) → List (String × Entry Float)
    named_in name e m = if name == "" then m else insert name e m

    on_values-named_in :
        (name : String) (v : Entry Float) (es : List (String × Entry Float))
        → on_values host digits f (named_in name v es)
          ≡ named_in name (f v) (on_values host digits f es)
    unfolding named_in
    on_values-named_in name v es = elim (Bool-cases (name == "")) [
      | inl t ↦ rw t refl
      | inr t ↦ rw t (on_values-insert name v es)
    ]

    on_indexes-index_entry :
        (e : Entry Float) (ix : Indexes Float)
        → index_entry (f e) (on_indexes ix) ≡ on_indexes (index_entry e ix)
    unfolding on_indexes index_entry named_in
    on_indexes-index_entry e ix =
        ap
          (λ m. record {
            by_uid = m;
            by_name = named_in (f e).name (f e) (on_values host digits f ix.by_name);
          })
          (ap (λ k. insert k (f e) (on_values host digits f ix.by_uid)) (same_uid e)
            ∙ sym (on_values-insert e.uid e ix.by_uid))
        ∙ ap
            (λ m. record {
              by_uid = on_values host digits f (insert e.uid e ix.by_uid);
              by_name = m;
            })
            (ap (λ k. named_in k (f e) (on_values host digits f ix.by_name)) (same_name e)
              ∙ sym (on_values-named_in e.name e ix.by_name))

    on_indexes-index_all :
        (es : List (Entry Float)) (ix : Indexes Float)
        → index_all (map f es) (on_indexes ix) ≡ on_indexes (index_all es ix)
    unfolding index_all
    on_indexes-index_all [] ix = refl
    on_indexes-index_all (e ∷ es) ix =
        ap (index_all (map f es)) (on_indexes-index_entry e ix)
        ∙ on_indexes-index_all es (index_entry e ix)

    on_entries-IsIndexed :
        (d : Description Float) → IsIndexed d → IsIndexed (on_entries host digits f d)
    unfolding on_entries rebuild_index on_indexes on_values
    on_entries-IsIndexed d h =
        ap (λ ix. record d { entries = map f d.entries; indexes = ix })
          (on_indexes-index_all d.entries no_indexes ∙ ap (λ b. on_indexes b.indexes) h)

  give_programs-uid :
      (table : List (ℤ × String)) (e : Entry Float)
      → (give_programs host digits table e).uid ≡ e.uid
  unfolding give_programs
  give_programs-uid table e = elim (Bool-cases (is_choice_kind e.kind && is_nil e.enumeration)) [
    | inl t ↦ rw t refl
    | inr t ↦ rw t refl
  ]

  give_programs-name :
      (table : List (ℤ × String)) (e : Entry Float)
      → (give_programs host digits table e).name ≡ e.name
  unfolding give_programs
  give_programs-name table e = elim (Bool-cases (is_choice_kind e.kind && is_nil e.enumeration)) [
    | inl t ↦ rw t refl
    | inr t ↦ rw t refl
  ]

  resolve_program_names-IsIndexed :
      (d : Description Float) → IsIndexed d → IsIndexed (resolve_program_names host digits d)
  unfolding resolve_program_names
  resolve_program_names-IsIndexed d h =
      let table = program_enum host digits d.entries [] in
      elim (Bool-cases (is_nil table)) [
        | inl t ↦ rw t h
        | inr t ↦ rw t (
            on_entries-IsIndexed (give_programs host digits table) (give_programs-uid table)
              (give_programs-name table) d h)
      ]

  empty-IsIndexed :
      (info : DeviceInfo) (enums : List (ℤ × List (ℤ × String)))
      → IsIndexed (record new_description { info = info; enumerations = enums })
  unfolding rebuild_index index_all
  empty-IsIndexed info enums = refl

  -- Whatever the documents say, repeated uids and names and the names given to program choices
  -- included: the indexes that are rebuilt from the entries of a parsed description alone, as they
  -- are when its cached form is loaded, are the ones that the parser built.
  pub rebuild_index-describe_device :
      (mapping : MappingDocument) (dev : DeviceDocument)
      → rebuild_index (describe_device host digits mapping dev)
        ≡ describe_device host digits mapping dev
  unfolding describe_device read_device
  rebuild_index-describe_device mapping dev =
      let read = parse_feature_mapping host digits mapping in
      let fm = record read { enum = resolve_enum_subsets host digits dev.enum_types read.enum } in
      let d : Description Float = record new_description {
        info = device_info host digits dev.description;
        enumerations = fm.enum;
      } in
      resolve_program_names-IsIndexed (add_document host digits dev fm d)
        (add_document-IsIndexed dev fm d (empty-IsIndexed d.info d.enumerations))
