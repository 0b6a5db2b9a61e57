-- ===== src/Profile/Archive.antt =====
-- internal/profile/archive.go: the profiles of an archive. The ZIP reader, encoding/json and package
-- path are parameters; a Go map of files is an association list, and the order that a `range` over it
-- takes is a parameter.
pub mod Accepted
pub mod Sizes
use Prim.Native.String.{◌++◌ as ◌^^◌}
use go_homeconnect2mqtt.Base.{
  ℕ, ◌+◌, ◌%◌, ◌^◌, String, Bool, true, false, not, ◌&&◌, Option, none, some, List, [], ◌∷◌, ◌++◌,
  length, ltb, Result, ok, err, if◌then◌else◌,
}
use go_homeconnect2mqtt.Base.Keys.{◌==◌, text_key, lookup, insert}
use go_homeconnect2mqtt.Value.{Host}
use go_homeconnect2mqtt.Entity.{is_nil}
use go_homeconnect2mqtt.Devices.{valid_ha_id}
use go_homeconnect2mqtt.Profile.{Description}
use go_homeconnect2mqtt.Profile.Xml.{MappingDocument, DeviceDocument}
use go_homeconnect2mqtt.Profile.Parser.{Digits}
use go_homeconnect2mqtt.Profile.Parser.Document.{parse_description}

-- 16 << 20 and 64 << 20
abbrev pub max_entry_size : ℕ
max_entry_size = 16777216

abbrev pub max_archive_size : ℕ
max_archive_size = 67108864

-- The two errors of the categories that parsing an archive meets
pub data ArchiveError : Type 0 where
  invalid_profile parser_failed : ArchiveError

-- DeviceIndex
pub record DeviceIndex : Type 0 where
  pub ha_id : String
  pub description_file : String
  pub mapping_file : String
  pub connection_type : String
  pub key : String
  pub iv : String
  pub brand : String
  pub device_type : String
  pub vib : String
  pub model : String

-- DeviceProfile
pub record DeviceProfile (F : Type 0) : Type 0 where
  pub ha_id : String
  pub connection_type : String
  pub psk64 : String
  pub iv64 : String
  pub brand : String
  pub device_type : String
  pub vib : String
  pub model : String
  pub description : Description F

-- DefaultHost
unfoldable pub default_host : {F : Type 0} → DeviceProfile F → String
default_host p =
    if p.connection_type == "TLS"
    then p.brand ^^ ("-" ^^ (p.device_type ^^ ("-" ^^ p.ha_id)))
    else p.ha_id

-- A ZIP entry: its name, its declared size, and what Open and the limited ReadAll yield.
pub record ZipEntry : Type 0 where
  pub file_name : String
  pub declared : ℕ
  pub opens : Bool
  pub read_up_to : ℕ → Option (List ℕ)

-- The fast path of ParseArchiveBytes; uint64 wraps.
unfoldable pub declared_size : List ZipEntry → ℕ → Option ℕ
declared_size [] declared = some declared
declared_size (f ∷ fs) declared =
    let rest = declared_size fs ((declared + f.declared) % 2 ^ 64) in
    if ltb max_entry_size f.declared then none else rest

-- The loop of ParseArchiveBytes that reads the files. `total` is at most max_archive_size before an
-- entry and grows by one that is at most max_entry_size, so that int64 holds it.
unfoldable pub read_files :
    List ZipEntry → ℕ → List (String × List ℕ) → Result ArchiveError (List (String × List ℕ))
read_files [] total files = ok files
read_files (f ∷ fs) total files =
    if not f.opens then err invalid_profile else elim (f.read_up_to (max_entry_size + 1)) [
      | none ↦ err invalid_profile
      | some b ↦
          let rest = read_files fs (total + length b) (insert f.file_name b files) in
          if ltb max_entry_size (length b)
          then err invalid_profile
          else if ltb max_archive_size (total + length b)
          then err invalid_profile
          else rest
    ]

-- The files of ParseArchiveBytes; `none` is an archive that zip.NewReader refuses.
unfoldable pub archive_files : Option (List ZipEntry) → Result ArchiveError (List (String × List ℕ))
unfolding declared_size read_files
archive_files none = err invalid_profile
archive_files (some fs) =
    let files = read_files fs 0 [] in
    elim (declared_size fs 0) [
      | none ↦ err invalid_profile
      | some declared ↦ if ltb max_archive_size declared then err invalid_profile else files
    ]

-- What parsing the files takes from outside.
pub record Reader : Type 0 where
  pub read_index : List ℕ → Option DeviceIndex
  pub read_mapping : List ℕ → Option MappingDocument
  pub read_device : List ℕ → Option DeviceDocument
  pub is_json : String → Bool  -- strings.HasSuffix(strings.ToLower(name), ".json")
  pub upper : String → String
  pub base : String → String  -- path.Base
  pub dir : String → String  -- path.Dir
  pub join : String → String → String  -- path.Join
  pub range : List (String × List ℕ) → List (String × List ℕ)

module _ (host : Host) (digits : Digits) (reader : Reader) where
  open host use {Float}
  open reader use {read_index, read_mapping, read_device, is_json, upper, base, dir, join, range}

  -- The last loop of lookupFile
  unfoldable pub by_base : String → List (String × List ℕ) → Option (List ℕ)
  by_base wanted [] = none
  by_base wanted ((file, bytes) ∷ files) =
      let rest = by_base wanted files in if base file == wanted then some bytes else rest

  -- lookupFile
  unfoldable pub lookup_file : List (String × List ℕ) → String → String → Option (List ℕ)
  unfolding by_base
  lookup_file files ref index_name =
      let last = by_base (base ref) (range files) in
      if ref == "" then none else elim (lookup ref files) [
        | some b ↦ some b
        | none ↦ elim (lookup (base ref) files) [
          | some b ↦ some b
          | none ↦
              if dir index_name == "."
              then last
              else elim (lookup (join (dir index_name) (base ref)) files) [
                | some b ↦ some b
                | none ↦ last
              ]
        ]
      ]

  -- The DeviceProfile of an index and its description
  unfoldable pub profile_of : DeviceIndex → Description Float → DeviceProfile Float
  profile_of ix d = record {
    ha_id = ix.ha_id;
    connection_type = upper ix.connection_type;
    psk64 = ix.key;
    iv64 = ix.iv;
    brand = ix.brand;
    device_type = ix.device_type;
    vib = ix.vib;
    model = ix.model;
    description = record d { ha_id = ix.ha_id };
  }

  -- One index of the loop of parseFileSet: a profile, a skipped one, or the error that ends it.
  unfoldable pub parse_index :
      List (String × List ℕ)
      → String
      → DeviceIndex
      → Result ArchiveError (Option (DeviceProfile Float))
  unfolding lookup_file profile_of
  parse_index files index_name ix =
      if not (valid_ha_id ix.ha_id)
      then ok none
      else elim (lookup_file files ix.description_file index_name) [
        | none ↦ err invalid_profile
        | some description_xml ↦ elim (lookup_file files ix.mapping_file index_name) [
          | none ↦ err invalid_profile
          | some mapping_xml ↦
              elim (parse_description host digits read_mapping read_device description_xml
                mapping_xml) [ err e ↦ err parser_failed | ok d ↦ ok (some (profile_of ix d)) ]
        ]
      ]

  unfoldable pub parse_indexes :
      List (String × List ℕ)
      → List (String × List ℕ)
      → List (DeviceProfile Float)
      → Result ArchiveError (List (DeviceProfile Float))
  unfolding parse_index
  parse_indexes files [] profiles = ok profiles
  parse_indexes files ((index_name, bytes) ∷ rest) profiles = elim (read_index bytes) [
    | none ↦ err invalid_profile
    | some ix ↦ elim (parse_index files index_name ix) [
      | err e ↦ err e
      | ok none ↦ parse_indexes files rest profiles
      | ok (some p) ↦ parse_indexes files rest (profiles ++ p ∷ [])
    ]
  ]

  -- jsonNames of parseFileSet, each with its bytes
  unfoldable pub json_files : List (String × List ℕ) → List (String × List ℕ)
  json_files [] = []
  json_files ((file, bytes) ∷ files) =
      let rest = json_files files in if is_json file then (file, bytes) ∷ rest else rest

  -- parseFileSet
  unfoldable pub parse_file_set :
      List (String × List ℕ) → Result ArchiveError (List (DeviceProfile Float))
  unfolding json_files parse_indexes
  parse_file_set files =
      if is_nil (json_files (range files))
      then err invalid_profile
      else elim (parse_indexes files (json_files (range files)) []) [
        | err e ↦ err e
        | ok profiles ↦ if is_nil profiles then err invalid_profile else ok profiles
      ]

  -- ParseArchiveBytes
  unfoldable pub parse_archive_bytes :
      Option (List ZipEntry) → Result ArchiveError (List (DeviceProfile Float))
  unfolding archive_files parse_file_set
  parse_archive_bytes zip = elim (archive_files zip) [
    | err e ↦ err e
    | ok files ↦ parse_file_set files
  ]

  -- The loop of ParseArchiveDir over the *.zip files; `none` is one that os.ReadFile could not read.
  unfoldable pub parse_archives :
      List (Option (Option (List ZipEntry))) → List (DeviceProfile Float)
  unfolding parse_archive_bytes
  parse_archives [] = []
  parse_archives (none ∷ zips) = parse_archives zips
  parse_archives (some zip ∷ zips) =
      let rest = parse_archives zips in
      elim (parse_archive_bytes zip) [ err e ↦ rest | ok profiles ↦ profiles ++ rest ]

  -- ParseArchiveDir; the outer `none` is a directory that cannot be read.
  unfoldable pub parse_archive_dir :
      Option (List (Option (Option (List ZipEntry))))
      → Result ArchiveError (List (DeviceProfile Float))
  unfolding parse_archives
  parse_archive_dir none = err invalid_profile
  parse_archive_dir (some zips) =
      if is_nil zips then err invalid_profile else ok (parse_archives zips)
