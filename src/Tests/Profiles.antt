-- ===== src/Tests/Profiles.antt =====
-- The theorems on parsed profiles at concrete documents.
use go_homeconnect2mqtt.Base.{
  if◌then◌else◌, true, ℕ, String, ◌≡◌, refl, none, some, List, [], ◌∷◌, All, length, take, ok,
}
use go_homeconnect2mqtt.Base.Int.{ℤ, pos, int_beq, ltb_ℤ}
use go_homeconnect2mqtt.Base.Keys.{◌==◌, text_key, int_key, lookup, insert}
use go_homeconnect2mqtt.Value.{Host}
use go_homeconnect2mqtt.Devices.{valid_ha_id}
use go_homeconnect2mqtt.Profile.{rebuild_index}
use go_homeconnect2mqtt.Profile.Xml.{
  MappingDocument, Element, Program, Groups, group, end, more, DeviceDocument,
}
use go_homeconnect2mqtt.Profile.Parser.{Digits}
use go_homeconnect2mqtt.Profile.Parser.Document.{describe_device, parse_description}
use go_homeconnect2mqtt.Profile.Parser.Tolerance.{pruned, describe_device-pruned}
use go_homeconnect2mqtt.Profile.Parser.Indexes.{rebuild_index-describe_device}
use go_homeconnect2mqtt.Profile.Archive.{
  DeviceIndex, DeviceProfile, ZipEntry, Reader, archive_files, parse_archive_dir, profile_of,
}
use go_homeconnect2mqtt.Profile.Archive.Sizes.{IsBounded, archive_files-IsBounded}
use go_homeconnect2mqtt.Profile.Archive.Accepted.{IsAccepted, parse_archive_dir-IsAccepted}

-- Hexadecimal ids and decimal values from a table.
abbrev ids : List (String × ℤ)
ids = ("0A", pos 10) ∷ ("0B", pos 11) ∷ ("21B", pos 539) ∷ ("100", pos 256) ∷ ("101", pos 257) ∷ []

abbrev table_digits : Digits
table_digits = record { from_hex = λ s. lookup s ids; number = λ s. pos 0; cut_last = λ s. none }

abbrev number_host : Host
number_host = record {
  Float = ℤ;
  of_int = λ n. n;
  to_int = λ n. n;
  is_zero = λ n. int_beq n (pos 0);
  is_one = λ n. int_beq n (pos 1);
  is_positive = λ n. ltb_ℤ (pos 0) n;
  float_beq = int_beq;
  parse_float = λ s. none;
  atoi = λ s. if s == "1" then some (pos 1) else none;
  trim_space = λ s. s;
  trim_quotes = λ s. s;
  lower = λ s. s;
  equal_fold = λ a b. a == b;
  print = λ v. "";
}

abbrev blank : Element
blank = record {
  uid = "";
  ref_cid = "";
  ref_did = "";
  enumeration_type = "";
  access = "";
  available = "";
  execution = "";
  handling = "";
  level = "";
  min = "";
  max = "";
  step_size = "";
  init_value = "";
  default_value = "";
  options = [];
}

abbrev readable_one : Element
readable_one = record blank { uid = "21B"; access = "read" }

abbrev unreadable_one : Element
unreadable_one = record blank { uid = "xyz"; access = "read" }

-- A list with a readable and an unreadable element, and a nested one.
abbrev nested_list : Groups Element
nested_list =
    more (group (readable_one ∷ unreadable_one ∷ []) (more (group (unreadable_one ∷ []) end) end))
      end

abbrev eco : Program
eco = record { uid = "100"; available = ""; execution = ""; access = ""; options = [] }

abbrev mapping : MappingDocument
mapping = record {
  features =
      record { ref_id = "21B"; name = "Power" } ∷ record { ref_id = "100"; name = "Eco50" } ∷ [];
  errors = [];
  enum_descs =
      record { ref_enid = "0A"; members = record { ref_value = "1"; name = "off" } ∷ [] } ∷ [];
}

abbrev washer : DeviceDocument
washer = record {
  description = record {
    device_type = "Washer";
    brand = "B";
    model = "M";
    version = "1";
    revision = "0";
  };
  status_list = nested_list;
  setting_list = end;
  event_list = end;
  command_list = end;
  option_list = end;
  programs = more (group (eco ∷ []) end) end;
  active = record blank { uid = "101" };
  selected = blank;
  protection = unreadable_one;
  enum_types = record { enid = "0B"; subset_of = "0A"; enumeration = "1" ∷ [] } ∷ [];
}

describe_device-pruned_example :
    describe_device number_host table_digits mapping (pruned number_host table_digits washer)
    ≡ describe_device number_host table_digits mapping washer
describe_device-pruned_example = describe_device-pruned number_host table_digits mapping washer

rebuild_index-describe_device_example :
    rebuild_index (describe_device number_host table_digits mapping washer)
    ≡ describe_device number_host table_digits mapping washer
rebuild_index-describe_device_example =
    rebuild_index-describe_device number_host table_digits mapping washer

-- An archive with an index and the two documents, and one that cannot be opened.
abbrev plain_file : String → List ℕ → ZipEntry
plain_file name bytes = record {
  file_name = name;
  declared = length bytes;
  opens = true;
  read_up_to = λ n. some (take n bytes);
}

abbrev washer_zip : List ZipEntry
washer_zip =
    plain_file "a.json" (0 ∷ []) ∷ plain_file "d.xml" (1 ∷ []) ∷ plain_file "f.xml" (2 ∷ []) ∷ []

abbrev washer_index : DeviceIndex
washer_index = record {
  ha_id = "A1";
  description_file = "d.xml";
  mapping_file = "f.xml";
  connection_type = "AES";
  key = "k";
  iv = "i";
  brand = "B";
  device_type = "Washer";
  vib = "";
  model = "";
}

abbrev plain_reader : Reader
plain_reader = record {
  read_index = λ b. some washer_index;
  read_mapping = λ b. some mapping;
  read_device = λ b. some washer;
  is_json = λ s. s == "a.json";
  upper = λ s. s;
  base = λ s. s;
  dir = λ s. ".";
  join = λ a b. b;
  range = λ files. files;
}

abbrev washer_files : List (String × List ℕ)
washer_files = ("a.json", 0 ∷ []) ∷ ("d.xml", 1 ∷ []) ∷ ("f.xml", 2 ∷ []) ∷ []

washer_reads : archive_files (some washer_zip) ≡ ok washer_files
unfolding archive_files insert
washer_reads = refl

archive_files-IsBounded_example : IsBounded washer_files
archive_files-IsBounded_example =
    archive_files-IsBounded (some washer_zip) washer_files washer_reads

abbrev washer_profile : DeviceProfile ℤ
washer_profile =
    profile_of number_host table_digits plain_reader washer_index
      (describe_device number_host table_digits mapping washer)

directory_parses :
    parse_archive_dir number_host table_digits plain_reader
      (some (none ∷ some (some washer_zip) ∷ []))
    ≡ ok (washer_profile ∷ [])
unfolding parse_archive_dir insert lookup valid_ha_id parse_description
directory_parses = refl

parse_archive_dir-IsAccepted_example : All IsAccepted (washer_profile ∷ [])
parse_archive_dir-IsAccepted_example =
    parse_archive_dir-IsAccepted number_host table_digits plain_reader
      (some (none ∷ some (some washer_zip) ∷ [])) (washer_profile ∷ []) directory_parses
