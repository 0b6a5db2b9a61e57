-- ===== src/Entity.antt =====
-- internal/homeconnect/entities.go: a live feature of an appliance, over its parsed description
-- (Entry of internal/profile/description.go). A number with a presence flag is an Option.
pub mod Updates
pub mod Writes
use go_homeconnect2mqtt.Base.{
  ℕ, String, Bool, true, false, not, ◌&&◌, ◌||◌, Option, none, some, is_some, List, [], ◌∷◌, Result,
  ok, err, if◌then◌else◌,
}
use go_homeconnect2mqtt.Base.Int.{ℤ}
use go_homeconnect2mqtt.Base.Keys.{◌==◌, text_key, int_key, lookup, insert}
use go_homeconnect2mqtt.Value.{
  Value, null, bool, int, int64, float, str, composite, Host, ProtocolType, boolean, integer,
  floating, string, object, convert_bool, as_int, as_float, cast_value,
}
use go_homeconnect2mqtt.Message.{Item}

-- EntryKind
pub data EntryKind : Type 0 where
  status setting event command option program active_program selected_program protection_port :
      EntryKind

-- ProgramOption
pub record ProgramOption : Type 0 where
  pub ref_uid : ℤ
  pub access : String
  pub available : Bool
  pub live_update : Bool
  pub default_value : Bool

-- Entry
pub record Entry (F : Type 0) : Type 0 where
  pub uid : ℤ
  pub name : String
  pub kind : EntryKind
  pub ref_cid : ℤ
  pub ref_did : ℤ
  pub content_type : String
  pub protocol_type : ProtocolType
  pub access : String
  pub execution : String
  pub handling : String
  pub level : String
  pub available : Bool
  pub min : Option F
  pub max : Option F
  pub step_size : Option F
  pub init_value : String
  pub default_value : String
  pub enumeration : List (ℤ × String)
  pub options : List ProgramOption

abbrev pub is_nil : {A : Type 0} → List A → Bool
is_nil [] = true
is_nil (_ ∷ _) = false

-- IsEnum
abbrev pub is_enum : {F : Type 0} → Entry F → Bool
is_enum d = not (is_nil d.enumeration)

pub record Entity (F : Type 0) : Type 0 where
  pub desc : Entry F
  pub has_value : Bool
  pub value_raw : Value F
  pub value_shadow : Value F
  pub access : String
  pub available : Bool
  pub min : Option F
  pub max : Option F
  pub step_size : Option F
  pub execution : String
  pub rev_enum : List (String × ℤ)

pub data WriteError : Type 0 where
  not_an_enum_value not_an_integer not_a_number : WriteError

-- Writable
unfoldable pub writable : {F : Type 0} → Entity F → Bool
writable e = (e.access == "readwrite" || e.access == "writeonly") && e.available

module _ (host : Host) where
  open host use {Float, of_int, to_int, is_one, float_beq, atoi, trim_space, lower}

  -- the reverse map of newEntity
  unfoldable pub reversed : List (ℤ × String) → List (String × ℤ)
  reversed [] = []
  reversed ((v, name) ∷ rest) = insert (lower name) v (reversed rest)

  -- newEntity
  unfoldable pub new_entity : Entry Float → Entity Float
  unfolding reversed
  new_entity d = record {
    desc = d;
    has_value = false;
    value_raw = null;
    value_shadow = null;
    access = d.access;
    available = d.available;
    min = d.min;
    max = d.max;
    step_size = d.step_size;
    execution = d.execution;
    rev_enum = reversed d.enumeration;
  }

  named : List (ℤ × String) → Value Float → Option ℤ → Value Float
  named enumeration raw none = raw
  named enumeration raw (some n) = elim (lookup n enumeration) [ none ↦ raw | some name ↦ str name ]

  -- Value: null where no value has come.
  unfoldable pub value : Entity Float → Value Float
  unfolding named as_int
  value e =
      if e.has_value
      then (if is_enum e.desc
          then named e.desc.enumeration e.value_raw (as_int host e.value_raw)
          else e.value_raw)
      else null

  -- HasEnumName
  unfoldable pub has_enum_name : String → Entity Float → Bool
  has_enum_name s e = is_some (lookup (lower s) e.rev_enum)

  -- The parts of update, one for each key of the item.
  take_value : Option (Value Float) → Entity Float → Entity Float
  unfolding cast_value
  take_value none e = e
  take_value (some v) e =
      let raw = cast_value host e.desc.protocol_type v in
      record e { value_raw = raw; value_shadow = raw; has_value = true }

  take_access : Option (Value Float) → Entity Float → Entity Float
  take_access (some (str s)) e = record e { access = lower s }
  take_access _ e = e

  take_available : Option (Value Float) → Entity Float → Entity Float
  unfolding convert_bool
  take_available none e = e
  take_available (some v) e = record e { available = convert_bool host v }

  take_number : Option (Value Float) → Option Float → Option Float
  unfolding as_float
  take_number none old = old
  take_number (some v) old = elim (as_float host v) [ none ↦ old | some f ↦ some f ]

  take_execution : Option (Value Float) → Entity Float → Entity Float
  take_execution (some (str s)) e = record e { execution = lower s }
  take_execution _ e = e

  take_bounds : Item Float → Entity Float → Entity Float
  unfolding take_number
  take_bounds item e = record e {
    min = take_number (lookup "min" item) e.min;
    max = take_number (lookup "max" item) e.max;
    step_size = take_number (lookup "stepSize" item) e.step_size;
  }

  -- update
  unfoldable pub update : Item Float → Entity Float → Entity Float
  unfolding take_value take_access take_available take_bounds take_execution
  update item e = take_execution (lookup "execution" item) (
      take_bounds item (
        take_available (lookup "available" item)
          (take_access (lookup "access" item) (take_value (lookup "value" item) e))))

  abbrev steps_by_one : Option Float → Bool
  steps_by_one none = false
  steps_by_one (some s) = is_one s

  -- The switch on the protocol type in resolveWriteValue.
  by_type : ProtocolType → Option Float → Value Float → Result WriteError (Value Float)
  unfolding convert_bool as_int as_float
  by_type boolean step v = ok (bool (convert_bool host v))
  by_type integer step v = elim (as_int host v) [ none ↦ err not_an_integer | some n ↦ ok (int n) ]
  by_type floating step v = elim (as_float host v) [
    | none ↦ err not_a_number
    | some f ↦
        if steps_by_one step && float_beq f (of_int (to_int f))
        then ok (int64 (to_int f))
        else ok (float f)
  ]
  by_type _ step v = ok v

  member : Option ℤ → Option ℤ → Result WriteError (Value Float)
  member (some n) _ = ok (int n)
  member none (some n) = ok (int n)
  member none none = err not_an_enum_value

  -- An enumerated feature, written by a text.
  by_name : Value Float → Entity Float → Option (Result WriteError (Value Float))
  unfolding member
  by_name (str s) e = some (member (lookup (lower s) e.rev_enum) (atoi (trim_space s)))
  by_name _ e = none

  -- resolveWriteValue
  unfoldable pub resolve_write_value : Value Float → Entity Float → Result WriteError (Value Float)
  unfolding by_type by_name
  resolve_write_value v e =
      let plain = by_type e.desc.protocol_type e.step_size v in
      if is_enum e.desc then elim (by_name v e) [ none ↦ plain | some r ↦ r ] else plain
