-- ===== src/Appliance.antt =====
-- internal/homeconnect/appliance.go: the entities of an appliance with their two indexes, the
-- routing of updates, and the writes. Entities are shared by pointer in the source: here they
-- stand in one list, and the indexes hold their positions.
pub mod Index
pub mod Routing
pub mod Gate
use go_homeconnect2mqtt.Base.{
  ℕ, String, Bool, true, false, Option, none, some, is_some, List, [], ◌∷◌, ◌++◌, length, get_elem?,
  set, Result, ok, err, if◌then◌else◌,
}
use go_homeconnect2mqtt.Base.Int.{ℤ}
use go_homeconnect2mqtt.Base.Keys.{◌==◌, text_key, int_key, lookup, insert}
use go_homeconnect2mqtt.Value.{Value, int, bool, composite, Host, as_int}
use go_homeconnect2mqtt.Message.{Item, Message, Action, post, delete}
use go_homeconnect2mqtt.Entity.{
  Entry, Entity, WriteError, writable, new_entity, update, resolve_write_value,
}

-- `updated` are the entities that OnUpdate was called for, newest first.
pub record Appliance (F : Type 0) : Type 0 where
  pub entities : List (Entity F)
  pub by_uid : List (ℤ × ℕ)
  pub by_name : List (String × ℕ)
  pub has_on_update : Bool
  pub updated : List ℕ

-- Entity and EntityByName
unfoldable pub entity_at : {F : Type 0} → Option ℕ → Appliance F → Option (Entity F)
entity_at none a = none
entity_at (some i) a = get_elem? a.entities i

unfoldable pub entity : {F : Type 0} → ℤ → Appliance F → Option (Entity F)
unfolding entity_at
entity uid a = entity_at (lookup uid a.by_uid) a

unfoldable pub entity_by_name : {F : Type 0} → String → Appliance F → Option (Entity F)
unfolding entity_at
entity_by_name name a = entity_at (lookup name a.by_name) a

-- ProgramStartStrategy
pub data Strategy : Type 0 where
  start_standard start_hob start_command : Strategy

-- What the appliance asks of its session.
pub data Call (F : Type 0) : Type 0 where
  write_values : ℤ → Value F → Call F  -- WriteValues with one item: uid and value
  select_program : ℤ → Call F  -- POST /ro/selectedProgram with a program
  start_program : ℤ → Call F  -- POST /ro/activeProgram with a program
  stop_program : Call F  -- DELETE /ro/activeProgram

pub data ApplianceError (E : Type 0) : Type 0 where
  unknown_uid not_writable no_start_command : ApplianceError E
  unresolved : WriteError → ApplianceError E
  session_error : E → ApplianceError E

-- StartProgram, SelectProgram and StopActiveProgram without options, as the bridge calls them:
-- the call that they make of the session.
unfoldable pub start_call :
    {E F : Type 0} → ℤ → Strategy → Appliance F → Result (ApplianceError E) (Call F)
unfolding entity_by_name
start_call uid start_hob a = ok (select_program uid)
start_call uid start_command a = elim (entity_by_name "BSH.Common.Command.StartProgram" a) [
  | none ↦ err no_start_command
  | some e ↦ ok (write_values e.desc.uid (bool true))
]
start_call uid start_standard a = ok (start_program uid)

module _ (host : Host) where
  open host use {Float}

  -- the body of the loop of buildEntities
  unfoldable pub add_entry : Entry Float → Appliance Float → Appliance Float
  add_entry d a =
      let i = length a.entities in
      record a {
        entities = a.entities ++ new_entity host d ∷ [];
        by_uid = insert d.uid i a.by_uid;
        by_name = if d.name == "" then a.by_name else insert d.name i a.by_name;
      }

  -- buildEntities
  unfoldable pub build : List (Entry Float) → Appliance Float → Appliance Float
  build [] a = a
  build (d ∷ ds) a = build ds (add_entry d a)

  -- NewAppliance
  unfoldable pub new_appliance : Bool → List (Entry Float) → Appliance Float
  new_appliance on_update ds =
      build ds (record {
        entities = [];
        by_uid = [];
        by_name = [];
        has_on_update = on_update;
        updated = [];
      })

  -- e.update(item) for the entity at a position, and the callback
  unfoldable pub update_at : Item Float → ℕ → Appliance Float → Appliance Float
  update_at item i a = elim (get_elem? a.entities i) [
    | none ↦ a
    | some e ↦ record a {
      entities = set a.entities i (update host item e);
      updated = if a.has_on_update then i ∷ a.updated else a.updated;
    }
  ]

  -- asInt(item["uid"]): a missing key is nil, which is no number.
  abbrev pub uid_of : Item Float → Option ℤ
  uid_of item = elim (lookup "uid" item) [ none ↦ none | some v ↦ as_int host v ]

  -- applyItem
  unfoldable pub apply_item : Item Float → Appliance Float → Appliance Float
  unfolding update_at
  apply_item item a = elim (uid_of item) [
    | none ↦ a
    | some uid ↦ elim (lookup uid a.by_uid) [ none ↦ a | some i ↦ update_at item i a ]
  ]

  -- ApplyValues, and the loop of applyMessage
  unfoldable pub apply_values : List (Item Float) → Appliance Float → Appliance Float
  apply_values [] a = a
  apply_values (item ∷ items) a = apply_values items (apply_item item a)

  -- applyMessage
  unfoldable pub apply_message : Option (Message Float) → Appliance Float → Appliance Float
  apply_message none a = a
  apply_message (some m) a = apply_values m.items a

  -- handleNotify
  unfoldable pub handle_notify : Message Float → Appliance Float → Appliance Float
  handle_notify m a =
      if m.resource == "/ro/values"
      then apply_message (some m) a
      else if m.resource == "/ro/descriptionChange"
      then apply_message (some m) a
      else a

  -- WriteValue, up to its call of the session
  unfoldable pub prepare_write :
      {E : Type 0} → ℤ → Value Float → Appliance Float → Result (ApplianceError E) (Call Float)
  unfolding entity
  prepare_write uid v a = elim (entity uid a) [
    | none ↦ err unknown_uid
    | some e ↦
        if writable e
        then elim (resolve_write_value host v e) [
          | err x ↦ err (unresolved x)
          | ok raw ↦ ok (write_values uid raw)
        ]
        else err not_writable
  ]

  -- The optimistic shadow value behind a write that the appliance accepted.
  set_shadow : Value Float → ℕ → Appliance Float → Appliance Float
  set_shadow raw i a = elim (get_elem? a.entities i) [
    | none ↦ a
    | some e ↦ record a { entities = set a.entities i (record e { value_shadow = raw }) }
  ]

  accepted : Call Float → Appliance Float → Appliance Float
  unfolding set_shadow
  accepted (write_values uid raw) a = elim (lookup uid a.by_uid) [
    | none ↦ a
    | some i ↦ set_shadow raw i a
  ]
  accepted _ a = a

  sent :
      {E : Type 0}
      → Call Float
      → Option E
      → Appliance Float
      → Result (ApplianceError E) (Unit {0}) × List (Call Float) × Appliance Float
  unfolding accepted
  sent call (some e) a = (err (session_error e), call ∷ [], a)
  sent call none a = (ok tt, call ∷ [], accepted call a)

  -- WriteValue: its result, what it asked of the session, and the appliance behind it. The session
  -- answers a call with an error or with none.
  unfoldable pub write_value :
      {E : Type 0}
      → (Call Float → Option E)
      → ℤ
      → Value Float
      → Appliance Float
      → Result (ApplianceError E) (Unit {0}) × List (Call Float) × Appliance Float
  unfolding sent prepare_write
  write_value session uid v a = elim (prepare_write uid v a) [
    | err x ↦ (err x, [], a)
    | ok call ↦ sent call (session call) a
  ]
