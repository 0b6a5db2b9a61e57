-- ===== src/Command/Programs.antt =====
-- Programs in internal/bridge/command.go: references to them, the strategy that starts them, and
-- Entities of internal/homeconnect/appliance.go, in whose order labels are matched.
use Prim.Native.Nat.{Ordering}
use Prim.Native.Char.{code}
use Prim.Native.String.{compare}
use go_homeconnect2mqtt.Base.{
  String, Bool, true, false, ◌&&◌, ◌||◌, Option, none, some, is_some, List, [], ◌∷◌, nat_beq,
  if◌then◌else◌,
}
use go_homeconnect2mqtt.Base.Int.{ℤ, ltb_ℤ}
use go_homeconnect2mqtt.Base.Keys.{◌==◌, text_key}
use go_homeconnect2mqtt.Value.{Host}
use go_homeconnect2mqtt.Entity.{EntryKind, program, Entity}
use go_homeconnect2mqtt.Appliance.{
  Appliance, entity_by_name, Strategy, start_standard, start_hob, start_command,
}
use go_homeconnect2mqtt.Translation.{keep_alnum, enum_value}
use go_homeconnect2mqtt.Command.{Setup, Device}

-- isStopValue
unfoldable pub is_stop_value : (String → String) → String → Bool
is_stop_value lower v =
    let s = lower v in s == "off" || s == "stop" || s == "0" || s == "" || s == "false"

-- progLeaf: what stands behind the last dot, where there is one.
unfoldable pub leaf_from : String → String → String
leaf_from String.[] best = best
leaf_from (String.◌∷◌ c s) best = leaf_from s (if nat_beq (code c) b'.' then s else best)

unfoldable pub prog_leaf : String → String
unfolding leaf_from
prog_leaf name = leaf_from name name

-- progNorm
unfoldable pub prog_norm : (String → String) → String → String
unfolding keep_alnum
prog_norm lower s = keep_alnum (lower s)

-- The kinds of the features that stand for a program
abbrev pub is_program : EntryKind → Bool
is_program program = true
is_program _ = false

abbrev pub text_ltb : String → String → Bool
text_ltb a b = elim (compare a b) [ Ordering.lt ↦ true | _ ↦ false ]

module _ {F : Type 0} where
  -- the order of Entities
  abbrev pub before : Entity F → Entity F → Bool
  before a b =
      if a.desc.name == b.desc.name
      then ltb_ℤ a.desc.uid b.desc.uid
      else text_ltb a.desc.name b.desc.name

  unfoldable pub insert_sorted : Entity F → List (Entity F) → List (Entity F)
  insert_sorted e [] = e ∷ []
  insert_sorted e (x ∷ xs) =
      let rest = insert_sorted e xs in if before x e then x ∷ rest else e ∷ x ∷ xs

  -- Entities
  unfoldable pub sorted_entities : List (Entity F) → List (Entity F)
  unfolding insert_sorted
  sorted_entities [] = []
  sorted_entities (e ∷ es) = insert_sorted e (sorted_entities es)

  -- the loop of resolveProgramUID over the entities
  unfoldable pub find_program : (String → String) → String → List (Entity F) → Option ℤ
  unfolding prog_norm prog_leaf
  find_program lower key [] = none
  find_program lower key (e ∷ es) =
      let rest = find_program lower key es in
      if is_program e.desc.kind && prog_norm lower (prog_leaf e.desc.name) == key
      then some e.desc.uid
      else rest

module _ (host : Host) where
  open host use {Float, atoi, lower, equal_fold}

  by_label : Setup Float → String → Appliance Float → Option ℤ
  unfolding find_program sorted_entities prog_norm enum_value
  by_label setup name a =
      let key = prog_norm lower (enum_value lower setup.table name setup.language) in
      if key == "" then none else find_program lower key (sorted_entities a.entities)

  -- resolveProgramUID
  unfoldable pub resolve_program_uid : Setup Float → String → Appliance Float → Option ℤ
  unfolding by_label entity_by_name
  resolve_program_uid setup name a = elim (entity_by_name name a) [
    | some e ↦ some e.desc.uid
    | none ↦ elim (atoi name) [ some uid ↦ some uid | none ↦ by_label setup name a ]
  ]

  -- startStrategy
  unfoldable pub start_strategy : Device → Appliance Float → Strategy
  unfolding entity_by_name
  start_strategy d a =
      if equal_fold d.kind "Hob" || equal_fold d.kind "Cooktop"
      then start_hob
      else if is_some (entity_by_name "BSH.Common.Command.StartProgram" a)
      then start_command
      else start_standard
