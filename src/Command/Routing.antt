-- ===== src/Command/Routing.antt =====
-- handleSet of internal/bridge/command.go: from a topic to the calls that it leads to.
pub mod Endings
pub mod Started
pub mod Reached
pub mod Answered
use go_homeconnect2mqtt.Base.{
  ℕ, String, Bool, true, false, ◌||◌, Option, none, some, is_some, List, [], ◌∷◌, get_elem?, Result,
  ok, if◌then◌else◌,
}
use go_homeconnect2mqtt.Base.Int.{ℤ}
use go_homeconnect2mqtt.Base.Keys.{◌==◌, text_key, int_key, lookup}
use go_homeconnect2mqtt.Value.{Value, Host}
use go_homeconnect2mqtt.Entity.{EntryKind, program, active_program, selected_program, Entity}
use go_homeconnect2mqtt.Appliance.{Appliance, Call, stop_program}
use go_homeconnect2mqtt.Layout.{
  SmartHome, Target, by_name, by_uid, control_path, control_start_program, control_stop_program,
  feature_name, relative,
}
use go_homeconnect2mqtt.Command.{
  SetValue, Setup, Device, Attempt, Request, Reason, unknown_feature, command_rejected, Ending,
  ignored, Done, reject,
}
use go_homeconnect2mqtt.Command.Programs.{is_stop_value}
use go_homeconnect2mqtt.Command.Requests.{
  value_of_set, run_program_call, start_program, start_named_program, select_named_program,
  start_selected_program,
}
use go_homeconnect2mqtt.Command.Window.{window}

module _ {F : Type 0} where
  -- resolveEntity: the position of the entity that a path is for
  unfoldable pub resolve_entity : Target → Appliance F → Option ℕ
  resolve_entity (by_uid uid) a = lookup uid a.by_uid
  resolve_entity (by_name name) a = if name == "" then none else lookup name a.by_name

  abbrev pub ignore : Done F
  ignore = record { calls = []; ending = ignored }

-- The kinds that take a plain value only
abbrev pub takes_program : EntryKind → Bool
takes_program program = true
takes_program active_program = true
takes_program selected_program = true
takes_program _ = false

module _ (sh : SmartHome) (host : Host) where
  open host use {Float, lower}

  module _ (setup : Setup Float) (d : Device) (seen : ℕ → Attempt Float) where
    write_feature : ℕ → Option (Value Float) → Done Float
    unfolding window
    write_feature i none = reject command_rejected
    write_feature i (some v) = window host i v seen setup.retries 0

    -- the switch on the kind of the entity
    unfoldable pub by_kind : EntryKind → ℕ → Entity Float → SetValue Float → Done Float
    unfolding run_program_call is_stop_value start_program start_named_program select_named_program
        write_feature value_of_set
    by_kind program i e v = start_program host setup d (seen 0) e.desc.uid v.text
    by_kind selected_program i e v = select_named_program host setup d (seen 0) v.text
    by_kind active_program i e v =
        if is_stop_value lower v.text
        then run_program_call host (seen 0) (ok stop_program)
        else start_named_program host setup d (seen 0) v.text
    by_kind _ i e v = write_feature i (value_of_set host setup e v)

    -- handleSet, behind the resolution of the entity
    unfoldable pub apply_set : ℕ → Entity Float → SetValue Float → Done Float
    unfolding by_kind
    apply_set i e v =
        if takes_program e.desc.kind
        then (if is_some v.params then reject command_rejected else by_kind e.desc.kind i e v)
        else by_kind e.desc.kind i e v

    at_position : Option ℕ → SetValue Float → Done Float
    unfolding apply_set
    at_position none v = reject unknown_feature
    at_position (some i) v = elim (get_elem? (seen 0).appliance.entities i) [
      | none ↦ reject unknown_feature
      | some e ↦ apply_set i e v
    ]

    -- handleSet behind `Relative`, handleProgramControl included
    unfoldable pub at_path : String → SetValue Float → Done Float
    unfolding start_selected_program run_program_call resolve_entity at_position feature_name
        control_path
    at_path rel v =
        if rel == control_path control_start_program
        then start_selected_program host setup d (seen 0)
        else if rel == control_path control_stop_program
        then run_program_call host (seen 0) (ok stop_program)
        else at_position (resolve_entity (feature_name sh rel) (seen 0).appliance) v

    -- onCommand with shouldDispatch, and handleSet
    unfoldable pub on_command : Request Float → Done Float
    unfolding at_path relative
    on_command r = elim (relative sh d.ha_id r.topic) [
      | none ↦ ignore
      | some rel ↦ if r.retained then ignore else at_path rel r.value
    ]
