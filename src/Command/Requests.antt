-- ===== src/Command/Requests.antt =====
-- The calls that internal/bridge/command.go makes for programs, and the value that it writes.
use go_homeconnect2mqtt.Base.{
  String, Bool, true, false, Option, none, some, [], ◌∷◌, Result, ok, err, if◌then◌else◌,
}
use go_homeconnect2mqtt.Base.Int.{ℤ, pos}
use go_homeconnect2mqtt.Base.Keys.{◌==◌, text_key}
use go_homeconnect2mqtt.Value.{
  Value, bool, float, str, Host, ProtocolType, boolean, integer, floating, object,
}
use go_homeconnect2mqtt.Entity.{Entity, is_enum, value}
use go_homeconnect2mqtt.Appliance.{
  entity_by_name, Call, select_program, stop_program, ApplianceError, start_call,
}
use go_homeconnect2mqtt.Translation.{enum_value}
use go_homeconnect2mqtt.Handshake.Exec.{SessionError}
use go_homeconnect2mqtt.Command.{
  SetValue, Setup, Device, Attempt, no_selected_program, no_program_selected, unknown_program,
  program_call_failed, succeeded, rejected, Done, reject,
}
use go_homeconnect2mqtt.Command.Programs.{is_stop_value, resolve_program_uid, start_strategy}

abbrev object_typed : ProtocolType → Bool
object_typed object = true
object_typed _ = false

module _ (host : Host) where
  open host use {Float, of_int, is_positive, lower}

  abbrev step_of : ProtocolType → Option Float → Float
  step_of integer (some s) = if is_positive s then s else of_int (pos 1)
  step_of integer none = of_int (pos 1)
  step_of _ (some s) = if is_positive s then s else of_int (pos 0)
  step_of _ none = of_int (pos 0)

  plain_value : ProtocolType → Entity Float → SetValue Float → Option (Value Float)
  plain_value boolean e v = elim v.as_bool [ none ↦ none | some b ↦ some (bool b) ]
  plain_value integer e v = elim (v.number e.min e.max (step_of integer e.step_size)) [
    | none ↦ none
    | some f ↦ some (float f)
  ]
  plain_value floating e v = elim (v.number e.min e.max (step_of floating e.step_size)) [
    | none ↦ none
    | some f ↦ some (float f)
  ]
  plain_value _ e v = some (str v.text)

  -- writeValue; none is an error.
  unfoldable pub value_of_set : Setup Float → Entity Float → SetValue Float → Option (Value Float)
  unfolding plain_value enum_value
  value_of_set setup e v = elim v.params [
    | some json ↦ if object_typed e.desc.protocol_type then setup.parse_json json else none
    | none ↦
        if is_enum e.desc
        then some (str (enum_value lower setup.table v.text setup.language))
        else plain_value e.desc.protocol_type e v
  ]

  answered : Call Float → Option SessionError → Done Float
  answered call none = record { calls = call ∷ []; ending = succeeded }
  answered call (some e) = record { calls = call ∷ []; ending = rejected program_call_failed }

  -- runProgramCall
  unfoldable pub run_program_call :
      Attempt Float → Result (ApplianceError SessionError) (Call Float) → Done Float
  unfolding answered
  run_program_call at (err e) = reject program_call_failed
  run_program_call at (ok call) = answered call (at.answer call)

  module _ (setup : Setup Float) (d : Device) (at : Attempt Float) where
    -- startProgram
    unfoldable pub start_program : ℤ → String → Done Float
    unfolding run_program_call is_stop_value start_strategy
    start_program uid text =
        if is_stop_value lower text
        then run_program_call at (ok stop_program)
        else run_program_call at (start_call uid (start_strategy host d at.appliance) at.appliance)

    -- startNamedProgram
    unfoldable pub start_named_program : String → Done Float
    unfolding start_program resolve_program_uid
    start_named_program text = elim (resolve_program_uid host setup text at.appliance) [
      | none ↦ reject unknown_program
      | some uid ↦ start_program uid text
    ]

    -- selectNamedProgram
    unfoldable pub select_named_program : String → Done Float
    unfolding run_program_call resolve_program_uid
    select_named_program text = elim (resolve_program_uid host setup text at.appliance) [
      | none ↦ reject unknown_program
      | some uid ↦ run_program_call at (ok (select_program uid))
    ]

    unfoldable pub start_selected : Value Float → Done Float
    unfolding start_named_program
    start_selected (str sel) =
        if sel == "" then reject no_program_selected else start_named_program sel
    start_selected _ = reject no_program_selected

    -- startSelectedProgram
    unfoldable pub start_selected_program : Done Float
    unfolding start_selected value entity_by_name
    start_selected_program = elim (entity_by_name "BSH.Common.Root.SelectedProgram" at.appliance) [
      | none ↦ reject no_selected_program
      | some e ↦ start_selected (value host e)
    ]
