-- ===== src/Command/Web.antt =====
-- internal/bridge/dispatch.go: the write path of the web interface.
pub mod Agreement
use go_homeconnect2mqtt.Base.{
  ℕ, String, Bool, Option, none, some, List, [], ◌∷◌, get_elem?, Result, ok, err, if◌then◌else◌,
}
use go_homeconnect2mqtt.Base.Int.{ℤ}
use go_homeconnect2mqtt.Base.Keys.{◌==◌, text_key, lookup}
use go_homeconnect2mqtt.Value.{Value, Host}
use go_homeconnect2mqtt.Entity.{
  EntryKind, program, active_program, selected_program, Entity, writable,
}
use go_homeconnect2mqtt.Appliance.{
  Appliance, entity_by_name, Call, select_program, stop_program, ApplianceError, start_call,
  write_value,
}
use go_homeconnect2mqtt.Handshake.Exec.{SessionError, code_response}
use go_homeconnect2mqtt.Command.{Setup, Device, Attempt}
use go_homeconnect2mqtt.Command.Programs.{is_stop_value, resolve_program_uid, start_strategy}

pub data WebError : Type 0 where
  device_not_found feature_not_found write_refused : WebError
  appliance_error : ApplianceError SessionError → WebError

-- deviceByName
unfoldable pub device_by_name : String → List Device → Option Device
device_by_name name [] = none
device_by_name name (d ∷ ds) =
    let rest = device_by_name name ds in if d.name == name then some d else rest

-- The result of a dispatch, and the calls that it made.
abbrev pub WebDone : Type 0 → Type 0
WebDone F = Result WebError (Unit {0}) × List (Call F)

module _ (host : Host) where
  open host use {Float, lower, print}

  web_reported : Result (ApplianceError SessionError) (Unit {0}) → Result WebError (Unit {0})
  web_reported (ok _) = ok tt
  web_reported (err x) = err (appliance_error x)

  replied : Call Float → Option SessionError → WebDone Float
  replied call none = (ok tt, call ∷ [])
  replied call (some e) = (err (appliance_error (ApplianceError.session_error e)), call ∷ [])

  -- a call of the appliance, whose error is returned
  unfoldable pub web_call :
      Attempt Float → Result (ApplianceError SessionError) (Call Float) → WebDone Float
  unfolding replied
  web_call at (err x) = (err (appliance_error x), [])
  web_call at (ok call) = replied call (at.answer call)

  module _ (setup : Setup Float) (d : Device) (at : Attempt Float) where
    start_web : ℤ → WebDone Float
    unfolding web_call start_strategy
    start_web uid = web_call at (start_call uid (start_strategy host d at.appliance) at.appliance)

    -- The switch of Dispatch on the kind of the entity
    unfoldable pub dispatch_kind : EntryKind → Entity Float → Value Float → WebDone Float
    unfolding web_call start_web is_stop_value resolve_program_uid write_value web_reported writable
    dispatch_kind program e v =
        if is_stop_value lower (print v)
        then web_call at (ok stop_program)
        else start_web e.desc.uid
    dispatch_kind selected_program e v =
        elim (resolve_program_uid host setup (print v) at.appliance) [
          | none ↦ (err feature_not_found, [])
          | some uid ↦ web_call at (ok (select_program uid))
        ]
    dispatch_kind active_program e v =
        if is_stop_value lower (print v)
        then web_call at (ok stop_program)
        else elim (resolve_program_uid host setup (print v) at.appliance) [
          | none ↦ (err feature_not_found, [])
          | some uid ↦ start_web uid
        ]
    dispatch_kind _ e v =
        if writable e
        then (let r = write_value host at.answer e.desc.uid v at.appliance in
            (web_reported r.0, r.1))
        else (err write_refused, [])

  -- Dispatch: `at` is what each device's appliance is and does.
  unfoldable pub web_dispatch :
      Setup Float
      → List Device
      → (Device → Attempt Float)
      → String
      → String
      → Value Float
      → WebDone Float
  unfolding dispatch_kind device_by_name entity_by_name
  web_dispatch setup devices at name feature v = elim (device_by_name name devices) [
    | none ↦ (err device_not_found, [])
    | some d ↦ elim (entity_by_name feature (at d).appliance) [
      | none ↦ (err feature_not_found, [])
      | some e ↦ dispatch_kind setup d (at d) e.desc.kind e v
    ]
  ]

-- DeviceErrorCode
unfoldable pub device_error_code : WebError → Option ℤ
device_error_code (appliance_error (ApplianceError.session_error (code_response e))) = some e.code
device_error_code _ = none
