-- ===== src/Command/Routing/Started.antt =====
-- How the calls for programs of internal/bridge/command.go end.
use go_homeconnect2mqtt.Base.{
  ℕ, Bool, String, inl, inr, refl, Bool-cases, Option-cases, Result, ok, err, arith,
}
use go_homeconnect2mqtt.Base.Int.{ℤ}
use go_homeconnect2mqtt.Base.Keys.{◌==◌, text_key}
use go_homeconnect2mqtt.Value.{Value, Host}
use go_homeconnect2mqtt.Entity.{value}
use go_homeconnect2mqtt.Appliance.{
  entity_by_name, Call, stop_program, ApplianceError, start_call, select_program,
}
use go_homeconnect2mqtt.Handshake.Exec.{SessionError}
use go_homeconnect2mqtt.Command.{Setup, Device, Attempt}
use go_homeconnect2mqtt.Command.Requests.{
  run_program_call, start_program, start_named_program, select_named_program, start_selected,
  start_selected_program,
}
use go_homeconnect2mqtt.Command.Programs.{is_stop_value, resolve_program_uid, start_strategy}
use go_homeconnect2mqtt.Command.Routing.Endings.{AnswersWithin}

module _ (host : Host) where
  open host use {Float, lower}

  pub run_program_call-AnswersWithin :
      (b : Bool) (n : ℕ) (at : Attempt Float)
      (r : Result (ApplianceError SessionError) (Call Float))
      → AnswersWithin b n (run_program_call host at r)
  unfolding run_program_call
  run_program_call-AnswersWithin b n at (err x) = (refl, omega arith)
  run_program_call-AnswersWithin b n at (ok c) = elim (Option-cases (at.answer c)) [
    | inl fine ↦ rw fine (refl, omega arith)
    | inr (x, bad) ↦ rw bad (refl, omega arith)
  ]

  module _ (b : Bool) (n : ℕ) (setup : Setup Float) (d : Device) (at : Attempt Float) where
    pub start_program-AnswersWithin :
        (uid : ℤ) (text : String) → AnswersWithin b n (start_program host setup d at uid text)
    unfolding start_program
    start_program-AnswersWithin uid text = elim (Bool-cases (is_stop_value lower text)) [
      | inl halt ↦
          rw (start_program, halt) (run_program_call-AnswersWithin b n at (ok stop_program))
      | inr go ↦
          rw (start_program, go)
            (run_program_call-AnswersWithin b n at
              (start_call uid (start_strategy host d at.appliance) at.appliance))
    ]

    pub start_named_program-AnswersWithin :
        (text : String) → AnswersWithin b n (start_named_program host setup d at text)
    unfolding start_named_program
    start_named_program-AnswersWithin text =
        elim (Option-cases (resolve_program_uid host setup text at.appliance)) [
          | inl unknown ↦ rw (start_named_program, unknown) (refl, omega arith)
          | inr (uid, known) ↦
              rw (start_named_program, known) (start_program-AnswersWithin uid text)
        ]

    pub select_named_program-AnswersWithin :
        (text : String) → AnswersWithin b n (select_named_program host setup d at text)
    unfolding select_named_program
    select_named_program-AnswersWithin text =
        elim (Option-cases (resolve_program_uid host setup text at.appliance)) [
          | inl unknown ↦ rw (select_named_program, unknown) (refl, omega arith)
          | inr (uid, known) ↦
              rw (select_named_program, known)
                (run_program_call-AnswersWithin b n at (ok (select_program uid)))
        ]

    start_selected-AnswersWithin :
        (v : Value Float) → AnswersWithin b n (start_selected host setup d at v)
    unfolding start_selected
    start_selected-AnswersWithin (Value.str sel) = elim (Bool-cases (sel == "")) [
      | inl empty ↦ rw empty (refl, omega arith)
      | inr named ↦ rw named (start_named_program-AnswersWithin sel)
    ]
    start_selected-AnswersWithin _ = (refl, omega arith)

    pub start_selected_program-AnswersWithin :
        AnswersWithin b n (start_selected_program host setup d at)
    unfolding start_selected_program
    start_selected_program-AnswersWithin =
        elim (Option-cases (entity_by_name "BSH.Common.Root.SelectedProgram" at.appliance)) [
          | inl gone ↦ rw (start_selected_program, gone) (refl, omega arith)
          | inr (e, there) ↦
              rw (start_selected_program, there) (start_selected-AnswersWithin (value host e))
        ]
