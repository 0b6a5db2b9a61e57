-- ===== src/Command/Web/Agreement.antt =====
-- The two ways to a program: the MQTT command tree (internal/bridge/command.go) and the web
-- interface (internal/bridge/dispatch.go).
use go_homeconnect2mqtt.Base.{
  ℕ, String, ◌≡◌, inl, inr, refl, ap, Bool, true, false, Bool-cases, Option-cases, none, is_some,
  Result, ok, err, if◌then◌else◌,
}
use go_homeconnect2mqtt.Base.Int.{ℤ}
use go_homeconnect2mqtt.Value.{Value, Host}
use go_homeconnect2mqtt.Entity.{EntryKind, program, active_program, selected_program, Entity}
use go_homeconnect2mqtt.Appliance.{Call, stop_program, select_program, ApplianceError, start_call}
use go_homeconnect2mqtt.Handshake.Exec.{SessionError}
use go_homeconnect2mqtt.Layout.{SmartHome}
use go_homeconnect2mqtt.Command.{SetValue, Setup, Device, Attempt, Ending, succeeded, Done}
use go_homeconnect2mqtt.Command.Programs.{is_stop_value, resolve_program_uid, start_strategy}
use go_homeconnect2mqtt.Command.Requests.{
  run_program_call, start_program, start_named_program, select_named_program,
}
use go_homeconnect2mqtt.Command.Routing.{takes_program, by_kind, apply_set}
use go_homeconnect2mqtt.Command.Web.{WebDone, web_call, start_web, dispatch_kind}

abbrev pub has_succeeded : Ending → Bool
has_succeeded succeeded = true
has_succeeded _ = false

abbrev pub was_done : {F : Type 0} → WebDone F → Bool
was_done (ok _, _) = true
was_done (err _, _) = false

-- The same calls, and both succeed or neither.
abbrev pub Agree : {F : Type 0} → Done F → WebDone F → Type 0
Agree a b = (a.calls ≡ b.1) × (has_succeeded a.ending ≡ was_done b)

module _ (host : Host) where
  open host use {Float, lower, print}

  run_program_call-web_call :
      (at : Attempt Float) (r : Result (ApplianceError SessionError) (Call Float))
      → Agree (run_program_call host at r) (web_call host at r)
  unfolding run_program_call web_call
  run_program_call-web_call at (err x) = (refl, refl)
  run_program_call-web_call at (ok c) = elim (Option-cases (at.answer c)) [
    | inl fine ↦ rw fine (refl, refl)
    | inr (x, bad) ↦ rw bad (refl, refl)
  ]

  module _ (setup : Setup Float) (d : Device) (at : Attempt Float) where
    start_program-start_web :
        (uid : ℤ) (text : String)
        → is_stop_value lower text ≡ false
        → Agree (start_program host setup d at uid text) (start_web host setup d at uid)
    unfolding start_program start_web
    start_program-start_web uid text go =
        rw (start_program, start_web, go)
          (run_program_call-web_call at
            (start_call uid (start_strategy host d at.appliance) at.appliance))

    program_agrees :
        (e : Entity Float) (w : Value Float)
        → Agree
            (start_program host setup d at e.desc.uid (print w))
            (dispatch_kind host setup d at program e w)
    unfolding start_program dispatch_kind
    program_agrees e w = elim (Bool-cases (is_stop_value lower (print w))) [
      | inl halt ↦ rw halt (run_program_call-web_call at (ok stop_program))
      | inr go ↦ rw go (
          run_program_call-web_call at
            (start_call e.desc.uid (start_strategy host d at.appliance) at.appliance))
    ]

    selected_agrees :
        (e : Entity Float) (w : Value Float)
        → Agree
            (select_named_program host setup d at (print w))
            (dispatch_kind host setup d at selected_program e w)
    unfolding select_named_program dispatch_kind
    selected_agrees e w =
        elim (Option-cases (resolve_program_uid host setup (print w) at.appliance)) [
          | inl unknown ↦ rw (select_named_program, dispatch_kind, unknown) (refl, refl)
          | inr (uid, known) ↦
              rw (select_named_program, dispatch_kind, known)
                (run_program_call-web_call at (ok (select_program uid)))
        ]

    active_agrees :
        (e : Entity Float) (w : Value Float)
        → Agree
            (if is_stop_value lower (print w)
              then run_program_call host at (ok stop_program)
              else start_named_program host setup d at (print w))
            (dispatch_kind host setup d at active_program e w)
    unfolding start_named_program dispatch_kind
    active_agrees e w = elim (Bool-cases (is_stop_value lower (print w))) [
      | inl halt ↦ rw halt (run_program_call-web_call at (ok stop_program))
      | inr go ↦ elim (Option-cases (resolve_program_uid host setup (print w) at.appliance)) [
        | inl unknown ↦ rw (start_named_program, dispatch_kind, go, unknown) (refl, refl)
        | inr (uid, known) ↦
            rw (start_named_program, dispatch_kind, go, known)
              (start_program-start_web uid (print w) go)
      ]
    ]

  module _ (sh : SmartHome) (setup : Setup Float) (d : Device) (seen : ℕ → Attempt Float) where
    by_kind-dispatch_kind :
        (k : EntryKind) (i : ℕ) (e : Entity Float) (v : SetValue Float) (w : Value Float)
        → takes_program k ≡ true
        → print w ≡ v.text
        → Agree (by_kind sh host setup d seen k i e v) (dispatch_kind host setup d (seen 0) k e w)
    unfolding by_kind
    by_kind-dispatch_kind program i e v w t p = rw (← p) (program_agrees setup d (seen 0) e w)
    by_kind-dispatch_kind selected_program i e v w t p =
        rw (← p) (selected_agrees setup d (seen 0) e w)
    by_kind-dispatch_kind active_program i e v w t p = rw (← p) (active_agrees setup d (seen 0) e w)
    by_kind-dispatch_kind _ i e v w t p = cc

    -- A set over MQTT and a write of the web interface on a program, the active or the selected
    -- program make the same calls of the appliance, and both succeed or neither, where the set is
    -- a plain text and the web's value prints as that text.
    pub mqtt_agrees_with_web :
        (i : ℕ) (e : Entity Float) (v : SetValue Float) (w : Value Float)
        → takes_program e.desc.kind ≡ true
        → v.params ≡ none
        → print w ≡ v.text
        → Agree
            (apply_set sh host setup d seen i e v)
            (dispatch_kind host setup d (seen 0) e.desc.kind e w)
    unfolding apply_set
    mqtt_agrees_with_web i e v w t plain p =
        let bare : is_some v.params ≡ false = ap is_some plain in
        rw (t, bare) (by_kind-dispatch_kind e.desc.kind i e v w t p)
