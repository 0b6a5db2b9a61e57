-- ===== src/Command/Routing/Answered.antt =====
-- How a set on a command topic ends (internal/bridge/command.go).
use go_homeconnect2mqtt.Base.{
  ℕ, String, ◌≡◌, ◌⊎◌, ◌↔◌, inl, inr, refl, Bool, true, false, Bool-cases, Option-cases, Option,
  none, some, is_some, length, ok, get_elem?, arith,
}
use go_homeconnect2mqtt.Base.Keys.{◌==◌, text_key}
use go_homeconnect2mqtt.Value.{Value, Host}
use go_homeconnect2mqtt.Entity.{EntryKind, program, active_program, selected_program, Entity}
use go_homeconnect2mqtt.Appliance.{stop_program}
use go_homeconnect2mqtt.Layout.{
  SmartHome, feature_name, relative, control_path, control_start_program, control_stop_program,
}
use go_homeconnect2mqtt.Command.{SetValue, Setup, Device, Attempt, Request, ignored, Done}
use go_homeconnect2mqtt.Command.Requests.{value_of_set}
use go_homeconnect2mqtt.Command.Window.Retries.{window-calls}
use go_homeconnect2mqtt.Command.Programs.{is_stop_value}
use go_homeconnect2mqtt.Command.Routing.{
  resolve_entity, takes_program, write_feature, by_kind, apply_set, at_position, at_path,
  on_command,
}
use go_homeconnect2mqtt.Command.Routing.Endings.{
  cancels_within, is_answered, AnswersWithin, Answers, window-Answers,
}
use go_homeconnect2mqtt.Command.Routing.Started.{
  run_program_call-AnswersWithin, start_program-AnswersWithin, start_named_program-AnswersWithin,
  select_named_program-AnswersWithin, start_selected_program-AnswersWithin,
}

answered_not_ignored :
    {F : Type 0} (gone : Bool) (done : Done F) → Answers gone done → done.ending ≡ ignored → ⊥
answered_not_ignored gone done h e =
    let no : is_answered gone ignored (length done.calls) ≡ true = rw e at h in cc

module _ (sh : SmartHome) (host : Host) (setup : Setup host.Float) (d : Device)
    (seen : ℕ → Attempt host.Float) where
  open host use {Float, lower}

  abbrev ends : Bool
  ends = cancels_within seen setup.retries 0

  abbrev Fits : Done Float → Type 0
  Fits = AnswersWithin ends setup.retries

  write_feature-Fits :
      (i : ℕ) (v : Option (Value Float)) → Fits (write_feature sh host setup d seen i v)
  unfolding write_feature
  write_feature-Fits i none = (refl, omega arith)
  write_feature-Fits i (some v) =
      (window-Answers host i v seen setup.retries 0, (window-calls host i v seen setup.retries 0).0)

  by_kind-Fits :
      (k : EntryKind) (i : ℕ) (e : Entity Float) (v : SetValue Float)
      → Fits (by_kind sh host setup d seen k i e v)
  unfolding by_kind
  by_kind-Fits program i e v =
      start_program-AnswersWithin host ends setup.retries setup d (seen 0) e.desc.uid v.text
  by_kind-Fits selected_program i e v =
      select_named_program-AnswersWithin host ends setup.retries setup d (seen 0) v.text
  by_kind-Fits active_program i e v = elim (Bool-cases (is_stop_value lower v.text)) [
    | inl halt ↦
        rw halt (run_program_call-AnswersWithin host ends setup.retries (seen 0) (ok stop_program))
    | inr go ↦
        rw go (start_named_program-AnswersWithin host ends setup.retries setup d (seen 0) v.text)
  ]
  by_kind-Fits _ i e v = write_feature-Fits i (value_of_set host setup e v)

  apply_set-Fits :
      (i : ℕ) (e : Entity Float) (v : SetValue Float) → Fits (apply_set sh host setup d seen i e v)
  unfolding apply_set
  apply_set-Fits i e v = elim (Bool-cases (takes_program e.desc.kind)) [
    | inr other ↦ rw (apply_set, other) (by_kind-Fits e.desc.kind i e v)
    | inl starts ↦ elim (Bool-cases (is_some v.params)) [
      | inl structured ↦ rw (apply_set, starts, structured) (refl, omega arith)
      | inr plain ↦ rw (apply_set, starts, plain) (by_kind-Fits e.desc.kind i e v)
    ]
  ]

  at_position-Fits :
      (i : Option ℕ) (v : SetValue Float) → Fits (at_position sh host setup d seen i v)
  unfolding at_position
  at_position-Fits none v = (refl, omega arith)
  at_position-Fits (some i) v = elim (Option-cases (get_elem? (seen 0).appliance.entities i)) [
    | inl gone ↦ rw (at_position, gone) (refl, omega arith)
    | inr (e, there) ↦ rw (at_position, there) (apply_set-Fits i e v)
  ]

  at_path-Fits : (rel : String) (v : SetValue Float) → Fits (at_path sh host setup d seen rel v)
  unfolding at_path
  at_path-Fits rel v = elim (Bool-cases (rel == control_path control_start_program)) [
    | inl go ↦
        rw (at_path, go)
          (start_selected_program-AnswersWithin host ends setup.retries setup d (seen 0))
    | inr no_start ↦ elim (Bool-cases (rel == control_path control_stop_program)) [
      | inl halt ↦
          rw (at_path, no_start, halt)
            (run_program_call-AnswersWithin host ends setup.retries (seen 0) (ok stop_program))
      | inr feature ↦
          rw (at_path, no_start, feature)
            (at_position-Fits (resolve_entity (feature_name sh rel) (seen 0).appliance) v)
    ]
  ]

  pub set_is_answered :
      (r : Request Float) (rel : String)
      → relative sh d.ha_id r.topic ≡ some rel
      → r.retained ≡ false
      → AnswersWithin
          (cancels_within seen setup.retries 0)
          setup.retries
          (on_command sh host setup d seen r)
  unfolding on_command
  set_is_answered r rel ours live = rw (on_command, ours, live) (at_path-Fits rel r.value)

  unheard :
      (r : Request Float) (rel : String)
      → relative sh d.ha_id r.topic ≡ some rel
      → r.retained ≡ false
      → (r.retained ≡ true) ⊎ (relative sh d.ha_id r.topic ≡ none)
      → ⊥
  unheard r rel ours live (inl stored) = cc
  unheard r rel ours live (inr other) = cc

  -- A set is ignored if it is retained or its topic is no command topic of the device, and else not.
  pub set_is_ignored_only :
      (r : Request Float)
      → ((on_command sh host setup d seen r).ending ≡ ignored)
        ↔ ((r.retained ≡ true) ⊎ (relative sh d.ha_id r.topic ≡ none))
  unfolding on_command
  set_is_ignored_only r = elim (Option-cases (relative sh d.ha_id r.topic)) [
    | inl other ↦ (λ _. inr other, λ _. rw (on_command, other) refl)
    | inr (rel, ours) ↦ elim (Bool-cases r.retained) [
      | inl stored ↦ (λ _. inl stored, λ _. rw (on_command, ours, stored) refl)
      | inr live ↦
          let heard = (set_is_answered r rel ours live).0 in
          (
            λ e. absurd (answered_not_ignored ends _ heard e),
            λ h. absurd (unheard r rel ours live h),
          )
    ]
  ]
