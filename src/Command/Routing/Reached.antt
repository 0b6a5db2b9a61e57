-- ===== src/Command/Routing/Reached.antt =====
-- A set on the command topic of a feature (internal/layout/layout.go) and the feature that
-- internal/bridge/command.go applies it to.
use go_homeconnect2mqtt.Base.{ℕ, String, ◌≡◌, ◌≢◌, refl, false, none, some, get_elem?}
use go_homeconnect2mqtt.Base.Int.{ℤ}
use go_homeconnect2mqtt.Base.Keys.{◌==◌, text_key}
use go_homeconnect2mqtt.Value.{Host}
use go_homeconnect2mqtt.Entity.{Entity}
use go_homeconnect2mqtt.Layout.{
  SmartHome, command, relative, cut_prefix, feature_path, control_path, control_start_program,
  control_stop_program,
}
use go_homeconnect2mqtt.Layout.Topics.{relative-command}
use go_homeconnect2mqtt.Layout.RoundTrip.{
  IsSafe, has_slash, dots_to_slashes, feature_of, feature_name-feature_path,
}
use go_homeconnect2mqtt.Command.{Setup, Device, Attempt, Request}
use go_homeconnect2mqtt.Command.Routing.{
  resolve_entity, at_position, at_path, apply_set, on_command,
}

-- A name and a uid whose path stands for that feature and for no other thing.
abbrev pub HasTopic : SmartHome → String → ℤ → Type 0
HasTopic sh name uid =
    IsSafe sh name uid
    × (has_slash name ≡ false)
    × (cut_prefix "_uid/" (dots_to_slashes name) ≡ none)
    × (sh.atoi (sh.itoa uid) ≡ some uid)
    × (feature_path sh name uid ≢ "")
    × ((feature_path sh name uid == control_path control_start_program) ≡ false)
    × ((feature_path sh name uid == control_path control_stop_program) ≡ false)

module _ (sh : SmartHome) (host : Host) (setup : Setup host.Float) (d : Device)
    (seen : ℕ → Attempt host.Float) where
  open host use {Float}

  -- A set that is not retained, on the command topic of a feature of this device, is applied to
  -- that feature: the bridge finds the entity that the appliance's index has for it. The feature's
  -- name is made of topic levels as they are, and its path is no control's and no uid's.
  pub set_reaches_feature :
      (r : Request Float) (i : ℕ) (e : Entity Float)
      → r.topic ≡ command sh d.ha_id e.desc.name e.desc.uid
      → r.retained ≡ false
      → HasTopic sh e.desc.name e.desc.uid
      → resolve_entity (feature_of e.desc.name e.desc.uid) (seen 0).appliance ≡ some i
      → get_elem? (seen 0).appliance.entities i ≡ some e
      → on_command sh host setup d seen r ≡ apply_set sh host setup d seen i e r.value
  unfolding on_command at_path at_position
  set_reaches_feature r i e topic live (safe, plain, other, number, full, no_start, no_stop) found
        there =
      let ours : relative sh d.ha_id r.topic ≡ some (feature_path sh e.desc.name e.desc.uid) =
        rw topic (relative-command sh d.ha_id e.desc.name e.desc.uid full) in
      let back = feature_name-feature_path sh e.desc.name e.desc.uid safe plain other number in
      rw (on_command, ours, live, no_start, no_stop, back, found, at_position, there) refl
