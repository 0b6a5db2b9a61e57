-- ===== src/Session/Defaults.antt =====
-- resolveDefaults of internal/homeconnect/session.go.
use go_homeconnect2mqtt.Base.{◌≡◌, ◌≢◌, arith}
use go_homeconnect2mqtt.Base.Int.{pos, ◌+64◌}
use go_homeconnect2mqtt.Message.{Message}
use go_homeconnect2mqtt.Session.{Session, resolve_defaults}

module _ {F : Type 0} (m : Message F) (s : Session) where
  -- A message with neither id set takes the session's id and the next message id.
  pub resolve_defaults_fresh :
      m.sid ≡ pos 0
      → m.msg_id ≡ pos 0
      → let r = resolve_defaults m s in
        (r.0.sid ≡ s.sid)
        × (r.0.msg_id ≡ s.last_msg_id)
        × (r.1.last_msg_id ≡ s.last_msg_id +64 pos 1)
        × (r.1.sid ≡ s.sid)
  unfolding resolve_defaults
  resolve_defaults_fresh h k = ground arith

  -- A message with its own id keeps it and uses up no number.
  pub resolve_defaults_own :
      m.msg_id ≢ pos 0 → let r = resolve_defaults m s in (r.0.msg_id ≡ m.msg_id) × (r.1 ≡ s)
  unfolding resolve_defaults
  resolve_defaults_own h = ground arith

  -- Its session id, where it has one, is kept too.
  pub resolve_defaults_sid :
      m.sid ≡ s.sid → let r = resolve_defaults m s in (r.0.sid ≡ s.sid) × (r.1.sid ≡ s.sid)
  unfolding resolve_defaults
  resolve_defaults_sid h = ground arith
