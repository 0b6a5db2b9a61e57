-- ===== src/Config/Defaults.antt =====
-- applyDefaults of internal/config/defaults.go.
use go_homeconnect2mqtt.Base.{
  String, ◌≡◌, ◌≢◌, refl, Bool, true, false, Option, none, some, [], arith,
}
use go_homeconnect2mqtt.Base.Int.{ℤ, pos}
use go_homeconnect2mqtt.Base.Keys.{==_iff, text_key}
use go_homeconnect2mqtt.Config.{
  Config, apply_defaults, or_text, or_number, or_set, validate, add_if,
}

or_text_idem : (d s : String) → or_text d (or_text d s) ≡ or_text d s
unfolding or_text
or_text_idem d s = ground arith

or_number_idem : (d n : ℤ) → or_number d (or_number d n) ≡ or_number d n
unfolding or_number
or_number_idem d n = ground arith

or_set_idem {ℓ} : {A : Type ℓ} (d : A) (o : Option A) → or_set d (or_set d o) ≡ or_set d o
unfolding or_set
or_set_idem d none = refl
or_set_idem d (some a) = refl

-- Filling the defaults in a second time changes nothing: a filled value counts as set.
pub apply_defaults_idem : (c : Config) → apply_defaults (apply_defaults c) ≡ apply_defaults c
unfolding apply_defaults
apply_defaults_idem c = simp (or_text_idem, or_number_idem, or_set_idem)

-- A configuration file that is empty but for MQTT_SERVER.
abbrev pub only_server : String → Config
only_server server = record {
  mqtt_server = server;
  mqtt_login = "";
  mqtt_password = "";
  mqtt_topic = "";
  mqtt_tls_ca = "";
  mqtt_tls_insecure = false;
  mqtt_qos = none;
  mqtt_maintenance = none;
  mqtt_stats_interval = none;
  hass_enable = false;
  hass_base_topic = "";
  hass_birth_gracetime = pos 0;
  hass_discovery = "";
  hass_discovery_refresh = false;
  app_name = "";
  app_id = "";
  reconnect_initial = pos 0;
  reconnect_max = pos 0;
  reconnect_jitter = pos 0;
  handshake_timeout = pos 0;
  send_timeout = pos 0;
  heartbeat = pos 0;
  web_enable = false;
  web_bind = "";
  web_user = "";
  web_password = "";
  language = "";
  debug = false;
  removed = [];
}

-- The defaults make a file with nothing but a broker address usable, once the layout accepts the
-- default instance name.
pub defaults_are_valid :
    (valid_name host_port : String → Bool) (server : String)
    → server ≢ ""
    → valid_name "homeconnect" ≡ true
    → validate valid_name host_port (apply_defaults (only_server server)) ≡ []
unfolding validate apply_defaults add_if or_text or_number or_set
defaults_are_valid valid_name host_port server s n = ground (arith, ==_iff server "")
