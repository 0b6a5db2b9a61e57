-- ===== src/Config.antt =====
-- internal/config/config.go, defaults.go and validate.go: the daemon's configuration behind its
-- decoding. A message of the validator is an `Issue`, named for the setting that it is about.
pub mod Validity
pub mod Durations
pub mod Startup
pub mod Defaults
use go_homeconnect2mqtt.Base.{
  ℕ, suc, ◌-◌, ◌*◌, String, Bool, true, false, not, ◌&&◌, ◌||◌, Option, none, some, from_option,
  List, [], ◌∷◌, ◌++◌, if◌then◌else◌,
}
use go_homeconnect2mqtt.Base.Int.{ℤ, pos, negsuc, int_beq, ltb_ℤ, wrap64}
use go_homeconnect2mqtt.Base.Keys.{◌==◌, text_key}

-- Durations are kept in the units of the file; a pointer is an Option.
pub record Config : Type 0 where
  pub mqtt_server : String
  pub mqtt_login : String
  pub mqtt_password : String
  pub mqtt_topic : String
  pub mqtt_tls_ca : String
  pub mqtt_tls_insecure : Bool
  pub mqtt_qos : Option ℤ
  pub mqtt_maintenance : Option Bool
  pub mqtt_stats_interval : Option ℤ
  pub hass_enable : Bool
  pub hass_base_topic : String
  pub hass_birth_gracetime : ℤ
  pub hass_discovery : String
  pub hass_discovery_refresh : Bool
  pub app_name : String
  pub app_id : String
  pub reconnect_initial : ℤ
  pub reconnect_max : ℤ
  pub reconnect_jitter : ℤ
  pub handshake_timeout : ℤ
  pub send_timeout : ℤ
  pub heartbeat : ℤ
  pub web_enable : Bool
  pub web_bind : String
  pub web_user : String
  pub web_password : String
  pub language : String
  pub debug : Bool
  pub removed : List String

-- QoSLevel, MaintenanceEnabled and StatsIntervalSeconds
unfoldable pub qos_level : Config → ℤ
qos_level c = from_option (pos 1) c.mqtt_qos

unfoldable pub maintenance_enabled : Config → Bool
maintenance_enabled c = from_option true c.mqtt_maintenance

unfoldable pub stats_interval_seconds : Config → ℤ
stats_interval_seconds c = from_option (pos 60) c.mqtt_stats_interval

unfoldable pub or_text : String → String → String
or_text d s = if s == "" then d else s

unfoldable pub or_number : ℤ → ℤ → ℤ
or_number d n = if int_beq n (pos 0) then d else n

unfoldable pub or_set {ℓ} : {A : Type ℓ} → A → Option A → Option A
or_set d none = some d
or_set d (some a) = some a

-- applyDefaults
unfoldable pub apply_defaults : Config → Config
apply_defaults c = record c {
  mqtt_topic = or_text "homeconnect" c.mqtt_topic;
  mqtt_maintenance = or_set true c.mqtt_maintenance;
  mqtt_stats_interval = or_set (pos 60) c.mqtt_stats_interval;
  mqtt_qos = or_set (pos 1) c.mqtt_qos;
  hass_base_topic = or_text "homeassistant" c.hass_base_topic;
  hass_birth_gracetime = or_number (pos 15) c.hass_birth_gracetime;
  hass_discovery = or_text "curated" c.hass_discovery;
  app_name = or_text "go-homeconnect2mqtt" c.app_name;
  reconnect_initial = or_number (pos 1) c.reconnect_initial;
  reconnect_max = or_number (pos 30) c.reconnect_max;
  reconnect_jitter = or_number (pos 500) c.reconnect_jitter;
  handshake_timeout = or_number (pos 60) c.handshake_timeout;
  send_timeout = or_number (pos 20) c.send_timeout;
  heartbeat = or_number (pos 20) c.heartbeat;
  web_bind = or_text "127.0.0.1:8080" c.web_bind;
  language = or_text "de" c.language;
}

-- One constructor for each message that Validate can add.
pub data Issue : Type 0 where
  server_missing topic_missing topic_invalid qos_range stats_range : Issue
  credentials tls_contradiction base_topic_missing gracetime_range : Issue
  initial_range max_range max_below_initial jitter_range : Issue
  handshake_range send_range heartbeat_range : Issue
  web_bind_invalid web_credentials language_unknown discovery_unknown : Issue

-- `add` under a test
unfoldable pub add_if : Bool → Issue → List Issue → List Issue
add_if true i rest = i ∷ rest
add_if false i rest = rest

abbrev pub out_of_range : ℤ → ℕ → ℕ → Bool
out_of_range v lo hi = ltb_ℤ v (pos lo) || ltb_ℤ (pos hi) v

abbrev pub one_without_other : String → String → Bool
one_without_other a b = if a == "" then not (b == "") else b == ""

-- `valid_name s`: layout.New accepts s (go-hamqtt). `host_port s`: net.SplitHostPort accepts s.
module _ (valid_name host_port : String → Bool) where
  -- the first half of Validate: MQTT and Home Assistant
  abbrev validate_mqtt : Config → List Issue → List Issue
  validate_mqtt c rest = add_if (c.mqtt_server == "") server_missing (
      add_if (c.mqtt_topic == "") topic_missing (
        add_if (not (c.mqtt_topic == "") && not (valid_name c.mqtt_topic)) topic_invalid (
          add_if (out_of_range (qos_level c) 0 1) qos_range (
            add_if (out_of_range (stats_interval_seconds c) 0 86400) stats_range (
              add_if (one_without_other c.mqtt_login c.mqtt_password) credentials (
                add_if (not (c.mqtt_tls_ca == "") && c.mqtt_tls_insecure) tls_contradiction (
                  add_if (c.hass_enable && c.hass_base_topic == "") base_topic_missing
                    (add_if (out_of_range c.hass_birth_gracetime 0 600) gracetime_range rest))))))))

  abbrev validate_timing : Config → List Issue → List Issue
  validate_timing c rest = add_if (out_of_range c.reconnect_initial 1 3600) initial_range (
      add_if (out_of_range c.reconnect_max 1 3600) max_range (
        add_if (ltb_ℤ c.reconnect_max c.reconnect_initial) max_below_initial (
          add_if (out_of_range c.reconnect_jitter 0 60000) jitter_range (
            add_if (out_of_range c.handshake_timeout 1 600) handshake_range (
              add_if (out_of_range c.send_timeout 1 600) send_range
                (add_if (out_of_range c.heartbeat 1 600) heartbeat_range rest))))))

  abbrev validate_web : Config → List Issue
  validate_web c = add_if (c.web_enable && not (host_port c.web_bind)) web_bind_invalid (
      add_if (c.web_enable && one_without_other c.web_user c.web_password) web_credentials (
        add_if (not (c.language == "de" || c.language == "en")) language_unknown (
          add_if (not (c.hass_discovery == "full" || c.hass_discovery == "curated"))
            discovery_unknown [])))

  -- Validate: the issues, in the order in which they are added; none is a nil error.
  unfoldable pub validate : Config → List Issue
  unfolding qos_level stats_interval_seconds
  validate c = validate_mqtt c (validate_timing c (validate_web c))

-- `time.Duration(n) * unit`, for a positive unit of `unit` nanoseconds
unfoldable pub duration : ℕ → ℤ → ℤ
duration unit (pos n) = wrap64 (pos (n * unit))
duration unit (negsuc n) = wrap64 (negsuc (suc n * unit - 1))
