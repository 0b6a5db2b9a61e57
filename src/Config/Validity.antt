-- ===== src/Config/Validity.antt =====
-- What internal/config/validate.go accepts.
use go_homeconnect2mqtt.Base.{
  ℕ, String, ◌≡◌, ◌≢◌, ◌↔◌, ◌⊎◌, refl, Bool, true, false, not, ◌&&◌, ◌||◌, List, [], arith,
}
use go_homeconnect2mqtt.Base.Int.{ℤ, pos, ◌≤ℤ◌, ltb_ℤ}
use go_homeconnect2mqtt.Base.Keys.{◌==◌, ==_iff, text_key}
use go_homeconnect2mqtt.Config.{
  Config, qos_level, stats_interval_seconds, Issue, add_if, out_of_range, one_without_other,
  validate,
}

abbrev pub IsWithin : ℤ → ℕ → ℕ → Type 0
IsWithin v lo hi = (pos lo ≤ℤ v) × (v ≤ℤ pos hi)

-- Both strings are set or both are empty.
abbrev pub IsPaired : String → String → Type 0
IsPaired a b = ((a ≡ "") × (b ≡ "")) ⊎ ((a ≢ "") × (b ≢ ""))

-- The constraints on the settings that the messages of validate.go name, as propositions.
pub record IsValid (valid_name host_port : String → Bool) (c : Config) : Type 0 where
  pub server : c.mqtt_server ≢ ""
  pub topic : c.mqtt_topic ≢ ""
  pub topic_name : valid_name c.mqtt_topic ≡ true
  pub qos : IsWithin (qos_level c) 0 1
  pub stats : IsWithin (stats_interval_seconds c) 0 86400
  pub login : IsPaired c.mqtt_login c.mqtt_password
  pub tls : (c.mqtt_tls_ca ≡ "") ⊎ (c.mqtt_tls_insecure ≡ false)
  pub base_topic : (c.hass_enable ≡ false) ⊎ (c.hass_base_topic ≢ "")
  pub gracetime : IsWithin c.hass_birth_gracetime 0 600
  pub initial : IsWithin c.reconnect_initial 1 3600
  pub maximum : IsWithin c.reconnect_max 1 3600
  pub ordered : c.reconnect_initial ≤ℤ c.reconnect_max
  pub jitter : IsWithin c.reconnect_jitter 0 60000
  pub handshake : IsWithin c.handshake_timeout 1 600
  pub send : IsWithin c.send_timeout 1 600
  pub beat : IsWithin c.heartbeat 1 600
  pub web :
      (c.web_enable ≡ false) ⊎ ((host_port c.web_bind ≡ true) × IsPaired c.web_user c.web_password)
  pub known_language : (c.language ≡ "de") ⊎ (c.language ≡ "en")
  pub known_scope : (c.hass_discovery ≡ "full") ⊎ (c.hass_discovery ≡ "curated")

add_if_iff :
    (b : Bool) (i : Issue) (rest : List Issue)
    → (add_if b i rest ≡ []) ↔ ((b ≡ false) × (rest ≡ []))
unfolding add_if
add_if_iff b i rest = ground arith

set_iff : (s : String) → (s == "" ≡ false) ↔ (s ≢ "")
set_iff s = ground (arith, ==_iff s "")

within_iff : (v : ℤ) (lo hi : ℕ) → (out_of_range v lo hi ≡ false) ↔ IsWithin v lo hi
within_iff v lo hi = ground arith

IsPaired-iff : (a b : String) → (one_without_other a b ≡ false) ↔ IsPaired a b
IsPaired-iff a b = ground (arith, ==_iff a "", ==_iff b "")

ordered_iff : (a b : ℤ) → (ltb_ℤ b a ≡ false) ↔ (a ≤ℤ b)
ordered_iff a b = ground arith

one_of_iff : (s a b : String) → (not (s == a || s == b) ≡ false) ↔ ((s ≡ a) ⊎ (s ≡ b))
one_of_iff s a b = ground (arith, ==_iff s a, ==_iff s b)

tls_iff : (s : String) (b : Bool) → (not (s == "") && b ≡ false) ↔ ((s ≡ "") ⊎ (b ≡ false))
tls_iff s b = ground (arith, ==_iff s "")

base_iff : (b : Bool) (s : String) → (b && s == "" ≡ false) ↔ ((b ≡ false) ⊎ (s ≢ ""))
base_iff b s = ground (arith, ==_iff s "")

name_iff : (s : String) (v : Bool) → s ≢ "" → (not (s == "") && not v ≡ false) ↔ (v ≡ true)
name_iff s v h = ground (arith, ==_iff s "")

web_iff :
    (on bind : Bool) (user pass : String)
    → ((on && not bind ≡ false) × (on && one_without_other user pass ≡ false))
      ↔ ((on ≡ false) ⊎ ((bind ≡ true) × IsPaired user pass))
web_iff on bind user pass = ground (arith, IsPaired-iff user pass)

module _ (b : Bool) (i : Issue) (rest : List Issue) where
  unadded : add_if b i rest ≡ [] → (b ≡ false) × (rest ≡ [])
  unadded h = (add_if_iff b i rest).0 h

  skip : b ≡ false → rest ≡ [] → add_if b i rest ≡ []
  skip e h = (add_if_iff b i rest).1 (e, h)

module _ (valid_name host_port : String → Bool) (c : Config) where
  validate-IsValid : validate valid_name host_port c ≡ [] → IsValid valid_name host_port c
  unfolding validate
  validate-IsValid h =
      let h1 = unadded _ _ _ h in
      let h2 = unadded _ _ _ h1.1 in
      let h3 = unadded _ _ _ h2.1 in
      let h4 = unadded _ _ _ h3.1 in
      let h5 = unadded _ _ _ h4.1 in
      let h6 = unadded _ _ _ h5.1 in
      let h7 = unadded _ _ _ h6.1 in
      let h8 = unadded _ _ _ h7.1 in
      let h9 = unadded _ _ _ h8.1 in
      let t1 = unadded _ _ _ h9.1 in
      let t2 = unadded _ _ _ t1.1 in
      let t3 = unadded _ _ _ t2.1 in
      let t4 = unadded _ _ _ t3.1 in
      let t5 = unadded _ _ _ t4.1 in
      let t6 = unadded _ _ _ t5.1 in
      let t7 = unadded _ _ _ t6.1 in
      let w1 = unadded _ _ _ t7.1 in
      let w2 = unadded _ _ _ w1.1 in
      let w3 = unadded _ _ _ w2.1 in
      let w4 = unadded _ _ _ w3.1 in
      let named = (set_iff c.mqtt_topic).0 h2.0 in
      record {
        server = (set_iff c.mqtt_server).0 h1.0;
        topic = named;
        topic_name = (name_iff c.mqtt_topic (valid_name c.mqtt_topic) named).0 h3.0;
        qos = (within_iff (qos_level c) 0 1).0 h4.0;
        stats = (within_iff (stats_interval_seconds c) 0 86400).0 h5.0;
        login = (IsPaired-iff c.mqtt_login c.mqtt_password).0 h6.0;
        tls = (tls_iff c.mqtt_tls_ca c.mqtt_tls_insecure).0 h7.0;
        base_topic = (base_iff c.hass_enable c.hass_base_topic).0 h8.0;
        gracetime = (within_iff c.hass_birth_gracetime 0 600).0 h9.0;
        initial = (within_iff c.reconnect_initial 1 3600).0 t1.0;
        maximum = (within_iff c.reconnect_max 1 3600).0 t2.0;
        ordered = (ordered_iff c.reconnect_initial c.reconnect_max).0 t3.0;
        jitter = (within_iff c.reconnect_jitter 0 60000).0 t4.0;
        handshake = (within_iff c.handshake_timeout 1 600).0 t5.0;
        send = (within_iff c.send_timeout 1 600).0 t6.0;
        beat = (within_iff c.heartbeat 1 600).0 t7.0;
        web =
            (web_iff c.web_enable (host_port c.web_bind) c.web_user c.web_password).0 (w1.0, w2.0);
        known_language = (one_of_iff c.language "de" "en").0 w3.0;
        known_scope = (one_of_iff c.hass_discovery "full" "curated").0 w4.0;
      }

  IsValid-validate : IsValid valid_name host_port c → validate valid_name host_port c ≡ []
  unfolding validate
  IsValid-validate v =
      let w = (web_iff c.web_enable (host_port c.web_bind) c.web_user c.web_password).1 v.web in
      skip _ _ _ ((set_iff c.mqtt_server).1 v.server) (
        skip _ _ _ ((set_iff c.mqtt_topic).1 v.topic) (
          skip _ _ _ ((name_iff c.mqtt_topic (valid_name c.mqtt_topic) v.topic).1 v.topic_name) (
            skip _ _ _ ((within_iff (qos_level c) 0 1).1 v.qos) (
              skip _ _ _ ((within_iff (stats_interval_seconds c) 0 86400).1 v.stats) (
                skip _ _ _ ((IsPaired-iff c.mqtt_login c.mqtt_password).1 v.login) (
                  skip _ _ _ ((tls_iff c.mqtt_tls_ca c.mqtt_tls_insecure).1 v.tls) (
                    skip _ _ _ ((base_iff c.hass_enable c.hass_base_topic).1 v.base_topic) (
                      skip _ _ _ ((within_iff c.hass_birth_gracetime 0 600).1 v.gracetime) (
                        skip _ _ _ ((within_iff c.reconnect_initial 1 3600).1 v.initial) (
                          skip _ _ _ ((within_iff c.reconnect_max 1 3600).1 v.maximum) (
                            skip _ _ _
                              ((ordered_iff c.reconnect_initial c.reconnect_max).1 v.ordered)
                              (skip _ _ _ ((within_iff c.reconnect_jitter 0 60000).1 v.jitter) (
                                skip _ _ _ ((within_iff c.handshake_timeout 1 600).1 v.handshake) (
                                  skip _ _ _ ((within_iff c.send_timeout 1 600).1 v.send) (
                                    skip _ _ _ ((within_iff c.heartbeat 1 600).1 v.beat) (
                                      skip _ _ _ w.0 (
                                        skip _ _ _ w.1 (
                                          skip _ _ _
                                            ((one_of_iff c.language "de" "en").1 v.known_language)
                                            (skip _ _ _
                                              ((one_of_iff c.hass_discovery "full" "curated").1
                                                v.known_scope)
                                              refl)))))))))))))))))))

  -- The validator reports nothing exactly when the settings meet the constraints of `IsValid`.
  pub validate_iff : (validate valid_name host_port c ≡ []) ↔ IsValid valid_name host_port c
  validate_iff = (validate-IsValid, IsValid-validate)
