-- ===== src/Config/Startup.antt =====
-- The settings that internal/config accepts at start: applyDefaults, then Validate.
use go_homeconnect2mqtt.Base.{
  ℕ, String, ◌≡◌, ◌≢◌, ◌↔◌, ◌⊎◌, inl, inr, refl, sym, ◌∙◌, Bool, true, false, Bool-cases, Option,
  none, some, from_option, absurd_bool, [], arith,
}
use go_homeconnect2mqtt.Base.Int.{ℤ, pos, ◌≤ℤ◌}
use go_homeconnect2mqtt.Base.Keys.{◌==◌, ==_iff, text_key, int_key}
use go_homeconnect2mqtt.Config.{
  Config, qos_level, stats_interval_seconds, or_text, or_number, or_set, apply_defaults, validate,
}
use go_homeconnect2mqtt.Config.Validity.{IsWithin, IsPaired, IsValid, validate_iff}

-- A number that is left out or lies in its range
abbrev pub IsUnsetOrWithin : ℤ → ℕ → ℕ → Type 0
IsUnsetOrWithin n lo hi = (n ≡ pos 0) ⊎ IsWithin n lo hi

-- What an operator has to write, before the defaults.
pub record IsSensible (valid_name host_port : String → Bool) (c : Config) : Type 0 where
  pub server : c.mqtt_server ≢ ""
  pub topic : (c.mqtt_topic ≡ "") ⊎ (valid_name c.mqtt_topic ≡ true)
  pub qos : IsWithin (qos_level c) 0 1
  pub stats : IsWithin (stats_interval_seconds c) 0 86400
  pub login : IsPaired c.mqtt_login c.mqtt_password
  pub tls : (c.mqtt_tls_ca ≡ "") ⊎ (c.mqtt_tls_insecure ≡ false)
  pub gracetime : IsUnsetOrWithin c.hass_birth_gracetime 0 600
  pub initial : IsUnsetOrWithin c.reconnect_initial 1 3600
  pub maximum : IsUnsetOrWithin c.reconnect_max 1 3600
  pub ordered : or_number (pos 1) c.reconnect_initial ≤ℤ or_number (pos 30) c.reconnect_max
  pub jitter : IsUnsetOrWithin c.reconnect_jitter 0 60000
  pub handshake : IsUnsetOrWithin c.handshake_timeout 1 600
  pub send : IsUnsetOrWithin c.send_timeout 1 600
  pub beat : IsUnsetOrWithin c.heartbeat 1 600
  pub web :
      (c.web_enable ≡ false)
      ⊎ (((c.web_bind ≡ "") ⊎ (host_port c.web_bind ≡ true)) × IsPaired c.web_user c.web_password)
  pub language_known : (c.language ≡ "") ⊎ ((c.language ≡ "de") ⊎ (c.language ≡ "en"))
  pub scope_known :
      (c.hass_discovery ≡ "") ⊎ ((c.hass_discovery ≡ "full") ⊎ (c.hass_discovery ≡ "curated"))

-- A text with a default has a property of the default exactly where it is left out or has it itself.
or_text_iff : (P : String → Type 0) (d s : String) → P d → P (or_text d s) ↔ ((s ≡ "") ⊎ P s)
unfolding or_text
or_text_iff P d s p = elim (Bool-cases (s == "")) [
  | inl e ↦ rw (or_text, e) (λ _. inl ((==_iff s "").0 e), λ _. p)
  | inr e ↦ rw (or_text, e) (λ h. inr h, λ h. present e h)
]
  where
    present : (s == "") ≡ false → (s ≡ "") ⊎ P s → P s
    present e (inl u) = absurd_bool (sym ((==_iff s "").1 u) ∙ e)
    present e (inr h) = h

or_number_iff : (P : ℤ → Type 0) (d n : ℤ) → P d → P (or_number d n) ↔ ((n ≡ pos 0) ⊎ P n)
unfolding or_number
or_number_iff P d n p = elim (Bool-cases (n == pos 0)) [
  | inl e ↦ rw (or_number, e) (λ _. inl ((==_iff n (pos 0)).0 e), λ _. p)
  | inr e ↦ rw (or_number, e) (λ h. inr h, λ h. present e h)
]
  where
    present : (n == pos 0) ≡ false → (n ≡ pos 0) ⊎ P n → P n
    present e (inl u) = absurd_bool (sym ((==_iff n (pos 0)).1 u) ∙ e)
    present e (inr h) = h

or_number_within :
    (d n : ℤ) (lo hi : ℕ)
    → IsWithin d lo hi
    → IsWithin (or_number d n) lo hi ↔ IsUnsetOrWithin n lo hi
or_number_within d n lo hi p = or_number_iff (λ v. IsWithin v lo hi) d n p

never_empty : (d s : String) → d ≢ "" → or_text d s ≢ ""
unfolding or_text
never_empty d s p = elim (Bool-cases (s == "")) [
  | inl e ↦ rw (or_text, e) p
  | inr e ↦ rw (or_text, e) (λ u. absurd_bool (sym ((==_iff s "").1 u) ∙ e))
]

or_set_level : (d : ℤ) (o : Option ℤ) → from_option d (or_set d o) ≡ from_option d o
unfolding or_set
or_set_level d none = refl
or_set_level d (some n) = refl

same_qos : (c : Config) → qos_level (apply_defaults c) ≡ qos_level c
unfolding qos_level apply_defaults
same_qos c = or_set_level (pos 1) c.mqtt_qos

same_stats : (c : Config) → stats_interval_seconds (apply_defaults c) ≡ stats_interval_seconds c
unfolding stats_interval_seconds apply_defaults
same_stats c = or_set_level (pos 60) c.mqtt_stats_interval

module _ (valid_name host_port : String → Bool) (c : Config)
    (named : valid_name "homeconnect" ≡ true) (local : host_port "127.0.0.1:8080" ≡ true) where
  abbrev Topic : String → Type 0
  Topic s = valid_name s ≡ true

  abbrev Bind : String → Type 0
  Bind s = host_port s ≡ true

  abbrev Language : String → Type 0
  Language s = (s ≡ "de") ⊎ (s ≡ "en")

  abbrev Scope : String → Type 0
  Scope s = (s ≡ "full") ⊎ (s ≡ "curated")

  to_written : IsValid valid_name host_port (apply_defaults c) → IsSensible valid_name host_port c
  unfolding apply_defaults
  to_written v = record {
    server = v.server;
    topic = (or_text_iff Topic "homeconnect" c.mqtt_topic named).0 v.topic_name;
    qos = rw (← same_qos c) v.qos;
    stats = rw (← same_stats c) v.stats;
    login = v.login;
    tls = v.tls;
    gracetime =
        (or_number_within (pos 15) c.hass_birth_gracetime 0 600 (ground arith)).0 v.gracetime;
    initial = (or_number_within (pos 1) c.reconnect_initial 1 3600 (ground arith)).0 v.initial;
    maximum = (or_number_within (pos 30) c.reconnect_max 1 3600 (ground arith)).0 v.maximum;
    ordered = v.ordered;
    jitter = (or_number_within (pos 500) c.reconnect_jitter 0 60000 (ground arith)).0 v.jitter;
    handshake = (or_number_within (pos 60) c.handshake_timeout 1 600 (ground arith)).0 v.handshake;
    send = (or_number_within (pos 20) c.send_timeout 1 600 (ground arith)).0 v.send;
    beat = (or_number_within (pos 20) c.heartbeat 1 600 (ground arith)).0 v.beat;
    web = web_to v.web;
    language_known = (or_text_iff Language "de" c.language (inl refl)).0 v.known_language;
    scope_known = (or_text_iff Scope "curated" c.hass_discovery (inr refl)).0 v.known_scope;
  }
    where
      web_to :
          (c.web_enable ≡ false)
            ⊎ (Bind (or_text "127.0.0.1:8080" c.web_bind) × IsPaired c.web_user c.web_password)
          → (c.web_enable ≡ false)
            ⊎ (((c.web_bind ≡ "") ⊎ Bind c.web_bind) × IsPaired c.web_user c.web_password)
      web_to (inl off) = inl off
      web_to (inr (b, pair)) = inr ((or_text_iff Bind "127.0.0.1:8080" c.web_bind local).0 b, pair)

  from_written : IsSensible valid_name host_port c → IsValid valid_name host_port (apply_defaults c)
  unfolding apply_defaults
  from_written v = record {
    server = v.server;
    topic = never_empty "homeconnect" c.mqtt_topic (not_empty "homeconnect" refl);
    topic_name = (or_text_iff Topic "homeconnect" c.mqtt_topic named).1 v.topic;
    qos = rw (same_qos c) v.qos;
    stats = rw (same_stats c) v.stats;
    login = v.login;
    tls = v.tls;
    base_topic =
        inr (never_empty "homeassistant" c.hass_base_topic (not_empty "homeassistant" refl));
    gracetime =
        (or_number_within (pos 15) c.hass_birth_gracetime 0 600 (ground arith)).1 v.gracetime;
    initial = (or_number_within (pos 1) c.reconnect_initial 1 3600 (ground arith)).1 v.initial;
    maximum = (or_number_within (pos 30) c.reconnect_max 1 3600 (ground arith)).1 v.maximum;
    ordered = v.ordered;
    jitter = (or_number_within (pos 500) c.reconnect_jitter 0 60000 (ground arith)).1 v.jitter;
    handshake = (or_number_within (pos 60) c.handshake_timeout 1 600 (ground arith)).1 v.handshake;
    send = (or_number_within (pos 20) c.send_timeout 1 600 (ground arith)).1 v.send;
    beat = (or_number_within (pos 20) c.heartbeat 1 600 (ground arith)).1 v.beat;
    web = web_from v.web;
    known_language = (or_text_iff Language "de" c.language (inl refl)).1 v.language_known;
    known_scope = (or_text_iff Scope "curated" c.hass_discovery (inr refl)).1 v.scope_known;
  }
    where
      not_empty : (s : String) → (s == "") ≡ false → s ≢ ""
      not_empty s e u = absurd_bool (sym ((==_iff s "").1 u) ∙ e)

      web_from :
          (c.web_enable ≡ false)
            ⊎ (((c.web_bind ≡ "") ⊎ Bind c.web_bind) × IsPaired c.web_user c.web_password)
          → (c.web_enable ≡ false)
            ⊎ (Bind (or_text "127.0.0.1:8080" c.web_bind) × IsPaired c.web_user c.web_password)
      web_from (inl off) = inl off
      web_from (inr (b, pair)) =
          inr ((or_text_iff Bind "127.0.0.1:8080" c.web_bind local).1 b, pair)

  -- What an operator has to write: with the defaults applied, the validator reports nothing exactly when
  -- a server is set, the initial backoff that results is at most the maximal one, user names and
  -- passwords are set in pairs (those of the web only where it is enabled), no CA stands beside a
  -- disabled check of the certificate, and every other checked setting is left out or has an allowed value.
  -- So no default is refused, and no range refuses what is left out. The default name and the default
  -- bind address are accepted by the libraries that test them.
  pub defaults_pass :
      (validate valid_name host_port (apply_defaults c) ≡ []) ↔ IsSensible valid_name host_port c
  defaults_pass =
      let (to, back) = validate_iff valid_name host_port (apply_defaults c) in
      (λ h. to_written (to h), λ v. back (from_written v))
