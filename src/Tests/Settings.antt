-- ===== src/Tests/Settings.antt =====
-- The configuration and the topic layout on concrete settings.
use go_homeconnect2mqtt.Base.{String, ◌≡◌, ◌≢◌, refl, Bool, true, [], ◌↔◌, arith}
use go_homeconnect2mqtt.Base.Int.{pos, ◌≤ℤ◌}
use go_homeconnect2mqtt.Base.Keys.{==_iff, text_key}
use go_homeconnect2mqtt.Config.{Config, apply_defaults, validate, duration}
use go_homeconnect2mqtt.Config.Startup.{IsSensible, defaults_pass}
use go_homeconnect2mqtt.Config.Durations.{second_unit, reconnect_config, validated_backoff}
use go_homeconnect2mqtt.Config.Defaults.{only_server, defaults_are_valid}
use go_homeconnect2mqtt.Reconnect.{start, run}
use go_homeconnect2mqtt.Layout.{split_dots, cut_prefix, feature_path, feature_name, feature_item}
use go_homeconnect2mqtt.Layout.RoundTrip.{
  dots_to_slashes, has_slash, feature_of, feature_name-feature_path,
}
use go_homeconnect2mqtt.Tests.Parameters.{plain_layout}

abbrev accepts : String → Bool
accepts s = true

abbrev broker : String
broker = "tcp://localhost:1883"

abbrev local_server : Config
local_server = apply_defaults (only_server broker)

broker-set : broker ≢ ""
broker-set e = ground (arith, (==_iff broker "").1 e)

power_path : feature_path plain_layout "BSH.Power" (pos 1) ≢ ""
unfolding feature_path feature_item split_dots
power_path e = ground (arith, (==_iff {A = String} "BSH/Power" "").1 e)

defaults_pass_example :
    (validate accepts accepts local_server ≡ []) ↔ IsSensible accepts accepts (only_server broker)
defaults_pass_example = defaults_pass accepts accepts (only_server broker) refl refl

validated_backoff_example :
    (duration second_unit local_server.reconnect_initial
      ≤ℤ (run (start (reconnect_config local_server)) []).backoff)
    × ((run (start (reconnect_config local_server)) []).backoff
        ≤ℤ duration second_unit local_server.reconnect_max)
    × (pos second_unit ≤ℤ (run (start (reconnect_config local_server)) []).backoff)
validated_backoff_example =
    validated_backoff accepts accepts local_server []
      (defaults_are_valid accepts accepts broker broker-set refl)

feature_name-feature_path_example :
    feature_name plain_layout (feature_path plain_layout "BSH.Power" (pos 1))
    ≡ feature_of "BSH.Power" (pos 1)
unfolding feature_item split_dots has_slash cut_prefix dots_to_slashes
feature_name-feature_path_example =
    feature_name-feature_path plain_layout "BSH.Power" (pos 1) (refl, (refl, tt)) refl refl refl
