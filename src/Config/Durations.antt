-- ===== src/Config/Durations.antt =====
-- What the settings RECONNECT_* and SEND_TIMEOUT of a usable configuration mean for the reconnect
-- manager that internal/bridge/device.go builds from them.
use go_homeconnect2mqtt.Base.{ℕ, ◌*◌, ◌≤◌, String, ◌≡◌, refl, Bool, true, List, [], arith}
use go_homeconnect2mqtt.Base.Int.{ℤ, pos, negsuc, ◌≤ℤ◌, wrap64_id}
use go_homeconnect2mqtt.Config.{Config, duration, validate}
use go_homeconnect2mqtt.Config.Validity.{IsWithin, validate_iff}
use go_homeconnect2mqtt.Reconnect.{ReconnectConfig, Observation, start, run}
use go_homeconnect2mqtt.Reconnect.Bounds.{IsUsable, backoff_bounds}

abbrev pub second_unit : ℕ
second_unit = 1_000_000_000

abbrev pub millisecond_unit : ℕ
millisecond_unit = 1_000_000

-- newDevice of internal/bridge/device.go: no connect timeout and no throttle of its own.
unfoldable pub reconnect_config : Config → ReconnectConfig
reconnect_config c = record {
  initial_backoff = duration second_unit c.reconnect_initial;
  max_backoff = duration second_unit c.reconnect_max;
  jitter = duration millisecond_unit c.reconnect_jitter;
  connect_timeout = pos 0;
  log_throttle = pos 0;
  has_on_state = true;
}

-- A number of a checked range is natural, and its duration does not wrap around.
duration_lem :
    (v : ℤ) (lo hi : ℕ)
    → IsWithin v lo hi
    → hi ≤ 3600
    → (n : ℕ) × (v ≡ pos n) × (lo ≤ n) × (n ≤ hi) × (duration second_unit v ≡ pos (n * second_unit))
unfolding duration
duration_lem (pos n) lo hi w h = (
  n,
  refl,
  omega arith,
  omega arith,
  wrap64_id (pos (n * second_unit)) (omega arith, omega arith),
)
duration_lem (negsuc n) lo hi w h = ground arith

reconnect_config-IsUsable :
    (c : Config) (low high : ℕ)
    → c.reconnect_initial ≡ pos low
    → c.reconnect_max ≡ pos high
    → duration second_unit c.reconnect_initial ≡ pos (low * second_unit)
    → duration second_unit c.reconnect_max ≡ pos (high * second_unit)
    → c.reconnect_initial ≤ℤ c.reconnect_max
    → high ≤ 3600
    → IsUsable (reconnect_config c) (low * second_unit) (high * second_unit)
unfolding reconnect_config
reconnect_config-IsUsable c low high e f d g o h = record {
  initial = d;
  maximum = g;
  ordered = ground arith;
  in_range = omega arith;
}

-- Under a configuration in which the validator finds no issue, the backoff of an appliance's
-- manager is, after any observations, between RECONNECT_INITIAL and RECONNECT_MAX seconds, and at
-- least one second.
pub validated_backoff :
    (valid_name host_port : String → Bool) (c : Config) (os : List Observation)
    → validate valid_name host_port c ≡ []
    → let backoff = (run (start (reconnect_config c)) os).backoff in
      (duration second_unit c.reconnect_initial ≤ℤ backoff)
      × (backoff ≤ℤ duration second_unit c.reconnect_max)
      × (pos second_unit ≤ℤ backoff)
validated_backoff valid_name host_port c os none_found =
    let v = (validate_iff valid_name host_port c).0 none_found in
    let (low, e, l1, l2, d) = duration_lem c.reconnect_initial 1 3600 v.initial (omega arith) in
    let (high, f, h1, h2, g) = duration_lem c.reconnect_max 1 3600 v.maximum (omega arith) in
    let u = reconnect_config-IsUsable c low high e f d g v.ordered h2 in
    let (b, at, above, below) =
      backoff_bounds (reconnect_config c) (low * second_unit) (high * second_unit) os (omega arith)
        u in
    rw (at, d, g) (omega arith, omega arith, omega arith)
