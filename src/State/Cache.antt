-- ===== src/State/Cache.antt =====
-- The device cache of internal/state/store.go. Times are in nanoseconds; no time is Go's zero time.
-- Each operation is one critical section under mu; the events that it publishes are State's.
pub mod Reads
pub mod Health
use go_homeconnect2mqtt.Base.{
  ℕ, ◌-◌, String, Bool, true, false, ◌||◌, not, Option, none, some, from_option, List, [], ◌∷◌,
  length, leb, if◌then◌else◌,
}
use go_homeconnect2mqtt.Base.Int.{ℤ}
use go_homeconnect2mqtt.Base.Keys.{◌==◌, text_key, lookup, insert}

-- Feature: its name (empty for an entity without one), its uid, and the rest that it carries.
pub record Feature (V : Type 0) : Type 0 where
  pub feature : String
  pub uid : ℤ
  pub content : V
  pub updated_at : ℕ

-- deviceState with its DeviceSummary; `info` is the JSON of the map.
pub record DeviceState (V : Type 0) : Type 0 where
  pub name : String
  pub ha_id : String
  pub brand : String
  pub kind : String
  pub vib : String
  pub info : String
  pub connection_state : String
  pub available : Bool
  pub feature_count : ℕ
  pub features : List (String × Feature V)
  pub updated_at : Option ℕ

abbrev pub Cache : Type 0 → Type 0
Cache V = List (String × DeviceState V)

-- The writes of the bridge
pub data CacheOp (V : Type 0) : Type 0 where
  registers : String → String → String → String → String → Option String → CacheOp V
  connects : String → String → Bool → CacheOp V
  updates : String → ℕ → ℤ → String → V → CacheOp V

module _ {V : Type 0} where
  abbrev pub fresh_device : String → DeviceState V
  fresh_device name = record {
    name = name;
    ha_id = "";
    brand = "";
    kind = "";
    vib = "";
    info = "{}";
    connection_state = "closed";
    available = false;
    feature_count = 0;
    features = [];
    updated_at = none;
  }

  -- device
  unfoldable pub device : String → Cache V → DeviceState V
  device name m = from_option (fresh_device name) (lookup name m)

  -- RegisterDevice
  unfoldable pub register_device :
      String → String → String → String → String → Option String → Cache V → Cache V
  unfolding device
  register_device name ha_id brand kind vib info m =
      let d = device name m in
      insert name
        (record d {
          ha_id = ha_id;
          brand = brand;
          kind = kind;
          vib = vib;
          info = from_option d.info info;
        })
        m

  -- SetConnectionState
  unfoldable pub set_connection_state : String → String → Bool → Cache V → Cache V
  unfolding device
  set_connection_state name state up m =
      insert name (record (device name m) { connection_state = state; available = up }) m

  -- UpdateFeature
  unfoldable pub update_feature : ℕ → String → ℤ → String → V → Cache V → Cache V
  unfolding device
  update_feature now name uid feature v m =
      let d = device name m in
      let after =
        insert feature (record { feature = feature; uid = uid; content = v; updated_at = now })
          d.features in
      insert name
        (record d { features = after; feature_count = length after; updated_at = some now }) m

  unfoldable pub cache_step : Cache V → CacheOp V → Cache V
  unfolding register_device set_connection_state update_feature
  cache_step m (registers name ha_id brand kind vib info) =
      register_device name ha_id brand kind vib info m
  cache_step m (connects name state up) = set_connection_state name state up m
  cache_step m (updates name now uid feature v) = update_feature now name uid feature v m

  unfoldable pub cache_run : Cache V → List (CacheOp V) → Cache V
  unfolding cache_step
  cache_run m [] = m
  cache_run m (op ∷ ops) = cache_run (cache_step m op) ops

  -- isStale
  unfoldable pub is_stale : ℕ → ℕ → DeviceState V → Bool
  is_stale threshold now d =
      let s = d.connection_state in
      if s == "offline" || s == "reconnecting" || s == "connecting" || s == "closed"
      then true
      else elim d.updated_at [ none ↦ true | some t ↦ not (leb (now - t) threshold) ]

  -- the status of Health
  unfoldable pub health_status : ℕ → ℕ → Cache V → String
  unfolding is_stale
  health_status threshold now [] = "ok"
  health_status threshold now ((_, d) ∷ m) =
      let rest = health_status threshold now m in
      if is_stale threshold now d then "degraded" else rest

  by_ha_id : String → Cache V → Option (DeviceState V)
  by_ha_id id [] = none
  by_ha_id id ((_, d) ∷ m) = let rest = by_ha_id id m in if d.ha_id == id then some d else rest

  -- the lookup of Device
  unfoldable pub find_device : String → Cache V → Option (DeviceState V)
  unfolding by_ha_id
  find_device key m = elim (lookup key m) [ some d ↦ some d | none ↦ by_ha_id key m ]
