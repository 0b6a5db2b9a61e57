-- ===== src/Reconnect.antt =====
-- internal/homeconnect/reconnect.go: the reconnect manager. `Run` is a step function over what
-- each turn of the loop observes; every call on the connection and every callback is an effect.
pub mod Backoff
pub mod Bounds
pub mod States
pub mod Ladder
use go_homeconnect2mqtt.Base.{
  ℕ, ◌+◌, Bool, true, false, not, ◌&&◌, Option, none, some, List, [], ◌∷◌, if◌then◌else◌,
}
use go_homeconnect2mqtt.Base.Int.{ℤ, pos, ltb_ℤ, leb_ℤ, ◌+64◌, ◌-64◌}

pub data ConnectionState : Type 0 where
  connecting connected reconnecting closing closed offline : ConnectionState

abbrev pub same_state : ConnectionState → ConnectionState → Bool
same_state connecting connecting = true
same_state connected connected = true
same_state reconnecting reconnecting = true
same_state closing closing = true
same_state closed closed = true
same_state offline offline = true
same_state _ _ = false

-- Durations are int64 nanoseconds.
pub record ReconnectConfig : Type 0 where
  pub initial_backoff : ℤ
  pub max_backoff : ℤ
  pub jitter : ℤ
  pub connect_timeout : ℤ
  pub log_throttle : ℤ
  pub has_on_state : Bool  -- OnState is not nil

-- What the manager does to the outside.
pub data Effect : Type 0 where
  connect : Option ℤ → Effect  -- conn.Connect, with a deadline where one is set
  close : Effect  -- conn.Close
  on_state : ConnectionState → Effect  -- cfg.OnState
  sleep : ℤ → Effect  -- time.After
  log_offline : ℕ → Effect  -- the warning, with the count of attempts

-- `last_offline` is none for the zero time. Effects are newest first.
pub record Manager : Type 0 where
  pub cfg : ReconnectConfig
  pub state : ConnectionState
  pub last_offline : Option ℤ
  pub offline_runs : ℕ
  pub trace : List Effect

abbrev pub second : ℤ
second = pos 1_000_000_000

abbrev pub default_max : ℤ
default_max = pos 30_000_000_000

abbrev or_default : ℤ → ℤ → ℤ
or_default d x = if leb_ℤ x (pos 0) then d else x

unfoldable pub new_manager : ReconnectConfig → Manager
new_manager c = record {
  cfg = record c {
    initial_backoff = or_default second c.initial_backoff;
    max_backoff = or_default default_max c.max_backoff;
    log_throttle = or_default default_max c.log_throttle;
  };
  state = closed;
  last_offline = none;
  offline_runs = 0;
  trace = [];
}

abbrev pub emit : Effect → Manager → Manager
emit e m = record m { trace = e ∷ m.trace }

unfoldable pub set_state : ConnectionState → Manager → Manager
set_state s m =
    let changed = not (same_state m.state s) in
    let m' = record m { state = s } in
    if changed && m.cfg.has_on_state then emit (on_state s) m' else m'

-- nextBackoff
unfoldable pub next_backoff : ReconnectConfig → ℤ → ℤ
next_backoff c d = let d2 = d +64 d in if ltb_ℤ c.max_backoff d2 then c.max_backoff else d2

-- jittered: `rand_int` is the injected source of randomness.
unfoldable pub jittered : ReconnectConfig → (ℤ → ℤ) → ℤ → ℤ
jittered c rand_int d =
    let delta = rand_int (c.jitter +64 c.jitter) -64 c.jitter in
    let sum = d +64 delta in
    if leb_ℤ c.jitter (pos 0) then d else if ltb_ℤ sum (pos 0) then pos 0 else sum

-- connectOnce, up to the call of conn.Connect
unfoldable pub connect_once : Manager → Manager
connect_once m =
    if leb_ℤ m.cfg.connect_timeout (pos 0)
    then emit (connect none) m
    else emit (connect (some m.cfg.connect_timeout)) m

-- wait, up to its select: no timer is started for a delay that is not positive
unfoldable pub start_wait : ℤ → Manager → Manager
start_wait d m = if leb_ℤ d (pos 0) then m else emit (sleep d) m

abbrev throttled : ReconnectConfig → ℤ → Option ℤ → Bool
throttled c now none = false
throttled c now (some last) = ltb_ℤ (now -64 last) c.log_throttle

unfoldable pub log_offline_run : ℤ → Manager → Manager
log_offline_run now m =
    let m' = record m { offline_runs = m.offline_runs + 1 } in
    if throttled m.cfg now m.last_offline
    then m'
    else record (emit (log_offline m'.offline_runs) m') { last_offline = some now }

unfoldable pub reset_offline_log : Manager → Manager
reset_offline_log m = record m { last_offline = none; offline_runs = 0 }

-- The points at which `Run` waits for something, and the end.
pub data Point : Type 0 where
  top dialing waiting_offline up waiting_reconnect stopped : Point

pub record Loop : Type 0 where
  pub manager : Manager
  pub backoff : ℤ
  pub point : Point

-- What the loop finds when it goes on: whether the context is cancelled (ctx.Err, the select in
-- `wait`, the select while connected), whether Connect succeeded, the clock, the random source.
pub record Observation : Type 0 where
  pub cancelled : Bool
  pub connects : Bool
  pub now : ℤ
  pub rand_int : ℤ → ℤ

abbrev stop : Manager → ℤ → Loop
stop m b = record { manager = set_state closed m; backoff = b; point = stopped }

-- A failed connect releases what it left behind, reports offline and starts the wait.
connect_failed : Observation → Loop → Loop
unfolding set_state log_offline_run start_wait
connect_failed o l =
    let m = log_offline_run o.now (set_state offline (emit close l.manager)) in
    record {
      manager = start_wait (jittered m.cfg o.rand_int l.backoff) m;
      backoff = l.backoff;
      point = waiting_offline;
    }

connect_succeeded : Loop → Loop
unfolding set_state reset_offline_log
connect_succeeded l =
    let m = reset_offline_log (set_state connected l.manager) in
    record { manager = m; backoff = m.cfg.initial_backoff; point = up }

dropped : Observation → Loop → Loop
unfolding set_state start_wait
dropped o l =
    let m = emit close (set_state reconnecting l.manager) in
    record {
      manager = start_wait (jittered m.cfg o.rand_int l.backoff) m;
      backoff = l.backoff;
      point = waiting_reconnect;
    }

dispatch : Point → Observation → Loop → Loop
unfolding set_state connect_once connect_failed connect_succeeded dropped
dispatch top o l =
    if o.cancelled
    then stop l.manager l.backoff
    else record l { manager = connect_once (set_state connecting l.manager); point = dialing }
dispatch dialing o l = if o.connects then connect_succeeded l else connect_failed o l
dispatch waiting_offline o l =
    if o.cancelled
    then stop l.manager l.backoff
    else record l { backoff = next_backoff l.manager.cfg l.backoff; point = top }
dispatch up o l =
    if o.cancelled then stop (emit close (set_state closing l.manager)) l.backoff else dropped o l
dispatch waiting_reconnect o l =
    if o.cancelled then stop l.manager l.backoff else record l { point = top }
dispatch stopped o l = l

unfoldable pub step : Observation → Loop → Loop
unfolding dispatch
step o l = dispatch l.point o l

unfoldable pub start : ReconnectConfig → Loop
unfolding new_manager
start c =
    let m = new_manager c in record { manager = m; backoff = m.cfg.initial_backoff; point = top }

unfoldable pub run : Loop → List Observation → Loop
run l [] = l
run l (o ∷ os) = run (step o l) os
