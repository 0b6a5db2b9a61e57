-- ===== src/Supervisor.antt =====
-- Device.run of internal/bridge/device.go: a device's manager is started again after a panic. Times
-- are in nanoseconds.
pub mod Restarts
use go_homeconnect2mqtt.Base.{ℕ, ◌+◌, ◌*◌, Bool, true, false, List, [], ◌∷◌, leb, if◌then◌else◌}

abbrev pub restart_initial_backoff : ℕ
restart_initial_backoff = 1000000000

abbrev pub restart_max_backoff : ℕ
restart_max_backoff = 30000000000

abbrev pub restart_stable_run : ℕ
restart_stable_run = 60000000000

-- What a turn of the loop meets: whether the run panicked and how long it took, and whether the
-- context ends in the wait behind it.
pub record Turn : Type 0 where
  pub panicked : Bool
  pub took : ℕ
  pub cancelled : Bool

-- What the loop does: it reports the device offline, waits, or returns.
pub data WorkerAction : Type 0 where
  reports_offline : WorkerAction
  waits : ℕ → WorkerAction
  returns : WorkerAction

abbrev pub capped : ℕ → ℕ
capped n = if leb n restart_max_backoff then n else restart_max_backoff

abbrev pub restarted_from : ℕ → ℕ → ℕ
restarted_from took backoff =
    if leb restart_stable_run took then restart_initial_backoff else backoff

-- run: the actions of the turns, from a backoff on
unfoldable pub supervise : ℕ → List Turn → List WorkerAction
supervise backoff [] = []
supervise backoff (t ∷ ts) =
    let wait = restarted_from t.took backoff in
    let rest = supervise (capped (wait * 2)) ts in
    if t.panicked
    then reports_offline ∷ waits wait ∷ (if t.cancelled then returns ∷ [] else rest)
    else returns ∷ []
