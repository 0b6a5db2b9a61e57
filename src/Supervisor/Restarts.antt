-- ===== src/Supervisor/Restarts.antt =====
-- The restarts of Device.run (internal/bridge/device.go).
use go_homeconnect2mqtt.Base.{
  ℕ, ◌*◌, ◌≤◌, ◌≡◌, inl, inr, true, false, Bool-cases, List, [], ◌∷◌, All, leb, arith,
}
use go_homeconnect2mqtt.Supervisor.{
  restart_initial_backoff, restart_max_backoff, restart_stable_run, Turn, WorkerAction,
  reports_offline, waits, returns, capped, restarted_from, supervise,
}

abbrev pub WaitsWithin : WorkerAction → Type 0
WaitsWithin (waits n) = (restart_initial_backoff ≤ n) × (n ≤ restart_max_backoff)
WaitsWithin _ = Unit

abbrev InRange : ℕ → Type 0
InRange n = (restart_initial_backoff ≤ n) × (n ≤ restart_max_backoff)

restarted-InRange : (took n : ℕ) → InRange n → InRange (restarted_from took n)
restarted-InRange took n (lo, hi) = elim (Bool-cases (leb restart_stable_run took)) [
  | inl stable ↦ rw stable (omega arith, omega arith)
  | inr short ↦ rw short (lo, hi)
]

doubled-InRange : (n : ℕ) → InRange n → InRange (capped (n * 2))
doubled-InRange n (lo, hi) = (ground arith, ground arith)

supervised : (n : ℕ) (ts : List Turn) → InRange n → All WaitsWithin (supervise n ts)
unfolding supervise
supervised n [] r = tt
supervised n (t ∷ ts) r =
    let here = restarted-InRange t.took n r in
    elim (Bool-cases t.panicked) [
      | inr ended ↦ rw ended (tt, tt)
      | inl panicked ↦ elim (Bool-cases t.cancelled) [
        | inl gone ↦ rw (panicked, gone) (tt, (here, (tt, tt)))
        | inr stays ↦
            rw (panicked, stays)
              (
                tt,
                (
                  here,
                  supervised (capped (restarted_from t.took n * 2)) ts (doubled-InRange _ here),
                ),
              )
      ]
    ]

-- A wait stands behind a report that the device is offline, and nowhere else.
abbrev pub OfflineFirst : List WorkerAction → Type 0
OfflineFirst [] = Unit
OfflineFirst (returns ∷ rest) = OfflineFirst rest
OfflineFirst (reports_offline ∷ waits n ∷ rest) = OfflineFirst rest
OfflineFirst _ = ⊥

offline_before : (n : ℕ) (ts : List Turn) → OfflineFirst (supervise n ts)
unfolding supervise
offline_before n [] = tt
offline_before n (t ∷ ts) = elim (Bool-cases t.panicked) [
  | inr ended ↦ rw ended tt
  | inl panicked ↦ elim (Bool-cases t.cancelled) [
    | inl gone ↦ rw (panicked, gone) tt
    | inr stays ↦ rw (panicked, stays) (offline_before (capped (restarted_from t.took n * 2)) ts)
  ]
]

abbrev pub GoesOn : Turn → Type 0
GoesOn t = (t.panicked ≡ true) × (t.cancelled ≡ false)

abbrev pub IsNoReturn : WorkerAction → Type 0
IsNoReturn returns = ⊥
IsNoReturn _ = Unit

never_returns : (n : ℕ) (ts : List Turn) → All GoesOn ts → All IsNoReturn (supervise n ts)
unfolding supervise
never_returns n [] h = tt
never_returns n (t ∷ ts) ((panicked, stays), h) =
    rw (panicked, stays) (tt, (tt, never_returns (capped (restarted_from t.took n * 2)) ts h))

-- A device's worker waits a second at least and half a minute at most before it starts a manager
-- that panicked again, and it reports the device offline before each wait. However often the
-- manager panics, the worker does not return while the context stays.
pub restarts_of_worker :
    (ts : List Turn)
    → let actions = supervise restart_initial_backoff ts in
      All WaitsWithin actions × OfflineFirst actions × (All GoesOn ts → All IsNoReturn actions)
restarts_of_worker ts = (
  supervised restart_initial_backoff ts (omega arith, omega arith),
  offline_before restart_initial_backoff ts,
  never_returns restart_initial_backoff ts,
)
