-- ===== src/Reconnect/States.antt =====
-- The lifecycle that `Run` of internal/homeconnect/reconnect.go reports through OnState.
use go_homeconnect2mqtt.Base.{◌≡◌, ◌≢◌, refl, Bool, true, false, List, [], ◌∷◌, ◌++◌, All, arith}
use go_homeconnect2mqtt.Reconnect.{
  ConnectionState, connecting, connected, reconnecting, closing, closed, offline, ReconnectConfig,
  Effect, on_state, Point, top, dialing, waiting_offline, up, waiting_reconnect, stopped, Loop,
  Observation, step, start, run,
}

-- The lifecycle of docs/01-protocol.md: which state may follow which.
abbrev pub follows : ConnectionState → ConnectionState → Bool
follows closed connecting = true
follows connecting connected = true
follows connecting offline = true
follows connected closing = true
follows connected reconnecting = true
follows reconnecting connecting = true
follows reconnecting closed = true
follows offline connecting = true
follows offline closed = true
follows closing closed = true
follows _ _ = false

-- The state that was reported last; a manager begins as closed.
abbrev pub latest : List Effect → ConnectionState
latest [] = closed
latest (on_state s ∷ es) = s
latest (_ ∷ es) = latest es

-- Each reported state may follow the one reported before it.
abbrev pub IsWalk : List Effect → Type 0
IsWalk [] = Unit
IsWalk (on_state s ∷ es) = (follows (latest es) s ≡ true) × IsWalk es
IsWalk (_ ∷ es) = IsWalk es

-- The states that the manager can have at a point of its loop.
abbrev pub state_at : Point → ConnectionState → Bool
state_at top closed = true
state_at top offline = true
state_at top reconnecting = true
state_at dialing connecting = true
state_at waiting_offline offline = true
state_at up connected = true
state_at waiting_reconnect reconnecting = true
state_at stopped closed = true
state_at _ _ = false

pub record StateInv (l : Loop) : Type 0 where
  pub reports : l.manager.cfg.has_on_state ≡ true
  pub reported : latest l.manager.trace ≡ l.manager.state
  pub walk : IsWalk l.manager.trace
  pub placed : state_at l.point l.manager.state ≡ true

step_unstopped :
    (o : Observation) (l : Loop)
    → o.cancelled ≡ false
    → l.point ≢ stopped
    → (step o l).point ≢ stopped
unfolding step
step_unstopped o l h p = ground arith

run_unstopped :
    (l : Loop) (os : List Observation)
    → All (λ o. o.cancelled ≡ false) os
    → l.point ≢ stopped
    → (run l os).point ≢ stopped
unfolding run
run_unstopped l [] h p = p
run_unstopped l (o ∷ os) h p = run_unstopped (step o l) os h.1 (step_unstopped o l h.0 p)

-- Failing connects and drops never end the loop: while the context is not cancelled, it goes on.
pub only_cancel_stops :
    (c : ReconnectConfig) (os : List Observation)
    → All (λ o. o.cancelled ≡ false) os
    → (run (start c) os).point ≢ stopped
only_cancel_stops c os h = run_unstopped (start c) os h (unfold start in λ e. cc)

run-append : (l : Loop) (os ps : List Observation) → run l (os ++ ps) ≡ run (run l os) ps
unfolding run
run-append l [] ps = refl
run-append l (o ∷ os) ps = run-append (step o l) os ps

two_cancelled :
    (a b : Observation) (l : Loop)
    → a.cancelled ≡ true
    → b.cancelled ≡ true
    → (step b (step a l)).point ≡ stopped
unfolding step
two_cancelled a b l h k = ground arith

-- Once the context is cancelled, the loop returns after at most two more observations, whatever
-- it was doing and whatever the connect in progress does.
pub cancel_stops :
    (c : ReconnectConfig) (os : List Observation) (a b : Observation)
    → a.cancelled ≡ true
    → b.cancelled ≡ true
    → (run (start c) (os ++ a ∷ b ∷ [])).point ≡ stopped
unfolding run
cancel_stops c os a b h k =
    rw (run-append (start c) os (a ∷ b ∷ [])) (two_cancelled a b (run (start c) os) h k)
