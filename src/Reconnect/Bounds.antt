-- ===== src/Reconnect/Bounds.antt =====
-- Invariants of the loop of `Run` in internal/homeconnect/reconnect.go: its backoff and its
-- connections.
use Prim.Native.Nat.{min}
use go_homeconnect2mqtt.Base.{
  ℕ, suc, ◌+◌, ◌≤◌, ◌<◌, ◌≡◌, ◌⊎◌, inl, inr, refl, ap, ◌∙◌, List, [], ◌∷◌, arith,
}
use go_homeconnect2mqtt.Base.Int.{pos}
use go_homeconnect2mqtt.Reconnect.{
  ConnectionState, ReconnectConfig, Effect, connect, close, Manager, set_state, Point, dialing, up,
  Loop, Observation, step, start, run, next_backoff,
}
use go_homeconnect2mqtt.Reconnect.Backoff.{nanos_limit, next_backoff_lem}

-- The configuration of a manager is in use: positive, ordered and within the range of a duration.
pub record IsUsable (c : ReconnectConfig) (low top : ℕ) : Type 0 where
  pub initial : c.initial_backoff ≡ pos low
  pub maximum : c.max_backoff ≡ pos top
  pub ordered : low ≤ top
  pub in_range : top < nanos_limit

-- The backoff between the initial and the maximal one, under a configuration that stays as it is.
pub record BackoffInv (c : ReconnectConfig) (low top : ℕ) (l : Loop) : Type 0 where
  pub kept : l.manager.cfg ≡ c
  pub value : ℕ
  pub is_value : l.backoff ≡ pos value
  pub above : low ≤ value
  pub below : value ≤ top

module _ (s : ConnectionState) (m : Manager) where
  pub set_state-cfg : (set_state s m).cfg ≡ m.cfg
  unfolding set_state
  set_state-cfg = ground arith

  pub state-set_state : (set_state s m).state ≡ s
  unfolding set_state
  state-set_state = ground arith

pub step-cfg : (o : Observation) (l : Loop) → (step o l).manager.cfg ≡ l.manager.cfg
unfolding step
step-cfg o l = ground arith

-- Each step leaves the backoff, doubles it up to the maximum, or resets it.
pub step-backoff :
    (o : Observation) (l : Loop)
    → ((step o l).backoff ≡ l.backoff)
      ⊎ ((step o l).backoff ≡ l.manager.cfg.initial_backoff)
      ⊎ ((step o l).backoff ≡ next_backoff l.manager.cfg l.backoff)
unfolding step
step-backoff o l = ground arith

module _ {c : ReconnectConfig} {low high : ℕ} (u : IsUsable c low high) where
  step-BackoffInv :
      (o : Observation) (l : Loop) → BackoffInv c low high l → BackoffInv c low high (step o l)
  step-BackoffInv o l v = elim (step-backoff o l) [
    | inl same ↦ record {
      kept = step-cfg o l ∙ v.kept;
      value = v.value;
      is_value = same ∙ v.is_value;
      above = v.above;
      below = v.below;
    }
    | inr (inl reset) ↦ record {
      kept = step-cfg o l ∙ v.kept;
      value = low;
      is_value = reset ∙ ap (λ k. k.initial_backoff) v.kept ∙ u.initial;
      above = omega arith;
      below = u.ordered;
    }
    | inr (inr next) ↦ record {
      kept = step-cfg o l ∙ v.kept;
      value = min (v.value + v.value) high;
      is_value =
          next
          ∙ ap (λ k. next_backoff k l.backoff) v.kept
          ∙ ap (next_backoff c) v.is_value
          ∙ next_backoff_lem c v.value high u.maximum (omega (arith, v.below, u.in_range));
      above = omega (arith, v.above, v.below, u.ordered);
      below = omega arith;
    }
  ]

  pub run-BackoffInv :
      (l : Loop) (os : List Observation)
      → BackoffInv c low high l
      → BackoffInv c low high (run l os)
  unfolding run
  run-BackoffInv l [] v = v
  run-BackoffInv l (o ∷ os) v = run-BackoffInv (step o l) os (step-BackoffInv o l v)

pub start-IsUsable :
    (c : ReconnectConfig) (low high : ℕ)
    → 0 < low
    → IsUsable c low high
    → IsUsable (start c).manager.cfg low high
unfolding start
start-IsUsable c low high p u = ground (arith, u.initial, u.maximum)

start-BackoffInv :
    (c : ReconnectConfig) (low high : ℕ)
    → IsUsable (start c).manager.cfg low high
    → BackoffInv (start c).manager.cfg low high (start c)
unfolding start
start-BackoffInv c low high u = record {
  kept = refl;
  value = low;
  is_value = u.initial;
  above = omega arith;
  below = u.ordered;
}

-- With a positive initial backoff, at most the maximum, and a maximum in the range of a duration,
-- the backoff after any observations lies between the two.
pub backoff_bounds :
    (c : ReconnectConfig) (low high : ℕ) (os : List Observation)
    → 0 < low
    → IsUsable c low high
    → (b : ℕ) × ((run (start c) os).backoff ≡ pos b) × (low ≤ b) × (b ≤ high)
backoff_bounds c low high os p u =
    let u' = start-IsUsable c low high p u in
    let v = run-BackoffInv u' (start c) os (start-BackoffInv c low high u') in
    (v.value, v.is_value, v.above, v.below)

abbrev pub connects : List Effect → ℕ
connects [] = 0
connects (connect _ ∷ es) = suc (connects es)
connects (_ ∷ es) = connects es

abbrev pub closes : List Effect → ℕ
closes [] = 0
closes (close ∷ es) = suc (closes es)
closes (_ ∷ es) = closes es

-- A connection is open, or being opened.
abbrev pub open_at : Point → ℕ
open_at dialing = 1
open_at up = 1
open_at _ = 0

abbrev pub IsBalanced : Loop → Type 0
IsBalanced l = connects l.manager.trace ≡ closes l.manager.trace + open_at l.point

step-IsBalanced : (o : Observation) (l : Loop) → IsBalanced l → IsBalanced (step o l)
unfolding step
step-IsBalanced o l v = ground arith

run-IsBalanced : (l : Loop) (os : List Observation) → IsBalanced l → IsBalanced (run l os)
unfolding run
run-IsBalanced l [] v = v
run-IsBalanced l (o ∷ os) v = run-IsBalanced (step o l) os (step-IsBalanced o l v)

-- After any observations, the calls of Connect outnumber those of Close by one while a connection
-- is open or being opened, and by none otherwise: the manager never holds two connections.
pub one_connection :
    (c : ReconnectConfig) (os : List Observation)
    → connects (run (start c) os).manager.trace
      ≡ closes (run (start c) os).manager.trace + open_at (run (start c) os).point
one_connection c os = run-IsBalanced (start c) os (unfold start in refl)
