-- ===== src/Command/Window/Retries.antt =====
-- What the retries of writeWithWindow in internal/bridge/command.go come to.
use go_homeconnect2mqtt.Base.{
  ℕ, zero, suc, ◌+◌, ◌≤◌, inl, inr, Bool-cases, Option-cases, Option, none, some, List, [], length,
  length-append, All, All-append, get_elem?, Result, ok, err, arith,
}
use go_homeconnect2mqtt.Base.Int.{ℤ}
use go_homeconnect2mqtt.Value.{Value, Host}
use go_homeconnect2mqtt.Entity.{writable}
use go_homeconnect2mqtt.Appliance.{Appliance, Call, ApplianceError, write_value}
use go_homeconnect2mqtt.Appliance.Gate.{IsAllowed, write_value_gate}
use go_homeconnect2mqtt.Handshake.Exec.{SessionError}
use go_homeconnect2mqtt.Command.{Attempt, Reason, write_failed, not_writable, Done}
use go_homeconnect2mqtt.Command.Window.{is_window_error, retry, wrote, turn, window}

module _ {F : Type 0} where
  abbrev calls_of : Option (Done F) → List (Call F)
  calls_of none = []
  calls_of (some d) = d.calls

  module _ (P : Call F → Type 0) (at : Attempt F) where
    retry-calls :
        (more : Option (Done F)) (why : Reason) (cs : List (Call F))
        → All P cs
        → All P (calls_of more)
        → (length (retry at more why cs).calls ≤ length cs + length (calls_of more))
          × All P (retry at more why cs).calls
    retry-calls none why cs h k = (omega arith, h)
    retry-calls (some m) why cs h k = elim (Bool-cases at.cancelled) [
      | inl gone ↦ rw gone (omega arith, h)
      | inr stays ↦ rw stays (omega (arith, length-append cs m.calls), All-append P cs m.calls h k)
    ]

    wrote-calls :
        (more : Option (Done F))
        (r : Result (ApplianceError SessionError) (Unit {0}) × List (Call F) × Appliance F)
        → All P r.1
        → All P (calls_of more)
        → (length (wrote at more r).calls ≤ length r.1 + length (calls_of more))
          × All P (wrote at more r).calls
    wrote-calls more (ok _, cs, a) h k = (omega arith, h)
    wrote-calls more (err x, cs, a) h k = elim (Bool-cases (is_window_error x)) [
      | inl again ↦ rw again (retry-calls more write_failed cs h k)
      | inr final ↦ rw final (omega arith, h)
    ]

module _ (host : Host) (i : ℕ) (v : Value host.Float) where
  open host use {Float}

  -- A write of `v` that was allowed at one of the attempts.
  abbrev pub WasAllowed : (ℕ → Attempt Float) → Call Float → Type 0
  WasAllowed seen call = (k : ℕ) × (uid : ℤ) × IsAllowed host uid v (seen k).appliance call

  write_value-calls :
      (seen : ℕ → Attempt Float) (n : ℕ) (uid : ℤ)
      → let r = write_value host (seen n).answer uid v (seen n).appliance in
        (length r.1 ≤ 1) × All (WasAllowed seen) r.1
  write_value-calls seen n uid =
      elim (write_value_gate host (seen n).answer uid v (seen n).appliance) [
        | inl (x, e) ↦ rw e (omega arith, tt)
        | inr (call, e, allowed) ↦ rw e (omega arith, ((n, uid, allowed), tt))
      ]

  turn-calls :
      (seen : ℕ → Attempt Float) (n : ℕ) (more : Option (Done Float))
      → All (WasAllowed seen) (calls_of more)
      → (length (turn host i v (seen n) more).calls ≤ suc (length (calls_of more)))
        × All (WasAllowed seen) (turn host i v (seen n) more).calls
  unfolding turn
  turn-calls seen n more h = elim (Option-cases (get_elem? (seen n).appliance.entities i)) [
    | inl gone ↦ rw (turn, gone) (omega arith, tt)
    | inr (e, there) ↦ elim (Bool-cases (writable e)) [
      | inl free ↦
          let (one, all) = write_value-calls seen n e.desc.uid in
          let r = write_value host (seen n).answer e.desc.uid v (seen n).appliance in
          let (few, all') = wrote-calls (WasAllowed seen) (seen n) more r all h in
          rw (turn, there, free) (omega arith, all')
      | inr fixed ↦
          let (few, all) = retry-calls (WasAllowed seen) (seen n) more not_writable [] tt h in
          rw (turn, there, fixed) (omega arith, all)
    ]
  ]

  -- A write makes at most one call more than there are retries, and each call writes the value to an
  -- entity that accepted it at one of the attempts.
  pub window-calls :
      (seen : ℕ → Attempt Float) (left n : ℕ)
      → (length (window host i v seen left n).calls ≤ suc left)
        × All (WasAllowed seen) (window host i v seen left n).calls
  unfolding window
  window-calls seen zero n = turn-calls seen n none tt
  window-calls seen (suc left) n =
      let (few, all) = window-calls seen left (suc n) in
      let (few', all') = turn-calls seen n (some (window host i v seen left (suc n))) all in
      (omega arith, all')
