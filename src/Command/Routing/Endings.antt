-- ===== src/Command/Routing/Endings.antt =====
-- How a set on a command topic ends (internal/bridge/command.go).
use go_homeconnect2mqtt.Base.{
  ℕ, zero, suc, ◌≤◌, ◌≡◌, inl, inr, refl, Bool, true, false, Bool-cases, Option-cases, Option, none,
  some, List, [], ◌∷◌, ◌++◌, ◌||◌, or_true, length, Result, ok, err, get_elem?,
}
use go_homeconnect2mqtt.Base.Keys.{text_key}
use go_homeconnect2mqtt.Value.{Value, Host}
use go_homeconnect2mqtt.Entity.{writable}
use go_homeconnect2mqtt.Appliance.{Appliance, Call, ApplianceError, write_value}
use go_homeconnect2mqtt.Appliance.Gate.{write_value_gate}
use go_homeconnect2mqtt.Handshake.Exec.{SessionError}
use go_homeconnect2mqtt.Command.{
  Attempt, Reason, write_failed, not_writable, Ending, succeeded, abandoned, ignored, rejected,
  Done,
}
use go_homeconnect2mqtt.Command.Window.{is_window_error, retry, wrote, turn, window}

-- Whether the context ends in one of the waits of the window, which stands behind each attempt but the
-- last one.
unfoldable pub cancels_within : {F : Type 0} → (ℕ → Attempt F) → ℕ → ℕ → Bool
cancels_within seen zero n = false
cancels_within seen (suc left) n =
    let rest = cancels_within seen left (suc n) in (seen n).cancelled || rest

-- Whether a command that made `n` calls may end so: it is not ignored, none succeeds without a call,
-- and it ends without a word only where the context ends.
abbrev pub is_answered : Bool → Ending → ℕ → Bool
is_answered gone succeeded zero = false
is_answered gone succeeded (suc n) = true
is_answered gone ignored n = false
is_answered gone abandoned n = gone
is_answered gone (rejected r) n = true

abbrev pub Answers : {F : Type 0} → Bool → Done F → Type 0
Answers gone d = is_answered gone d.ending (length d.calls) ≡ true

-- `d` answers a set, with at most one call more than there are retries.
abbrev pub AnswersWithin : {F : Type 0} → Bool → ℕ → Done F → Type 0
AnswersWithin gone retries d = Answers gone d × (length d.calls ≤ suc retries)

-- What is answered while the context stays is answered where it may end.
answered_anyway :
    (a b : Bool) (end : Ending) (n : ℕ)
    → is_answered b end n ≡ true
    → is_answered (a || b) end n ≡ true
answered_anyway a b succeeded zero h = h
answered_anyway a b succeeded (suc n) h = h
answered_anyway a b ignored n h = h
answered_anyway a b abandoned n h = rw h (or_true a)
answered_anyway a b (rejected r) n h = h

module _ {F : Type 0} where
  answered_later :
      (gone : Bool) (end : Ending) (c : Call F) (cs : List (Call F))
      → is_answered gone end (length cs) ≡ true
      → is_answered gone end (length (c ∷ cs)) ≡ true
  answered_later gone succeeded c cs h = refl
  answered_later gone abandoned c cs h = h
  answered_later gone ignored c cs h = h
  answered_later gone (rejected r) c cs h = refl

  answered-append :
      (gone : Bool) (end : Ending) (cs ds : List (Call F))
      → is_answered gone end (length ds) ≡ true
      → is_answered gone end (length (cs ++ ds)) ≡ true
  answered-append gone end [] ds h = h
  answered-append gone end (c ∷ cs) ds h =
      answered_later gone end c (cs ++ ds) (answered-append gone end cs ds h)

  -- what stands behind the wait answers too
  abbrev AnswersLater : Bool → Option (Done F) → Type 0
  AnswersLater gone none = Unit
  AnswersLater gone (some d) = Answers gone d

  -- The end of the wait behind an attempt counts where there is a wait.
  abbrev Counts : Bool → Attempt F → Option (Done F) → Type 0
  Counts gone at none = Unit
  Counts gone at (some d) = at.cancelled ≡ true → gone ≡ true

  retry-Answers :
      (gone : Bool) (at : Attempt F) (more : Option (Done F)) (why : Reason) (cs : List (Call F))
      → Counts gone at more
      → AnswersLater gone more
      → Answers gone (retry at more why cs)
  retry-Answers gone at none why cs k h = refl
  retry-Answers gone at (some m) why cs k h = elim (Bool-cases at.cancelled) [
    | inl ends ↦ rw ends (k ends)
    | inr stays ↦ rw stays (answered-append gone m.ending cs m.calls h)
  ]

  wrote_err-Answers :
      (gone : Bool) (at : Attempt F) (more : Option (Done F)) (x : ApplianceError SessionError)
      (cs : List (Call F)) (a : Appliance F)
      → Counts gone at more
      → AnswersLater gone more
      → Answers gone (wrote at more (err x, cs, a))
  wrote_err-Answers gone at more x cs a k h = elim (Bool-cases (is_window_error x)) [
    | inl again ↦ rw again (retry-Answers gone at more write_failed cs k h)
    | inr final ↦ rw final refl
  ]

  wrote-Answers :
      (gone : Bool) (at : Attempt F) (more : Option (Done F))
      (r : Result (ApplianceError SessionError) (Unit {0}) × List (Call F) × Appliance F)
      (c : Call F)
      → r.1 ≡ c ∷ []
      → Counts gone at more
      → AnswersLater gone more
      → Answers gone (wrote at more r)
  wrote-Answers gone at more (ok _, cs, a) c e k h = rw e refl
  wrote-Answers gone at more (err x, cs, a) c e k h = wrote_err-Answers gone at more x cs a k h

module _ (host : Host) where
  open host use {Float, lower}

  turn-Answers :
      (gone : Bool) (i : ℕ) (v : Value Float) (at : Attempt Float) (more : Option (Done Float))
      → Counts gone at more
      → AnswersLater gone more
      → Answers gone (turn host i v at more)
  unfolding turn
  turn-Answers gone i v at more k h = elim (Option-cases (get_elem? at.appliance.entities i)) [
    | inl missing ↦ rw (turn, missing) refl
    | inr (e, there) ↦ elim (Bool-cases (writable e)) [
      | inr fixed ↦ rw (turn, there, fixed) (retry-Answers gone at more not_writable [] k h)
      | inl free ↦ elim (write_value_gate host at.answer e.desc.uid v at.appliance) [
        | inl (x, none_sent) ↦
            rw (turn, there, free, none_sent) (wrote_err-Answers gone at more x [] at.appliance k h)
        | inr (c, one, allowed) ↦
            rw (turn, there, free)
              (wrote-Answers gone at more (write_value host at.answer e.desc.uid v at.appliance) c
                one k h)
      ]
    ]
  ]

  pub window-Answers :
      (i : ℕ) (v : Value Float) (seen : ℕ → Attempt Float) (left n : ℕ)
      → Answers (cancels_within seen left n) (window host i v seen left n)
  unfolding window cancels_within
  window-Answers i v seen zero n = turn-Answers false i v (seen n) none tt tt
  window-Answers i v seen (suc left) n =
      let more = window host i v seen left (suc n) in
      let later = cancels_within seen left (suc n) in
      turn-Answers ((seen n).cancelled || later) i v (seen n) (some more) (λ e. rw e refl)
        (answered_anyway (seen n).cancelled later more.ending (length more.calls)
          (window-Answers i v seen left (suc n)))
