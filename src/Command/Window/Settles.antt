-- ===== src/Command/Window/Settles.antt =====
-- Which attempt of writeWithWindow in internal/bridge/command.go decides.
use go_homeconnect2mqtt.Base.{
  ℕ, zero, suc, ◌+◌, ◌≤◌, ◌<◌, ◌≡◌, ◌⊎◌, inl, inr, refl, ◌∙◌, Bool, true, false, Bool-cases,
  Option-cases, Option, none, some, List, get_elem?, Result, ok, err, arith, if◌then◌else◌,
}
use go_homeconnect2mqtt.Value.{Value, Host}
use go_homeconnect2mqtt.Entity.{writable}
use go_homeconnect2mqtt.Appliance.{Appliance, Call, ApplianceError, write_value}
use go_homeconnect2mqtt.Handshake.Exec.{SessionError}
use go_homeconnect2mqtt.Command.{Attempt, Done}
use go_homeconnect2mqtt.Command.Window.{is_window_error, wrote, turn, window}

abbrev refused_for_now : Result (ApplianceError SessionError) (Unit {0}) → Bool
refused_for_now (ok _) = false
refused_for_now (err x) = is_window_error x

module _ {F : Type 0} (at : Attempt F) where
  wrote_again :
      (m : Done F)
      (r : Result (ApplianceError SessionError) (Unit {0}) × List (Call F) × Appliance F)
      → refused_for_now r.0 ≡ true
      → at.cancelled ≡ false
      → (wrote at (some m) r).ending ≡ m.ending
  wrote_again m (ok _, cs, a) b c = cc
  wrote_again m (err x, cs, a) b c = rw (b, c) refl

  wrote_final :
      (more : Option (Done F))
      (r : Result (ApplianceError SessionError) (Unit {0}) × List (Call F) × Appliance F)
      → refused_for_now r.0 ≡ false
      → (wrote at more r).ending ≡ (wrote at none r).ending
  wrote_final more (ok _, cs, a) b = refl
  wrote_final more (err x, cs, a) b = rw b refl

-- `n + j`, so that it computes.
abbrev onward : ℕ → ℕ → ℕ
onward zero n = n
onward (suc j) n = onward j (suc n)

onward_lem : (j n : ℕ) → onward j n ≡ j + n
onward_lem zero n = omega arith
onward_lem (suc j) n = omega (arith, onward_lem j (suc n))

onward_zero : (j : ℕ) → onward j 0 ≡ j
onward_zero j = omega (arith, onward_lem j 0)

module _ (host : Host) (i : ℕ) (v : Value host.Float) where
  open host use {Float}

  -- The attempt meets a closed window: the feature is not writable, or the appliance answers 541.
  unfoldable pub is_busy : Attempt Float → Bool
  is_busy at = elim (get_elem? at.appliance.entities i) [
    | none ↦ false
    | some e ↦
        if writable e
        then refused_for_now (write_value host at.answer e.desc.uid v at.appliance).0
        else true
  ]

  turn_busy :
      (at : Attempt Float) (m : Done Float)
      → is_busy at ≡ true
      → at.cancelled ≡ false
      → (turn host i v at (some m)).ending ≡ m.ending
  unfolding turn is_busy
  turn_busy at m b c = elim (Option-cases (get_elem? at.appliance.entities i)) [
    | inl gone ↦ let no : false ≡ true = rw (is_busy, gone) at b in cc
    | inr (e, there) ↦ elim (Bool-cases (writable e)) [
      | inr fixed ↦ rw (turn, there, fixed, c) refl
      | inl free ↦
          let r = write_value host at.answer e.desc.uid v at.appliance in
          let b' : refused_for_now r.0 ≡ true = rw (is_busy, there, free) at b in
          rw (turn, there, free) (wrote_again at m r b' c)
    ]
  ]

  turn_final :
      (at : Attempt Float) (more : Option (Done Float))
      → is_busy at ≡ false
      → (turn host i v at more).ending ≡ (turn host i v at none).ending
  unfolding turn is_busy
  turn_final at more b = elim (Option-cases (get_elem? at.appliance.entities i)) [
    | inl gone ↦ rw (turn, gone) refl
    | inr (e, there) ↦ elim (Bool-cases (writable e)) [
      | inr fixed ↦ let no : true ≡ false = rw (is_busy, there, fixed) at b in cc
      | inl free ↦
          let r = write_value host at.answer e.desc.uid v at.appliance in
          let b' : refused_for_now r.0 ≡ false = rw (is_busy, there, free) at b in
          rw (turn, there, free) (wrote_final at more r b')
    ]
  ]

  next_final :
      (seen : ℕ → Attempt Float) (k left n : ℕ)
      → (is_busy (seen (onward k (suc n))) ≡ false) ⊎ (suc k ≡ suc left)
      → (is_busy (seen (onward k (suc n))) ≡ false) ⊎ (k ≡ left)
  next_final seen k left n (inl f) = inl f
  next_final seen k left n (inr e) = inr (omega (arith, e))

  settles :
      (seen : ℕ → Attempt Float) (k left n : ℕ)
      → k ≤ left
      → ((j : ℕ)
          → j < k
          → (is_busy (seen (onward j n)) ≡ true) × ((seen (onward j n)).cancelled ≡ false))
      → (is_busy (seen (onward k n)) ≡ false) ⊎ (k ≡ left)
      → (window host i v seen left n).ending ≡ (turn host i v (seen (onward k n)) none).ending
  unfolding window
  settles seen zero zero n l h f = refl
  settles seen zero (suc left) n l h (inl f) =
      turn_final (seen n) (some (window host i v seen left (suc n))) f
  settles seen zero (suc left) n l h (inr f) = ground arith
  settles seen (suc k) zero n l h f = ground arith
  settles seen (suc k) (suc left) n l h f =
      turn_busy (seen n) (window host i v seen left (suc n)) (h 0 (omega arith)).0
        (h 0 (omega arith)).1
      ∙ settles seen k left (suc n) (omega arith) (λ j less. h (suc j) (omega arith))
          (next_final seen k left n f)

  -- The first attempt that does not meet a closed window decides how the write ends, as if it were
  -- the only one; where all attempts up to the last meet one, the last decides. The others must
  -- not be cut off by the context.
  pub window_settles :
      (seen : ℕ → Attempt Float) (k retries : ℕ)
      → k ≤ retries
      → ((j : ℕ) → j < k → (is_busy (seen j) ≡ true) × ((seen j).cancelled ≡ false))
      → (is_busy (seen k) ≡ false) ⊎ (k ≡ retries)
      → (window host i v seen retries 0).ending ≡ (turn host i v (seen k) none).ending
  window_settles seen k retries l h f =
      let e = onward_zero k in
      let g : (window host i v seen retries 0).ending
          ≡ (turn host i v (seen (onward k 0)) none).ending =
        settles seen k retries 0 l (λ j less. rw (onward_zero j) (h j less)) (rw e f) in
      rw e at g
