-- ===== src/Bridge/Republish/Guard.antt =====
-- The lock of republishDiscovery: who may stand behind it, and when turns are left.
use go_homeconnect2mqtt.Base.{
  ℕ, suc, ◌≤◌, ◌≡◌, refl, sym, ap, ◌∙◌, inl, inr, Bool, true, false, Bool-cases, Option, none, some,
  is_some, nat_beq, nat_beq_iff, absurd_bool, arith,
}
use go_homeconnect2mqtt.Bridge.Republish.{
  Phase, outside, at_gate, asked, locked, passing, returned, given_up, set_phase,
}

abbrev pub holds : Phase → Bool
holds locked = true
holds passing = true
holds _ = false

abbrev pub is_passing : Phase → Bool
is_passing passing = true
is_passing _ = false

-- Without a holder no call is behind the lock; a holder is the only one, and no turn is left while it
-- does not pass.
abbrev pub Guarded : ℕ → Option ℕ → (ℕ → Phase) → ℕ → Type 0
Guarded n none phase left = (left ≡ 0) × ((t : ℕ) → holds (phase t) ≡ false)
Guarded n (some h) phase left =
    ((t : ℕ) → holds (phase t) ≡ true → t ≡ h)
    × (is_passing (phase h) ≡ false → left ≡ 0)
    × (holds (phase h) ≡ true)
    × (left ≤ n)

pub set_phase-cases :
    (P : ℕ → Phase → Type 0) (t : ℕ) (p : Phase) (phase : ℕ → Phase)
    → P t p
    → ((u : ℕ) → nat_beq u t ≡ false → P u (phase u))
    → (u : ℕ) → P u (set_phase t p phase u)
set_phase-cases P t p phase here there u = elim (Bool-cases (nat_beq u t)) [
  | inl e ↦ rw (e, (nat_beq_iff u t).0 e) here
  | inr e ↦ rw e (there u e)
]

pub set_phase_self : (t : ℕ) (p : Phase) (phase : ℕ → Phase) → set_phase t p phase t ≡ p
set_phase_self t p phase = rw ((nat_beq_iff t t).1 refl) refl

not_passing : (p : Phase) → holds p ≡ false → is_passing p ≡ false
not_passing locked e = refl
not_passing passing e = e
not_passing outside e = refl
not_passing at_gate e = refl
not_passing asked e = refl
not_passing returned e = refl
not_passing given_up e = refl

-- A move of a call that neither holds the lock nor gets it.
pub Guarded-move :
    (n t : ℕ) (p : Phase) (holder : Option ℕ) (phase : ℕ → Phase) (left : ℕ)
    → holds p ≡ false
    → holds (phase t) ≡ false
    → Guarded n holder phase left
    → Guarded n holder (set_phase t p phase) left
Guarded-move n t p none phase left free before (z, none_holds) =
    (z, set_phase-cases (λ u q. holds q ≡ false) t p phase free (λ u ne. none_holds u))
Guarded-move n t p (some h) phase left free before (only, done, held, fits) = (
  set_phase-cases (λ u q. holds q ≡ true → u ≡ h) t p phase (λ e. absurd_bool (sym e ∙ free))
      (λ u ne. only u),
  set_phase-cases (λ u q. u ≡ h → is_passing q ≡ false → left ≡ 0) t p phase
      (λ e q. done (ap (λ v. is_passing (phase v)) (sym e) ∙ not_passing (phase t) before))
      (λ u ne e q. done (ap (λ v. is_passing (phase v)) (sym e) ∙ q)) h refl,
  set_phase-cases (λ u q. u ≡ h → holds q ≡ true) t p phase
      (λ e. absurd_bool (sym held ∙ ap (λ v. holds (phase v)) (sym e) ∙ before))
      (λ u ne e. ap (λ v. holds (phase v)) e ∙ held) h refl,
  fits,
)

-- The return of the holder frees the lock.
pub Guarded-unlock :
    (n t : ℕ) (p : Phase) (holder : Option ℕ) (phase : ℕ → Phase) (left : ℕ)
    → holds p ≡ false
    → holds (phase t) ≡ true
    → Guarded n holder phase left
    → Guarded n none (set_phase t p phase) 0
Guarded-unlock n t p none phase left free e (z, none_holds) = absurd_bool (sym e ∙ none_holds t)
Guarded-unlock n t p (some h) phase left free e (only, done, held, fits) = (
  refl,
  set_phase-cases (λ u q. holds q ≡ false) t p phase free
      (λ u ne. elim (Bool-cases (holds (phase u))) [
        | inl hu ↦ absurd_bool (sym ((nat_beq_iff u t).1 (only u hu ∙ sym (only t e))) ∙ ne)
        | inr hu ↦ hu
      ]),
)

-- A call that waits gets the free lock.
pub Guarded-lock :
    (n t : ℕ) (holder : Option ℕ) (phase : ℕ → Phase) (left : ℕ)
    → is_some holder ≡ false
    → Guarded n holder phase left
    → Guarded n (some t) (set_phase t locked phase) left
Guarded-lock n t (some h) phase left e g = absurd_bool e
Guarded-lock n t none phase left e (z, none_holds) = (
  set_phase-cases (λ u q. holds q ≡ true → u ≡ t) t locked phase (λ e. refl)
      (λ u ne e. absurd_bool (sym e ∙ none_holds u)),
  λ e. z,
  ap holds (set_phase_self t locked phase),
  omega arith,
)

-- No turn is left before the holder tests the flag.
pub Guarded-idle :
    (n t : ℕ) (holder : Option ℕ) (phase : ℕ → Phase) (left : ℕ)
    → phase t ≡ locked
    → Guarded n holder phase left
    → left ≡ 0
Guarded-idle n t none phase left e (z, none_holds) = z
Guarded-idle n t (some h) phase left e (only, done, held, fits) =
    done (ap (λ v. is_passing (phase v)) (sym (only t (ap holds e))) ∙ ap is_passing e)

-- The holder starts a pass.
pub Guarded-take :
    (n t : ℕ) (holder : Option ℕ) (phase : ℕ → Phase) (left : ℕ)
    → holds (phase t) ≡ true
    → Guarded n holder phase left
    → Guarded n holder (set_phase t passing phase) n
Guarded-take n t none phase left e (z, none_holds) = absurd_bool (sym e ∙ none_holds t)
Guarded-take n t (some h) phase left e (only, done, held, fits) =
    let now : set_phase t passing phase h ≡ passing =
      ap (set_phase t passing phase) (sym (only t e)) ∙ set_phase_self t passing phase in
    (
      set_phase-cases (λ u q. holds q ≡ true → u ≡ h) t passing phase (λ p. only t e)
          (λ u ne. only u),
      λ q. absurd_bool (sym (ap is_passing now) ∙ q),
      ap holds now,
      omega arith,
    )

-- A turn of the pass.
pub Guarded-turn :
    (n t m : ℕ) (holder : Option ℕ) (phase : ℕ → Phase) (left : ℕ)
    → phase t ≡ passing
    → left ≡ suc m
    → Guarded n holder phase left
    → Guarded n holder phase m
Guarded-turn n t m none phase left e z (y, none_holds) =
    absurd_bool (sym (ap holds e) ∙ none_holds t)
Guarded-turn n t m (some h) phase left e z (only, done, held, fits) = (
  only,
  λ q.
      absurd_bool
        (sym (ap is_passing e) ∙ ap (λ v. is_passing (phase v)) (only t (ap holds e)) ∙ q),
  held,
  omega arith,
)
