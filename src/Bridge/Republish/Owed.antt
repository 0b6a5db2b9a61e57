-- ===== src/Bridge/Republish/Owed.antt =====
-- What the calls of republishDiscovery are owed of the devices, by the events so far.
use go_homeconnect2mqtt.Base.{
  ℕ, suc, ◌-◌, ◌<◌, ◌≡◌, ◌≢◌, refl, sym, ◌∙◌, inl, inr, Bool, true, false, Bool-cases, List, [],
  ◌∷◌, nat_beq, nat_beq_iff, absurd_bool, if◌then◌else◌, arith,
}
use go_homeconnect2mqtt.Bridge.Republish.{
  Phase, outside, at_gate, asked, locked, passing, returned, given_up, Event, requested, published,
  set_phase,
}
use go_homeconnect2mqtt.Bridge.Republish.Guard.{set_phase-cases}

-- The newest event first: was the device with index `i` published since the call `t` made its request?
unfoldable pub published_since : ℕ → ℕ → List Event → Bool
published_since t i [] = false
published_since t i (requested u ∷ older) = if nat_beq u t then false else published_since t i older
published_since t i (published j ∷ older) = if nat_beq j i then true else published_since t i older

-- What a call is owed of a device, of which `b` tells whether it was published since the request: a call
-- that waits is owed a pending pass, or the part of the running one that is over.
abbrev pub Owed : ℕ → Phase → Bool → ℕ → ℕ → Bool → Type 0
Owed n returned pending left i b = b ≡ true
Owed n passing pending left i b = i < n - left → b ≡ true
Owed n asked pending left i b = pending ≡ false → i < n - left → b ≡ true
Owed n locked pending left i b = pending ≡ false → i < n - left → b ≡ true
Owed n _ pending left i b = Unit

abbrev pub AllOwed : ℕ → (ℕ → Phase) → Bool → ℕ → List Event → Type 0
AllOwed n phase pending left trace =
    (t i : ℕ) → i < n → Owed n (phase t) pending left i (published_since t i trace)

Owed-true : (n : ℕ) (p : Phase) (pending : Bool) (left i : ℕ) → Owed n p pending left i true
Owed-true n returned pending left i = refl
Owed-true n passing pending left i = λ l. refl
Owed-true n asked pending left i = λ f l. refl
Owed-true n locked pending left i = λ f l. refl
Owed-true n outside pending left i = tt
Owed-true n at_gate pending left i = tt
Owed-true n given_up pending left i = tt

-- A request makes a pass pending.
Owed-request :
    (n : ℕ) (p : Phase) (pending : Bool) (left i : ℕ) (b : Bool)
    → Owed n p pending left i b
    → Owed n p true left i b
Owed-request n returned pending left i b o = o
Owed-request n passing pending left i b o = o
Owed-request n asked pending left i b o = λ f l. absurd_bool f
Owed-request n locked pending left i b o = λ f l. absurd_bool f
Owed-request n outside pending left i b o = tt
Owed-request n at_gate pending left i b o = tt
Owed-request n given_up pending left i b o = tt

no_room : {A : Type 0} (n i : ℕ) → i < n - n → A
no_room n i l = absurd (omega arith)

-- A pass that starts has published nothing.
Owed-take :
    (n : ℕ) (p : Phase) (pending : Bool) (left i : ℕ) (b : Bool)
    → Owed n p pending left i b
    → Owed n p false n i b
Owed-take n returned pending left i b o = o
Owed-take n passing pending left i b o = λ l. no_room n i l
Owed-take n asked pending left i b o = λ f l. no_room n i l
Owed-take n locked pending left i b o = λ f l. no_room n i l
Owed-take n outside pending left i b o = tt
Owed-take n at_gate pending left i b o = tt
Owed-take n given_up pending left i b o = tt

-- A publish of the next device.
Owed-turn :
    (n : ℕ) (p : Phase) (pending : Bool) (m i : ℕ) (b : Bool)
    → Owed n p pending (suc m) i b
    → Owed n p pending m i (if nat_beq (n - suc m) i then true else b)
Owed-turn n p pending m i b o = elim (Bool-cases (nat_beq (n - suc m) i)) [
  | inl e ↦ rw e (Owed-true n p pending m i)
  | inr e ↦ rw e (earlier p (λ q. absurd_bool (sym ((nat_beq_iff (n - suc m) i).1 q) ∙ e)) o)
]
  where
    earlier : (q : Phase) → n - suc m ≢ i → Owed n q pending (suc m) i b → Owed n q pending m i b
    earlier returned ne o = o
    earlier passing ne o = λ l. o (omega arith)
    earlier asked ne o = λ f l. o f (omega arith)
    earlier locked ne o = λ f l. o f (omega arith)
    earlier outside ne o = tt
    earlier at_gate ne o = tt
    earlier given_up ne o = tt

-- A call moves to where it is owed nothing.
pub AllOwed-move :
    (n t : ℕ) (p : Phase) (phase : ℕ → Phase) (pending : Bool) (left : ℕ) (trace : List Event)
    → ((i : ℕ) → i < n → Owed n p pending left i (published_since t i trace))
    → AllOwed n phase pending left trace
    → AllOwed n (set_phase t p phase) pending left trace
AllOwed-move n t p phase pending left trace here all =
    set_phase-cases (λ u q. (i : ℕ) → i < n → Owed n q pending left i (published_since u i trace)) t
      p phase here (λ u ne. all u)

pub AllOwed-request :
    (n t : ℕ) (phase : ℕ → Phase) (pending : Bool) (left : ℕ) (trace : List Event)
    → AllOwed n phase pending left trace
    → AllOwed n (set_phase t asked phase) true left (requested t ∷ trace)
unfolding published_since
AllOwed-request n t phase pending left trace all =
    set_phase-cases
      (λ u q. (i : ℕ) → i < n → Owed n q true left i (published_since u i (requested t ∷ trace))) t
      asked phase (λ i l f. absurd_bool f)
      (λ u ne i l.
        rw (not_back u ne)
          (Owed-request n (phase u) pending left i (published_since u i trace) (all u i l)))
  where
    not_back : (u : ℕ) → nat_beq u t ≡ false → nat_beq t u ≡ false
    not_back u ne = ground arith

pub AllOwed-take :
    (n t : ℕ) (phase : ℕ → Phase) (pending : Bool) (left : ℕ) (trace : List Event)
    → AllOwed n phase pending left trace
    → AllOwed n (set_phase t passing phase) false n trace
AllOwed-take n t phase pending left trace all =
    set_phase-cases (λ u q. (i : ℕ) → i < n → Owed n q false n i (published_since u i trace)) t
      passing phase (λ i l m. no_room n i m)
      (λ u ne i l. Owed-take n (phase u) pending left i (published_since u i trace) (all u i l))

pub AllOwed-turn :
    (n m : ℕ) (phase : ℕ → Phase) (pending : Bool) (trace : List Event)
    → AllOwed n phase pending (suc m) trace
    → AllOwed n phase pending m (published (n - suc m) ∷ trace)
unfolding published_since
AllOwed-turn n m phase pending trace all =
    λ u i l. Owed-turn n (phase u) pending m i (published_since u i trace) (all u i l)
