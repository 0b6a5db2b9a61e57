-- ===== src/Bridge/Republish/Served.antt =====
-- The invariant of republishDiscovery over its runs.
use go_homeconnect2mqtt.Base.{
  ℕ, zero, suc, ◌-◌, ◌<◌, ◌≡◌, refl, sym, ap, ◌∙◌, Bool, true, false, is_some, List, [], ◌∷◌,
  absurd_bool, if◌then◌else◌, arith,
}
use go_homeconnect2mqtt.Bridge.Republish.{
  get_lock, publish_next, make_pending, start_pass, Phase, outside, at_gate, asked, locked, passing,
  returned, given_up, Republisher, no_calls, move, unlock, call_at, pass_gate_at, leave_gate_at,
  lock_at, take_at, next_turn, turn_at, RepublishOp, call, pass_gate, leave_gate, lock, take, turn,
  open_gate, stop_discovery, cancel, republish_step, republish_run,
}
use go_homeconnect2mqtt.Bridge.Republish.Guard.{
  holds, Guarded, Guarded-move, Guarded-unlock, Guarded-lock, Guarded-idle, Guarded-take,
  Guarded-turn,
}
use go_homeconnect2mqtt.Bridge.Republish.Owed.{
  published_since, Owed, AllOwed, AllOwed-move, AllOwed-request, AllOwed-take, AllOwed-turn,
}

-- The invariant: the lock is held by one call, and as long as nobody cancels or stops, each call gets
-- what it is owed.
abbrev pub IsServed : ℕ → Republisher → Type 0
IsServed n s =
    Guarded n s.holder s.phase s.left
    × (s.cancelled ≡ false → s.stopped ≡ false → AllOwed n s.phase s.pending s.left s.trace)

pub both :
    (P : Republisher → Type 0) (b : Bool) (x y : Republisher)
    → (b ≡ true → P x)
    → (b ≡ false → P y)
    → P (if b then x else y)
both P true x y h k = h refl
both P false x y h k = k refl

pub counted :
    (P : Republisher → Type 0) (k : ℕ) (x : Republisher) (f : ℕ → Republisher)
    → (k ≡ 0 → P x)
    → ((m : ℕ) → k ≡ suc m → P (f m))
    → P (elim k [ zero ↦ x | suc m ↦ f m ])
counted P zero x f h k = h refl
counted P (suc m) x f h k = k m refl

module _ (n t : ℕ) (s : Republisher) where
  -- A call that does not hold the lock moves to where it is owed nothing.
  move-IsServed :
      (p : Phase)
      → holds p ≡ false
      → holds (s.phase t) ≡ false
      → ((i : ℕ) → i < n → Owed n p s.pending s.left i (published_since t i s.trace))
      → IsServed n s
      → IsServed n (move t p s)
  move-IsServed p free before here (g, o) = (
    Guarded-move n t p s.holder s.phase s.left free before g,
    λ c d. AllOwed-move n t p s.phase s.pending s.left s.trace here (o c d),
  )

  call_at-IsServed : (p : Phase) → s.phase t ≡ p → IsServed n s → IsServed n (call_at p t s)
  unfolding call_at
  call_at-IsServed outside e h =
      both (IsServed n) s.stopped (move t given_up s) (move t at_gate s)
        (λ q. move-IsServed given_up refl (ap holds e) (λ i l. tt) h)
        (λ q. move-IsServed at_gate refl (ap holds e) (λ i l. tt) h)
  call_at-IsServed at_gate e h = h
  call_at-IsServed asked e h = h
  call_at-IsServed locked e h = h
  call_at-IsServed passing e h = h
  call_at-IsServed returned e h = h
  call_at-IsServed given_up e h = h

  leave_gate_at-IsServed :
      (p : Phase) → s.phase t ≡ p → IsServed n s → IsServed n (leave_gate_at p t s)
  unfolding leave_gate_at
  leave_gate_at-IsServed at_gate e h =
      both (IsServed n) s.cancelled (move t given_up s) s
        (λ q. move-IsServed given_up refl (ap holds e) (λ i l. tt) h) (λ q. h)
  leave_gate_at-IsServed outside e h = h
  leave_gate_at-IsServed asked e h = h
  leave_gate_at-IsServed locked e h = h
  leave_gate_at-IsServed passing e h = h
  leave_gate_at-IsServed returned e h = h
  leave_gate_at-IsServed given_up e h = h

  pass_gate_at-IsServed :
      (p : Phase) → s.phase t ≡ p → IsServed n s → IsServed n (pass_gate_at p t s)
  unfolding pass_gate_at
  pass_gate_at-IsServed at_gate e (g, o) =
      both (IsServed n) s.opened (make_pending t s) s
        (λ q. (
          Guarded-move n t asked s.holder s.phase s.left refl (ap holds e) g,
          λ c d. AllOwed-request n t s.phase s.pending s.left s.trace (o c d),
        ))
        (λ q. (g, o))
  pass_gate_at-IsServed outside e h = h
  pass_gate_at-IsServed asked e h = h
  pass_gate_at-IsServed locked e h = h
  pass_gate_at-IsServed passing e h = h
  pass_gate_at-IsServed returned e h = h
  pass_gate_at-IsServed given_up e h = h

  lock_at-IsServed : (p : Phase) → s.phase t ≡ p → IsServed n s → IsServed n (lock_at p t s)
  unfolding lock_at
  lock_at-IsServed asked e (g, o) =
      both (IsServed n) (is_some s.holder) s (get_lock t s) (λ q. (g, o))
        (λ q. (
          Guarded-lock n t s.holder s.phase s.left q g,
          λ c d.
              AllOwed-move n t locked s.phase s.pending s.left s.trace
                (λ i l. rw e at (o c d t i l)) (o c d),
        ))
  lock_at-IsServed outside e h = h
  lock_at-IsServed at_gate e h = h
  lock_at-IsServed locked e h = h
  lock_at-IsServed passing e h = h
  lock_at-IsServed returned e h = h
  lock_at-IsServed given_up e h = h

  -- The holder returns, with no turn left.
  unlock-IsServed :
      (p : Phase)
      → holds p ≡ false
      → holds (s.phase t) ≡ true
      → (s.cancelled ≡ false
          → s.stopped ≡ false
          → (s.left ≡ 0) × ((i : ℕ) → i < n → Owed n p s.pending 0 i (published_since t i s.trace)))
      → IsServed n s
      → IsServed n (unlock t p s)
  unlock-IsServed p free before here (g, o) = (
    Guarded-unlock n t p s.holder s.phase s.left free before g,
    λ c d.
        let (z, mine) = here c d in
        AllOwed-move n t p s.phase s.pending 0 s.trace mine (rw⁻¹ z (o c d)),
  )

  take_at-IsServed : (p : Phase) → s.phase t ≡ p → IsServed n s → IsServed n (take_at n p t s)
  unfolding take_at
  take_at-IsServed locked e (g, o) =
      both (IsServed n) s.pending (start_pass n t s) (unlock t returned s)
        (λ q. (
          Guarded-take n t s.holder s.phase s.left (ap holds e) g,
          λ c d. AllOwed-take n t s.phase s.pending s.left s.trace (o c d),
        ))
        (λ q.
          unlock-IsServed returned refl (ap holds e)
            (λ c d.
              let z = Guarded-idle n t s.holder s.phase s.left e g in
              (
                z,
                λ i l.
                    let owed : s.pending ≡ false
                        → i < n - s.left
                        → published_since t i s.trace ≡ true =
                      rw e at (o c d t i l) in
                    owed q (omega arith),
              ))
            (g, o))
  take_at-IsServed outside e h = h
  take_at-IsServed at_gate e h = h
  take_at-IsServed asked e h = h
  take_at-IsServed passing e h = h
  take_at-IsServed returned e h = h
  take_at-IsServed given_up e h = h

  turn_at-IsServed : (p : Phase) → s.phase t ≡ p → IsServed n s → IsServed n (turn_at n p t s)
  unfolding turn_at
  turn_at-IsServed passing e (g, o) =
      counted (IsServed n) s.left (unlock t returned s) (λ m. next_turn n t m s)
        (λ z.
          unlock-IsServed returned refl (ap holds e)
            (λ c d. (
              z,
              λ i l.
                  let owed : i < n - s.left → published_since t i s.trace ≡ true =
                    rw e at (o c d t i l) in
                  owed (omega arith),
            ))
            (g, o))
        (λ m z.
          both (IsServed n) s.cancelled (unlock t given_up s) (publish_next n m s)
            (λ q.
              unlock-IsServed given_up refl (ap holds e) (λ c d. absurd_bool (sym q ∙ c)) (g, o))
            (λ q. (
              Guarded-turn n t m s.holder s.phase s.left e z g,
              λ c d. rw d (AllOwed-turn n m s.phase s.pending s.trace (rw z at (o c d))),
            )))
  turn_at-IsServed outside e h = h
  turn_at-IsServed at_gate e h = h
  turn_at-IsServed asked e h = h
  turn_at-IsServed locked e h = h
  turn_at-IsServed returned e h = h
  turn_at-IsServed given_up e h = h

step-IsServed :
    (n : ℕ) (op : RepublishOp) (s : Republisher) → IsServed n s → IsServed n (republish_step n op s)
unfolding republish_step
step-IsServed n (call t) s h = call_at-IsServed n t s (s.phase t) refl h
step-IsServed n (pass_gate t) s h = pass_gate_at-IsServed n t s (s.phase t) refl h
step-IsServed n (leave_gate t) s h = leave_gate_at-IsServed n t s (s.phase t) refl h
step-IsServed n (lock t) s h = lock_at-IsServed n t s (s.phase t) refl h
step-IsServed n (take t) s h = take_at-IsServed n t s (s.phase t) refl h
step-IsServed n (turn t) s h = turn_at-IsServed n t s (s.phase t) refl h
step-IsServed n open_gate s h = h
step-IsServed n stop_discovery s (g, o) = (g, λ c d. absurd_bool d)
step-IsServed n cancel s (g, o) = (g, λ c d. absurd_bool c)

pub run-IsServed :
    (n : ℕ) (ops : List RepublishOp) (s : Republisher)
    → IsServed n s
    → IsServed n (republish_run n ops s)
unfolding republish_run
run-IsServed n [] s h = h
run-IsServed n (op ∷ ops) s h = run-IsServed n ops (republish_step n op s) (step-IsServed n op s h)

-- However the calls of republishDiscovery interleave, from a daemon that has made none: while the
-- context lives and nobody has stopped discovery, a call that is back (and did not give up) has each of
-- the n appliances published after its own request, by its own pass or by that of a later holder.
pub served :
    (n : ℕ) (ops : List RepublishOp) (t i : ℕ)
    → (republish_run n ops no_calls).cancelled ≡ false
    → (republish_run n ops no_calls).stopped ≡ false
    → (republish_run n ops no_calls).phase t ≡ returned
    → i < n
    → published_since t i (republish_run n ops no_calls).trace ≡ true
served n ops t i c d e l =
    let (g, o) = run-IsServed n ops no_calls ((refl, λ u. refl), λ c d u i l. tt) in
    rw e at (o c d t i l)
