-- ===== src/Bridge/Republish/Finish.antt =====
-- The end of a call of republishDiscovery that waits for the lock: the holder's own steps free it, then
-- the call's own steps finish it.
use mathlib.Core.Path.{subst}
use go_homeconnect2mqtt.Base.{
  ℕ, zero, suc, ◌<◌, ◌≤◌, ◌≡◌, ◌≢◌, refl, sym, ap, ◌∙◌, inl, inr, true, false, Bool-cases, Option,
  none, some, is_some, List, [], ◌∷◌, ◌++◌, replicate, length, length-append, length-replicate, ◌+◌,
  ◌*◌, nat_beq, nat_beq_iff, absurd_bool, if◌then◌else◌, arith,
}
use go_homeconnect2mqtt.Bridge.Republish.{
  get_lock, publish_next, start_pass, Phase, outside, at_gate, asked, locked, passing, returned,
  given_up, Republisher, set_phase, no_calls, unlock, lock_at, take_at, next_turn, turn_at,
  RepublishOp, lock, take, turn, republish_step, republish_run,
}
use go_homeconnect2mqtt.Bridge.Republish.Guard.{holds, Guarded, set_phase_self}
use go_homeconnect2mqtt.Bridge.Republish.Owed.{published_since}
use go_homeconnect2mqtt.Bridge.Republish.Served.{both, counted, IsServed, run-IsServed, served}

-- The steps of the holder `t` from wherever it is: its test of the flag and its turns.
abbrev steps_of : ℕ → ℕ → List RepublishOp
steps_of n t = take t ∷ replicate (suc n) (turn t)

abbrev wait_for : ℕ → Option ℕ → List RepublishOp
wait_for n none = []
wait_for n (some h) = steps_of n h

-- The steps of the holder, then those of `t`, which waits.
abbrev pub finish : ℕ → Option ℕ → ℕ → List RepublishOp
finish n holder t = wait_for n holder ++ lock t ∷ steps_of n t

run-append :
    (n : ℕ) (xs ys : List RepublishOp) (s : Republisher)
    → republish_run n (xs ++ ys) s ≡ republish_run n ys (republish_run n xs s)
unfolding republish_run
run-append n [] ys s = refl
run-append n (x ∷ xs) ys s = run-append n xs ys (republish_step n x s)

set_phase_other :
    (t : ℕ) (p : Phase) (phase : ℕ → Phase) (u : ℕ) → u ≢ t → set_phase t p phase u ≡ phase u
set_phase_other t p phase u ne = elim (Bool-cases (nat_beq u t)) [
  | inl e ↦ absurd (ne ((nat_beq_iff u t).0 e))
  | inr e ↦ rw e refl
]

-- The call `t` is back and the lock is free; the other calls are where they were.
abbrev IsDone : ℕ → Republisher → Republisher → Type 0
IsDone t s r =
    (r.holder ≡ none)
    × (r.phase t ≡ returned)
    × ((u : ℕ) → u ≢ t → r.phase u ≡ s.phase u)
    × (r.cancelled ≡ s.cancelled)
    × (r.stopped ≡ s.stopped)

module _ (n t : ℕ) where
  turns_idle :
      (k : ℕ) (s : Republisher)
      → s.phase t ≡ returned
      → republish_run n (replicate k (turn t)) s ≡ s
  unfolding republish_run republish_step turn_at
  turns_idle zero s e = refl
  turns_idle (suc k) s e =
      ap (λ p. republish_run n (replicate k (turn t)) (turn_at n p t s)) e ∙ turns_idle k s e

  returned-IsDone : (s : Republisher) → IsDone t s (unlock t returned s)
  returned-IsDone s =
      (refl, set_phase_self t returned s.phase, set_phase_other t returned s.phase, refl, refl)

  -- More turns than are left end the pass.
  turns-IsDone :
      (k : ℕ) (s : Republisher)
      → s.phase t ≡ passing
      → s.cancelled ≡ false
      → s.left < k
      → IsDone t s (republish_run n (replicate k (turn t)) s)
  unfolding republish_run republish_step turn_at
  turns-IsDone zero s e c l = absurd (omega arith)
  turns-IsDone (suc k) s e c l =
      let P : Republisher → Type 0 = λ r. IsDone t s (republish_run n (replicate k (turn t)) r) in
      subst (λ p. P (turn_at n p t s)) (sym e)
        (counted P s.left (unlock t returned s) (λ m. next_turn n t m s)
          (λ z.
            subst (IsDone t s)
              (sym (turns_idle k (unlock t returned s) (set_phase_self t returned s.phase)))
              (returned-IsDone s))
          (λ m z.
            both P s.cancelled (unlock t given_up s) (publish_next n m s)
              (λ q. absurd_bool (sym q ∙ c))
              (λ q. turns-IsDone k (publish_next n m s) e c (omega arith))))

  moved-IsDone :
      (s moved r : Republisher)
      → ((u : ℕ) → u ≢ t → moved.phase u ≡ s.phase u)
      → moved.cancelled ≡ s.cancelled
      → moved.stopped ≡ s.stopped
      → IsDone t moved r
      → IsDone t s r
  moved-IsDone s moved r others c d (free, back, apart, rc, rd) =
      (free, back, λ u ne. apart u ne ∙ others u ne, rc ∙ c, rd ∙ d)

  -- The call behind the lock works to its end.
  steps_of-IsDone :
      (s : Republisher) (p : Phase)
      → s.phase t ≡ p
      → holds p ≡ true
      → s.cancelled ≡ false
      → s.left ≤ n
      → IsDone t s (republish_run n (steps_of n t) s)
  unfolding republish_run republish_step take_at
  steps_of-IsDone s passing e h c l =
      subst (λ p. IsDone t s (republish_run n (replicate (suc n) (turn t)) (take_at n p t s)))
        (sym e) (turns-IsDone (suc n) s e c (omega arith))
  steps_of-IsDone s locked e h c l =
      let P : Republisher → Type 0 =
        λ r. IsDone t s (republish_run n (replicate (suc n) (turn t)) r) in
      subst (λ p. P (take_at n p t s)) (sym e)
        (both P s.pending (start_pass n t s) (unlock t returned s)
          (λ q.
            moved-IsDone s (start_pass n t s)
              (republish_run n (replicate (suc n) (turn t)) (start_pass n t s))
              (set_phase_other t passing s.phase) refl refl
              (turns-IsDone (suc n) (start_pass n t s) (set_phase_self t passing s.phase) c
                (omega arith)))
          (λ q.
            subst (IsDone t s)
              (sym (turns_idle (suc n) (unlock t returned s) (set_phase_self t returned s.phase)))
              (returned-IsDone s)))
  steps_of-IsDone s outside e h c l = absurd_bool (sym h)
  steps_of-IsDone s at_gate e h c l = absurd_bool (sym h)
  steps_of-IsDone s asked e h c l = absurd_bool (sym h)
  steps_of-IsDone s returned e h c l = absurd_bool (sym h)
  steps_of-IsDone s given_up e h c l = absurd_bool (sym h)

-- What the holder has, by the invariant.
holder-works :
    (n h : ℕ) (s : Republisher)
    → s.holder ≡ some h
    → IsServed n s
    → (holds (s.phase h) ≡ true) × (s.left ≤ n)
holder-works n h s e (g, o) =
    let (only, done, held, fits) = subst (λ k. Guarded n k s.phase s.left) e g in (held, fits)

-- A call that waits for a free lock takes it and works to its end.
lock-IsDone :
    (n t : ℕ) (s : Republisher)
    → s.phase t ≡ asked
    → s.holder ≡ none
    → s.cancelled ≡ false
    → IsServed n s
    → IsDone t s (republish_run n (lock t ∷ steps_of n t) s)
unfolding republish_run republish_step lock_at
lock-IsDone n t s e free c (g, o) =
    let got : Republisher = get_lock t s in
    let (z, none_holds) = subst (λ k. Guarded n k s.phase s.left) free g in
    subst (λ p. IsDone t s (republish_run n (steps_of n t) (lock_at p t s))) (sym e)
      (subst (λ h. IsDone t s (republish_run n (steps_of n t) (if is_some h then s else got)))
        (sym free)
        (moved-IsDone n t s got (republish_run n (steps_of n t) got)
          (set_phase_other t locked s.phase) refl refl
          (steps_of-IsDone n t got locked (set_phase_self t locked s.phase) refl c (omega arith))))

abbrev Back : ℕ → Republisher → Republisher → Type 0
Back t s r = (r.phase t ≡ returned) × (r.cancelled ≡ s.cancelled) × (r.stopped ≡ s.stopped)

length-finish : (n : ℕ) (holder : Option ℕ) (t : ℕ) → length (finish n holder t) ≤ 2 * n + 5
length-finish n none t = rw (length-replicate n (turn t)) (omega arith)
length-finish n (some h) t =
    rw
      (
        length-append (steps_of n h) (lock t ∷ steps_of n t),
        length-replicate n (turn h),
        length-replicate n (turn t),
      )
      (omega arith)

-- A call that waits is back after the holder's steps and its own.
finish-Back :
    (n t : ℕ) (s : Republisher) (holder : Option ℕ)
    → s.holder ≡ holder
    → s.phase t ≡ asked
    → s.cancelled ≡ false
    → IsServed n s
    → Back t s (republish_run n (finish n holder t) s)
finish-Back n t s none free e c h =
    let (_, back, apart, rc, rd) = lock-IsDone n t s e free c h in (back, rc, rd)
finish-Back n t s (some u) held e c h =
    let (works, fits) = holder-works n u s held h in
    let later : Republisher = republish_run n (steps_of n u) s in
    let (free, _, apart, rc, rd) = steps_of-IsDone n u s (s.phase u) refl works c fits in
    let other : t ≢ u =
      λ same. absurd_bool (sym works ∙ ap (λ v. holds (s.phase v)) (sym same) ∙ ap holds e) in
    let (_, back, _, lc, ld) =
      lock-IsDone n t later (apart t other ∙ e) free (rc ∙ c) (run-IsServed n (steps_of n u) s h) in
    subst (Back t s) (sym (run-append n (steps_of n u) (lock t ∷ steps_of n t) s))
      (back, lc ∙ rc, ld ∙ rd)

-- A call that waits for the lock, in any state that the daemon reaches while the context lives and nobody
-- has stopped discovery, gets served: after the steps of the call that holds the lock, if any, and its own,
-- at most 2 n + 5 in all, it is back, and each of the n appliances was published after its request.
pub finishes :
    (n : ℕ) (ops : List RepublishOp) (t i : ℕ)
    → (republish_run n ops no_calls).cancelled ≡ false
    → (republish_run n ops no_calls).stopped ≡ false
    → (republish_run n ops no_calls).phase t ≡ asked
    → i < n
    → let after : List RepublishOp = finish n (republish_run n ops no_calls).holder t in
      let r : Republisher = republish_run n (ops ++ after) no_calls in
      (length after ≤ 2 * n + 5) × (r.phase t ≡ returned) × (published_since t i r.trace ≡ true)
finishes n ops t i c d e l =
    let s : Republisher = republish_run n ops no_calls in
    let after : List RepublishOp = finish n s.holder t in
    let (back, rc, rd) = subst (Back t s) (sym (run-append n ops after no_calls)) (
      finish-Back n t s s.holder refl e c
        (run-IsServed n ops no_calls ((refl, λ u. refl), λ c d u i l. tt))) in
    (length-finish n s.holder t, back, served n (ops ++ after) t i (rc ∙ c) (rd ∙ d) back l)
