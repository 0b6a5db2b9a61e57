-- ===== src/Publisher/Wake.antt =====
-- The wake-ups of devicePublisher in internal/bridge/device.go.
use mathlib.Core.Bool.{not}
use go_homeconnect2mqtt.Base.{
  ℕ, suc, ◌≡◌, refl, Bool, true, false, ◌||◌, List, [], ◌∷◌, length, replicate, ltb, arith,
  if◌then◌else◌,
}
use go_homeconnect2mqtt.Publisher.{
  Publisher, push, next, Worker, waiting, draining, World, PubOp, enqueues, signals, works,
  start_publisher, work, pub_step, pub_run,
}

abbrev pub is_waiting : Worker → Bool
is_waiting waiting = true
is_waiting _ = false

abbrev pub has_some {ℓ} : {A : Type ℓ} → List A → Bool
has_some [] = false
has_some (_ ∷ _) = true

module _ {ℓ} {A : Type ℓ} where
  -- The worker sleeps, something is queued, and nobody has signalled or is about to.
  abbrev pub is_stuck : World A → Bool
  is_stuck w =
      if is_waiting w.worker
      then (if has_some w.publisher.queue
          then not (w.publisher.wake || ltb 0 w.signalling)
          else false)
      else false

  wake-push : (x : A) (p : Publisher A) → (push x p).wake ≡ p.wake
  unfolding push
  wake-push x p = ground arith

  step-unstuck :
      (op : PubOp A) (w : World A) → is_stuck w ≡ false → is_stuck (pub_step op w) ≡ false
  unfolding pub_step
  step-unstuck (enqueues x) w h = ground (arith, wake-push x w.publisher)
  step-unstuck signals w h = ground arith
  step-unstuck (works c) w h = ground arith

  run-unstuck :
      (w : World A) (ops : List (PubOp A)) → is_stuck w ≡ false → is_stuck (pub_run w ops) ≡ false
  unfolding pub_run
  run-unstuck w [] h = h
  run-unstuck w (op ∷ ops) h = run-unstuck (pub_step op w) ops (step-unstuck op w h)

  -- No wake-up is lost: however updates, signals and the worker interleave, the worker never sleeps
  -- over a queued publish without a signal that is there or on its way.
  pub no_lost_wakeup : (ops : List (PubOp A)) → is_stuck (pub_run start_publisher ops) ≡ false
  no_lost_wakeup ops = run-unstuck start_publisher ops refl

  abbrev pub reverse_onto : List A → List A → List A
  reverse_onto [] ys = ys
  reverse_onto (x ∷ xs) ys = reverse_onto xs (x ∷ ys)

  abbrev at_drain : List A → Publisher A → ℕ → List A → World A
  at_drain xs p n ys = record {
    publisher = record p { queue = xs };
    worker = draining;
    signalling = n;
    published = ys;
  }

  -- The inner loop of run, over what is queued.
  drains :
      (xs : List A) (p : Publisher A) (n : ℕ) (ys : List A)
      → pub_run (at_drain xs p n ys) (replicate (suc (length xs)) (works false)) ≡ record {
        publisher = record p { queue = []; dropped = 0 };
        worker = waiting;
        signalling = n;
        published = reverse_onto xs ys;
      }
  unfolding pub_run pub_step work next
  drains [] p n ys = refl
  drains (x ∷ xs) p n ys = drains xs p n (x ∷ ys)

  wakes :
      (w : World A)
      → w.worker ≡ waiting
      → w.publisher.wake ≡ true
      → pub_step (works false) w
        ≡ at_drain w.publisher.queue (record w.publisher { wake = false }) w.signalling w.published
  unfolding pub_step work
  wakes w h k = rw (h, k) refl

  -- A worker that is woken over n queued publishes, while nothing else happens and the context
  -- stays, publishes them in their order in n + 2 steps, and sleeps again over an empty queue.
  pub woken_worker_drains :
      (w : World A)
      → w.worker ≡ waiting
      → w.publisher.wake ≡ true
      → let w' = pub_run w (replicate (suc (suc (length w.publisher.queue))) (works false)) in
        (w'.worker ≡ waiting)
        × (w'.publisher.queue ≡ [])
        × (w'.published ≡ reverse_onto w.publisher.queue w.published)
  unfolding pub_run
  woken_worker_drains w h k =
      let p = record w.publisher { wake = false } in
      rw (pub_run, wakes w h k)
        (rw (drains w.publisher.queue p w.signalling w.published) (refl, refl, refl))
