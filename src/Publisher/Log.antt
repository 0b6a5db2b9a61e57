-- ===== src/Publisher/Log.antt =====
-- What devicePublisher of internal/bridge/device.go promises: a log of everything offered, read
-- from a cursor that skips an item where the reader is `max_queued` behind.
use go_homeconnect2mqtt.Base.{
  ℕ, suc, ◌-◌, ◌≤◌, ◌≡◌, inl, inr, refl, sym, ap, ◌∙◌, true, false, Bool-cases, Option, none, some,
  List, [], ◌∷◌, ◌++◌, length, drop, get_elem?, leb, length-append, length-drop, drop-cons,
  drop-append_le, drop-nil, arith, if◌then◌else◌,
}
use go_homeconnect2mqtt.Publisher.{Publisher, new_publisher, max_queued, make_room, push, next}

pub data QueueOp {ℓ} (A : Type ℓ) : Type ℓ where
  offers : A → QueueOp A
  takes : QueueOp A

pub record Log {ℓ} (A : Type ℓ) : Type ℓ where
  pub items : List A
  pub cursor : ℕ

module _ {ℓ} {A : Type ℓ} where
  abbrev pub empty_log : Log A
  empty_log = record { items = []; cursor = 0 }

  abbrev pub log_offer : A → Log A → Log A
  log_offer x l = record {
    items = l.items ++ x ∷ [];
    cursor = if leb max_queued (length l.items - l.cursor) then suc l.cursor else l.cursor;
  }

  abbrev pub log_take : Option A → Log A → Log A
  log_take none l = l
  log_take (some _) l = record l { cursor = suc l.cursor }

  -- What the reader gets, in the specification and from the queue.
  unfoldable pub log_outputs : Log A → List (QueueOp A) → List (Option A)
  log_outputs l [] = []
  log_outputs l (offers x ∷ ops) = log_outputs (log_offer x l) ops
  log_outputs l (takes ∷ ops) =
      let got = get_elem? l.items l.cursor in got ∷ log_outputs (log_take got l) ops

  unfoldable pub queue_outputs : Publisher A → List (QueueOp A) → List (Option A)
  queue_outputs p [] = []
  queue_outputs p (offers x ∷ ops) = queue_outputs (push x p) ops
  queue_outputs p (takes ∷ ops) = (next p).0 ∷ queue_outputs (next p).1 ops

  -- The queue holds what the log holds from the cursor on.
  record Simulates (p : Publisher A) (l : Log A) : Type ℓ where
    rest : p.queue ≡ drop l.cursor l.items
    within : l.cursor ≤ length l.items

  length-queue :
      (p : Publisher A) (l : Log A) → Simulates p l → length p.queue ≡ length l.items - l.cursor
  length-queue p l v = rw v.rest (length-drop l.cursor l.items)

  cons_of_full :
      (xs : List A) → leb max_queued (length xs) ≡ true → (y : A) × (ys : List A) × (xs ≡ y ∷ ys)
  cons_of_full [] h = ground arith
  cons_of_full (y ∷ ys) h = (y, ys, refl)

  push_room :
      (x : A) (p : Publisher A)
      → leb max_queued (length p.queue) ≡ false
      → (push x p).queue ≡ p.queue ++ x ∷ []
  unfolding push
  push_room x p h = rw (push, h) refl

  push_full :
      (x q : A) (qs : List A) (p : Publisher A)
      → leb max_queued (length p.queue) ≡ true
      → p.queue ≡ q ∷ qs
      → (push x p).queue ≡ qs ++ x ∷ []
  unfolding push make_room
  push_full x q qs p h e = rw (push, h, e, make_room) refl

  push-Simulates :
      (x : A) (p : Publisher A) (l : Log A) → Simulates p l → Simulates (push x p) (log_offer x l)
  push-Simulates x p l v = elim (Bool-cases (leb max_queued (length p.queue))) [
    | inr room ↦
        let room' : leb max_queued (length l.items - l.cursor) ≡ false =
          rw (← length-queue p l v) room in
        record {
          rest =
              push_room x p room
              ∙ rw (room', drop-append_le l.cursor l.items (x ∷ []) v.within, ← v.rest) refl;
          within = rw room' (omega (arith, length-append l.items (x ∷ []), v.within));
        }
    | inl full ↦
        let full' : leb max_queued (length l.items - l.cursor) ≡ true =
          rw (← length-queue p l v) full in
        let (y, ys, e) = cons_of_full p.queue full in
        let (tail, _, less) = drop-cons l.cursor l.items ys y (sym v.rest ∙ e) in
        record {
          rest =
              push_full x y ys p full e
              ∙ rw (full', drop-append_le (suc l.cursor) l.items (x ∷ []) less, tail) refl;
          within = rw full' (omega (arith, length-append l.items (x ∷ []), less));
        }
  ]

  next-Simulates :
      (p : Publisher A) (l : Log A) (xs : List A)
      → Simulates p l
      → p.queue ≡ xs
      → ((next p).0 ≡ get_elem? l.items l.cursor)
        × Simulates (next p).1 (log_take (get_elem? l.items l.cursor) l)
  unfolding next
  next-Simulates p l [] v e =
      let d = sym v.rest ∙ e in
      rw (next, e, drop-nil l.cursor l.items d v.within)
        (refl, record { rest = sym d; within = v.within })
  next-Simulates p l (y ∷ ys) v e =
      let (tail, front, less) = drop-cons l.cursor l.items ys y (sym v.rest ∙ e) in
      rw (next, e, front) (refl, record { rest = sym tail; within = less })

  outputs-Simulates :
      (p : Publisher A) (l : Log A) (ops : List (QueueOp A))
      → Simulates p l
      → queue_outputs p ops ≡ log_outputs l ops
  unfolding queue_outputs log_outputs
  outputs-Simulates p l [] v = refl
  outputs-Simulates p l (offers x ∷ ops) v =
      outputs-Simulates (push x p) (log_offer x l) ops (push-Simulates x p l v)
  outputs-Simulates p l (takes ∷ ops) v =
      let (same, w) = next-Simulates p l p.queue v refl in
      rw (← same) (
        ap (λ os. (next p).0 ∷ os)
          (outputs-Simulates (next p).1 (log_take (next p).0 l) ops (rw same w)))

  -- Whatever is offered and taken, and in whichever order: the queue hands out what a reader of a
  -- log of everything offered gets, who is at most `max_queued` items behind and skips the oldest
  -- where he would be more. So the newest publishes of a backlog survive, in their order.
  pub queue_refines_log :
      (ops : List (QueueOp A)) → queue_outputs new_publisher ops ≡ log_outputs empty_log ops
  queue_refines_log ops =
      outputs-Simulates new_publisher empty_log ops (record { rest = refl; within = omega arith })
