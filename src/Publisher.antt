-- ===== src/Publisher.antt =====
-- The publish queue of an appliance: devicePublisher of internal/bridge/device.go. Its mutex makes
-- `push` and `next` critical sections; the buffered `wake` channel is a flag.
pub mod Log
pub mod Wake
use go_homeconnect2mqtt.Base.{
  ℕ, zero, suc, ◌+◌, ◌%◌, Bool, true, false, ◌||◌, Option, none, some, List, [], ◌∷◌, ◌++◌, length,
  leb, nat_beq, if◌then◌else◌,
}

-- maxQueuedPublishes
abbrev pub max_queued : ℕ
max_queued = 1024

-- `dropped` counts since the queue was last empty. `warned` are the overflow warnings, newest first.
pub record Publisher {ℓ} (A : Type ℓ) : Type ℓ where
  pub queue : List A
  pub dropped : ℕ
  pub wake : Bool
  pub warned : List (A × ℕ)

abbrev warns : ℕ → Bool
warns n = nat_beq n 1 || nat_beq (n % 100) 0

module _ {ℓ} {A : Type ℓ} where
  -- newDevicePublisher
  abbrev pub new_publisher : Publisher A
  new_publisher = record { queue = []; dropped = 0; wake = false; warned = [] }

  -- The oldest publish makes room.
  unfoldable pub make_room : List A → Publisher A → Publisher A
  make_room [] p = p
  make_room (oldest ∷ rest) p =
      let n = suc p.dropped in
      record p {
        queue = rest;
        dropped = n;
        warned = if warns n then (oldest, n) ∷ p.warned else p.warned;
      }

  -- enqueue, under the mutex
  unfoldable pub push : A → Publisher A → Publisher A
  unfolding make_room
  push x p =
      let p' = if leb max_queued (length p.queue) then make_room p.queue p else p in
      record p' { queue = p'.queue ++ x ∷ [] }

  -- the rest of enqueue: a send on the channel, unless it is full
  abbrev pub signal : Publisher A → Publisher A
  signal p = record p { wake = true }

  take_first : List A → Publisher A → Option A × Publisher A
  take_first [] p = (none, record p { queue = []; dropped = 0 })
  take_first (q ∷ rest) p = (some q, record p { queue = rest })

  -- next
  unfoldable pub next : Publisher A → Option A × Publisher A
  unfolding take_first
  next p = take_first p.queue p

-- Where the goroutine of `run` stands: at the outer select, in the inner loop, or returned.
pub data Worker : Type 0 where
  waiting draining done : Worker

-- `signalling` counts the callers of enqueue between their unlock and their send; `published` are
-- the calls of `publish`, newest first.
pub record World {ℓ} (A : Type ℓ) : Type ℓ where
  pub publisher : Publisher A
  pub worker : Worker
  pub signalling : ℕ
  pub published : List A

-- What the goroutines do, one step at a time. `works c`: the worker goes on; c is whether it finds
-- the context done.
pub data PubOp {ℓ} (A : Type ℓ) : Type ℓ where
  enqueues : A → PubOp A
  signals : PubOp A
  works : Bool → PubOp A

module _ {ℓ} {A : Type ℓ} where
  abbrev pub start_publisher : World A
  start_publisher = record {
    publisher = new_publisher;
    worker = waiting;
    signalling = 0;
    published = [];
  }

  deliver : Option A × Publisher A → World A → World A
  deliver (none, p) w = record w { publisher = p; worker = waiting }
  deliver (some q, p) w = record w { publisher = p; published = q ∷ w.published }

  -- run: one turn
  unfoldable pub work : Worker → Bool → World A → World A
  unfolding next deliver
  work waiting c w =
      if c
      then record w { worker = done }
      else if w.publisher.wake
      then record w { publisher = record w.publisher { wake = false }; worker = draining }
      else w
  work draining c w = if c then record w { worker = done } else deliver (next w.publisher) w
  work done c w = w

  send_signal : ℕ → World A → World A
  send_signal zero w = w
  send_signal (suc n) w = record w { publisher = signal w.publisher; signalling = n }

  unfoldable pub pub_step : PubOp A → World A → World A
  unfolding push work send_signal
  pub_step (enqueues x) w = record w {
    publisher = push x w.publisher;
    signalling = suc w.signalling;
  }
  pub_step signals w = send_signal w.signalling w
  pub_step (works c) w = work w.worker c w

  unfoldable pub pub_run : World A → List (PubOp A) → World A
  pub_run w [] = w
  pub_run w (op ∷ ops) = pub_run (pub_step op w) ops
