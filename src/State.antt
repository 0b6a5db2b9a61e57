-- ===== src/State.antt =====
-- The subscriptions of internal/state/store.go: a buffer of one event for each subscriber, in which
-- the latest event wins. Each operation is one critical section under subMu, or one
-- receive; a receive may fall between the selects of publish too.
pub mod Latest
pub mod Cache
use go_homeconnect2mqtt.Base.{
  ℕ, suc, ◌+◌, Bool, true, false, if◌then◌else◌, Option, none, some, List, [], ◌∷◌,
}
use go_homeconnect2mqtt.Base.Keys.{nat_key, lookup, insert, delete}

-- `subs` with what each channel buffers, and nextS.
pub record Subscribers (E : Type 0) : Type 0 where
  pub subs : List (ℕ × Option E)
  pub next : ℕ

module _ {E : Type 0} where
  -- Subscribe
  unfoldable pub subscribe : Subscribers E → ℕ × Subscribers E
  subscribe s = (s.next, record { subs = insert s.next none s.subs; next = suc s.next })

  -- the cancel function of a subscription
  unfoldable pub cancel : ℕ → Subscribers E → Subscribers E
  cancel id s = record s { subs = delete id s.subs }

  -- A send with a default on a buffer of one: whether it went, and what the buffer holds then
  abbrev pub try_send : E → Option E → Bool × Option E
  try_send ev none = (true, some ev)
  try_send ev (some old) = (false, some old)

  -- A receive with a default, where the event is dropped; also the subscriber's receive
  abbrev pub drain : Option E → Option E
  drain _ = none

  abbrev pub drain_if : Bool → Option E → Option E
  drain_if true buffered = drain buffered
  drain_if false buffered = buffered

  -- The selects of publish behind a first one that did not send: the subscriber may receive before
  -- each of the two.
  unfoldable pub force_send : Bool × Bool → E → Option E → Option E
  force_send (before_drain, before_send) ev buffered =
      (try_send ev (drain_if before_send (drain (drain_if before_drain buffered)))).1

  -- One turn of publish
  unfoldable pub offer : Bool × Bool → E → Option E → Option E
  unfolding force_send
  offer receives ev buffered =
      let (went, after) = try_send ev buffered in
      let forced = force_send receives ev after in if went then after else forced

  -- `receives`: in which of the gaps between the selects each subscriber receives
  unfoldable pub offer_all : (ℕ → Bool × Bool) → E → List (ℕ × Option E) → List (ℕ × Option E)
  unfolding offer
  offer_all receives ev [] = []
  offer_all receives ev ((id, buffered) ∷ rest) =
      (id, offer (receives id) ev buffered) ∷ offer_all receives ev rest

  -- publish
  unfoldable pub publish : (ℕ → Bool × Bool) → E → Subscribers E → Subscribers E
  unfolding offer_all
  publish receives ev s = record s { subs = offer_all receives ev s.subs }

-- What subscribers and publishers do, in any order; `takes` is a receive by the subscriber.
pub data SubOp (E : Type 0) : Type 0 where
  publishes : (ℕ → Bool × Bool) → E → SubOp E
  cancels takes : ℕ → SubOp E
  subscribes : SubOp E

module _ {E : Type 0} where
  empty_buffer : ℕ → Option (Option E) → List (ℕ × Option E) → List (ℕ × Option E)
  empty_buffer id none subs = subs
  empty_buffer id (some _) subs = insert id none subs

  unfoldable pub sub_step : SubOp E → Subscribers E → Subscribers E
  unfolding publish subscribe cancel empty_buffer
  sub_step (publishes receives ev) s = publish receives ev s
  sub_step (cancels id) s = cancel id s
  sub_step (takes id) s = record s { subs = empty_buffer id (lookup id s.subs) s.subs }
  sub_step subscribes s = (subscribe s).1

  unfoldable pub sub_run : Subscribers E → List (SubOp E) → Subscribers E
  sub_run s [] = s
  sub_run s (op ∷ ops) = sub_run (sub_step op s) ops
