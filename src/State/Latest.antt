-- ===== src/State/Latest.antt =====
-- What a subscriber of internal/state/store.go finds in its buffer.
use go_homeconnect2mqtt.Base.{
  ℕ, suc, ◌≡◌, refl, inl, inr, Bool, true, false, Bool-cases, Option, none, some, List, [], ◌∷◌,
  nat_beq, nat_beq_iff, sym, if◌then◌else◌, ap, ◌∙◌,
}
use go_homeconnect2mqtt.Base.Keys.{nat_key, lookup, lookup-insert, lookup-delete}
use go_homeconnect2mqtt.State.{
  Subscribers, force_send, offer, offer_all, publish, subscribe, cancel, empty_buffer, SubOp,
  publishes, cancels, takes, subscribes, sub_step, sub_run,
}

module _ {E : Type 0} where
  abbrev refill : Option E → Option (Option E) → Option (Option E)
  refill ev none = none
  refill ev (some _) = some ev

  -- What the subscriber `id` has to read, where `count` subscriptions were made and it had `now` before:
  -- none while it is not subscribed, else the last event published since it subscribed or read.
  abbrev unread_step : ℕ → ℕ → SubOp E → Option (Option E) → Option (Option E)
  unread_step id count (publishes _ ev) now = refill (some ev) now
  unread_step id count (cancels k) now = if nat_beq k id then none else now
  unread_step id count (takes k) now = if nat_beq k id then refill none now else now
  unread_step id count subscribes now = if nat_beq count id then some none else now

  abbrev count_step : SubOp E → ℕ → ℕ
  count_step subscribes count = suc count
  count_step _ count = count

  unfoldable pub unread : ℕ → ℕ → Option (Option E) → List (SubOp E) → Option (Option E)
  unread id count now [] = now
  unread id count now (op ∷ ops) = unread id (count_step op count) (unread_step id count op now) ops

  offer_lem : (receives : Bool × Bool) (ev : E) (b : Option E) → offer receives ev b ≡ some ev
  unfolding offer force_send
  offer_lem receives ev none = refl
  offer_lem (a, true) ev (some old) = refl
  offer_lem (a, false) ev (some old) = refl

  lookup-offer_all :
      (receives : ℕ → Bool × Bool) (ev : E) (id : ℕ) (subs : List (ℕ × Option E))
      → lookup id (offer_all receives ev subs) ≡ refill (some ev) (lookup id subs)
  unfolding lookup offer_all
  lookup-offer_all receives ev id [] = refl
  lookup-offer_all receives ev id ((j, b) ∷ rest) = elim (Bool-cases (nat_beq j id)) [
    | inl e ↦ rw (offer_all, lookup, e) (ap some (offer_lem (receives j) ev b))
    | inr e ↦ rw (offer_all, lookup, e) (lookup-offer_all receives ev id rest)
  ]

  lookup-empty_buffer :
      (k id : ℕ) (o : Option (Option E)) (subs : List (ℕ × Option E))
      → lookup k subs ≡ o
      → lookup id (empty_buffer k o subs)
        ≡ (if nat_beq k id then refill none (lookup id subs) else lookup id subs)
  unfolding empty_buffer
  lookup-empty_buffer k id none subs h = elim (Bool-cases (nat_beq k id)) [
    | inr e ↦ rw e refl
    | inl e ↦
        let same : lookup id subs ≡ none =
          ap (λ i. lookup i subs) (sym ((nat_beq_iff k id).0 e)) ∙ h in
        rw (e, same) refl
  ]
  lookup-empty_buffer k id (some b) subs h = elim (Bool-cases (nat_beq k id)) [
    | inr e ↦ rw e (rw e at (lookup-insert k id none subs))
    | inl e ↦
        let same : lookup id subs ≡ some b =
          ap (λ i. lookup i subs) (sym ((nat_beq_iff k id).0 e)) ∙ h in
        rw (e, same) (rw e at (lookup-insert k id none subs))
  ]

  lookup-sub_step :
      (op : SubOp E) (s : Subscribers E) (id : ℕ)
      → lookup id (sub_step op s).subs ≡ unread_step id s.next op (lookup id s.subs)
  unfolding sub_step publish subscribe cancel
  lookup-sub_step (publishes receives e) s id = lookup-offer_all receives e id s.subs
  lookup-sub_step (cancels k) s id = lookup-delete k id s.subs
  lookup-sub_step (takes k) s id = lookup-empty_buffer k id (lookup k s.subs) s.subs refl
  lookup-sub_step subscribes s id = lookup-insert s.next id none s.subs

  next-sub_step : (op : SubOp E) (s : Subscribers E) → (sub_step op s).next ≡ count_step op s.next
  unfolding sub_step publish subscribe cancel
  next-sub_step (publishes receives e) s = refl
  next-sub_step (cancels k) s = refl
  next-sub_step (takes k) s = refl
  next-sub_step subscribes s = refl

  lookup-sub_run :
      (ops : List (SubOp E)) (s : Subscribers E) (id : ℕ)
      → lookup id (sub_run s ops).subs ≡ unread id s.next (lookup id s.subs) ops
  unfolding sub_run unread
  lookup-sub_run [] s id = refl
  lookup-sub_run (op ∷ ops) s id =
      lookup-sub_run ops (sub_step op s) id
      ∙ ap (λ c. unread id c (lookup id (sub_step op s).subs) ops) (next-sub_step op s)
      ∙ ap (λ now. unread id (count_step op s.next) now ops) (lookup-sub_step op s id)

  -- However subscribing, cancelling, receiving and publishing interleave, also where a subscriber
  -- receives in the middle of a publish: it has a buffer exactly while it is subscribed, and the buffer
  -- holds the last event that was published since it subscribed or last received, if there was one.
  pub newest_wins :
      (ops : List (SubOp E)) (id : ℕ)
      → lookup id (sub_run (record { subs = []; next = 0 }) ops).subs ≡ unread id 0 none ops
  unfolding lookup
  newest_wins ops id = lookup-sub_run ops (record { subs = []; next = 0 }) id
