-- ===== src/Link/Restored.antt =====
-- What the broker holds of an appliance's link (internal/bridge/device.go).
use go_homeconnect2mqtt.Base.{
  ◌≡◌, ◌∙◌, refl, Bool, true, false, Option, none, some, List, [], ◌∷◌, if◌then◌else◌,
}
use go_homeconnect2mqtt.Reconnect.{ConnectionState}
use go_homeconnect2mqtt.Link.{
  DeviceLink, Items, LinkWorld, LinkOp, enters, settles, reasserts, forgets, reassert_link,
  link_step, link_run, no_link,
}

abbrev known_online : DeviceLink → Option Bool
known_online l = if l.online_known then some l.online else none

-- The broker holds the link as it is, and nothing that is not known yet.
abbrev pub Agrees : LinkWorld → Type 0
Agrees w = (w.items.state_item ≡ w.link.state) × (w.items.online_item ≡ known_online w.link)

-- Nothing is held that was never known.
abbrev NoneBefore : LinkWorld → Type 0
NoneBefore w =
    (w.link.state ≡ none → w.items.state_item ≡ none)
    × (w.link.online_known ≡ false → w.items.online_item ≡ none)

abbrev pub GoesThrough : LinkOp → Type 0
GoesThrough (enters s up) = up ≡ true
GoesThrough (settles s up) = up ≡ true
GoesThrough (reasserts up) = up ≡ true
GoesThrough forgets = ⊥

abbrev pub AllThrough : List LinkOp → Type 0
AllThrough [] = Unit
AllThrough (op ∷ ops) = GoesThrough op × AllThrough ops

-- a reassertion, on the fields
reasserted :
    (o : Option ConnectionState) (b k : Bool) (i : Items)
    → (o ≡ none → i.state_item ≡ none)
    → (k ≡ false → i.online_item ≡ none)
    → let l : DeviceLink = record { state = o; online = b; online_known = k } in
      Agrees (record { link = l; items = reassert_link true l i })
unfolding reassert_link
reasserted none b true i h g = (h refl, refl)
reasserted none b false i h g = (h refl, g refl)
reasserted (some s) b true i h g = (refl, refl)
reasserted (some s) b false i h g = (refl, g refl)

unasserted :
    (o : Option ConnectionState) (b k : Bool) (i : Items)
    → reassert_link false (record { state = o; online = b; online_known = k }) i ≡ i
unfolding reassert_link
unasserted none b true i = refl
unasserted none b false i = refl
unasserted (some s) b true i = refl
unasserted (some s) b false i = refl

Agrees-NoneBefore : (w : LinkWorld) → Agrees w → NoneBefore w
Agrees-NoneBefore w (h, k) = (λ e. h ∙ e, λ e. k ∙ rw e refl)

reassert-Agrees : (w : LinkWorld) → NoneBefore w → Agrees (link_step w (reasserts true))
unfolding link_step
reassert-Agrees w (h, k) = reasserted w.link.state w.link.online w.link.online_known w.items h k

step-NoneBefore : (w : LinkWorld) (op : LinkOp) → NoneBefore w → NoneBefore (link_step w op)
unfolding link_step
step-NoneBefore w (enters s true) (h, k) = (λ e. cc, k)
step-NoneBefore w (enters s false) (h, k) = (λ e. cc, k)
step-NoneBefore w (settles s true) (h, k) = (h, λ e. cc)
step-NoneBefore w (settles s false) (h, k) = (h, λ e. cc)
step-NoneBefore w (reasserts true) n =
    Agrees-NoneBefore (link_step w (reasserts true)) (reassert-Agrees w n)
step-NoneBefore w (reasserts false) (h, k) =
    let same = unasserted w.link.state w.link.online w.link.online_known w.items in
    (λ e. rw same (h e), λ e. rw same (k e))
step-NoneBefore w forgets (h, k) = (λ e. refl, λ e. refl)

step-Agrees : (w : LinkWorld) (op : LinkOp) → GoesThrough op → Agrees w → Agrees (link_step w op)
unfolding link_step
step-Agrees w (enters s true) g (h, k) = (refl, k)
step-Agrees w (enters s false) g (h, k) = cc
step-Agrees w (settles s true) g (h, k) = (h, refl)
step-Agrees w (settles s false) g (h, k) = cc
step-Agrees w (reasserts true) g a = reassert-Agrees w (Agrees-NoneBefore w a)
step-Agrees w (reasserts false) g a = cc
step-Agrees w forgets g a = absurd g

run-NoneBefore : (w : LinkWorld) (ops : List LinkOp) → NoneBefore w → NoneBefore (link_run w ops)
unfolding link_run
run-NoneBefore w [] n = n
run-NoneBefore w (op ∷ ops) n = run-NoneBefore (link_step w op) ops (step-NoneBefore w op n)

run-Agrees :
    (w : LinkWorld) (ops : List LinkOp) → AllThrough ops → Agrees w → Agrees (link_run w ops)
unfolding link_run
run-Agrees w [] g a = a
run-Agrees w (op ∷ ops) (g, gs) a = run-Agrees (link_step w op) ops gs (step-Agrees w op g a)

-- Whatever was published or lost before, once reassertLink gets through the broker holds the
-- appliance's connection state and reachability as the bridge has them, and it does so after every
-- further step whose publish gets through, in any order of onState and reassertLink.
pub link_is_restored :
    (before after : List LinkOp)
    → AllThrough after
    → Agrees (link_run (link_run no_link before) (reasserts true ∷ after))
unfolding link_run
link_is_restored before after g =
    let w = link_run no_link before in
    run-Agrees (link_step w (reasserts true)) after g
      (reassert-Agrees w (run-NoneBefore no_link before ((λ e. refl), (λ e. refl))))
