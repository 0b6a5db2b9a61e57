-- ===== src/Link/Fleet.antt =====
-- The level that setDeviceConnected of internal/bridge/device.go publishes.
use go_homeconnect2mqtt.Base.{
  String, ◌≡◌, ◌∙◌, inl, inr, ◌↔◌, refl, sym, Bool, true, false, Bool-cases, Option, none, some,
  List, [], ◌∷◌, ◌++◌, arith, if◌then◌else◌,
}
use go_homeconnect2mqtt.Base.Keys.{◌==◌, ==_iff, ==_self, text_key, lookup, insert, lookup-insert}
use go_homeconnect2mqtt.Link.{broker, operational, any_up, set_device_connected, fleet_run}

-- The last report of an appliance
unfoldable pub last_report : String → List (String × Bool) → Option Bool
last_report id [] = none
last_report id ((j, up) ∷ rs) =
    let later = last_report id rs in
    elim later [ some b ↦ some b | none ↦ if j == id then some up else none ]

abbrev Unique : List (String × Bool) → Type 0
Unique [] = Unit
Unique ((j, up) ∷ m) = (lookup j m ≡ none) × Unique m

insert-Unique :
    (id : String) (b : Bool) (m : List (String × Bool)) → Unique m → Unique (insert id b m)
unfolding insert lookup
insert-Unique id b [] u = (refl, tt)
insert-Unique id b ((j, up) ∷ m) (new, u) = elim (Bool-cases (j == id)) [
  | inl same ↦ let path : j ≡ id = (==_iff j id).0 same in rw (insert, same) (rw path at new, u)
  | inr other ↦
      let apart : (id == j) ≡ false = ground (arith, ==_iff j id, ==_iff id j) in
      rw (insert, other) (lookup-insert id j b m ∙ rw apart new, insert-Unique id b m u)
]

up_somewhere :
    (m : List (String × Bool))
    → Unique m
    → any_up m ≡ true
    → (id : String) × (lookup id m ≡ some true)
unfolding any_up lookup
up_somewhere [] u h = cc
up_somewhere ((j, true) ∷ m) u h = (j, rw (==_self j) refl)
up_somewhere ((j, false) ∷ m) (new, u) h =
    let (id, found) = up_somewhere m u h in
    elim (Bool-cases (j == id)) [
      | inl same ↦
          let path : j ≡ id = (==_iff j id).0 same in
          let gone : lookup id m ≡ none = rw path at new in cc
      | inr other ↦ (id, rw other found)
    ]

somewhere_up : (m : List (String × Bool)) (id : String) → lookup id m ≡ some true → any_up m ≡ true
unfolding any_up lookup
somewhere_up [] id h = cc
somewhere_up ((j, up) ∷ m) id h = elim (Bool-cases (j == id)) [
  | inl same ↦
      let here : some up ≡ some true = rw same at h in let is_up : up ≡ true = cc in rw is_up refl
  | inr other ↦
      let rest : lookup id m ≡ some true = rw other at h in
      rw (somewhere_up m id rest) (ground arith)
]

run-Unique :
    (m : List (String × Bool)) (rs : List (String × Bool)) → Unique m → Unique (fleet_run m rs)
unfolding fleet_run set_device_connected
run-Unique m [] u = u
run-Unique m ((id, up) ∷ rs) u = run-Unique (insert id up m) rs (insert-Unique id up m u)

abbrev or_else : Option Bool → Option Bool → Option Bool
or_else none old = old
or_else (some b) old = some b

lookup-fleet_run :
    (id : String) (m : List (String × Bool)) (rs : List (String × Bool))
    → lookup id (fleet_run m rs) ≡ or_else (last_report id rs) (lookup id m)
unfolding fleet_run set_device_connected last_report
lookup-fleet_run id m [] = refl
lookup-fleet_run id m ((j, up) ∷ rs) =
    lookup-fleet_run id (insert j up m) rs
    ∙ rw (lookup-insert j id up m) (by_later (last_report id rs))
  where
    by_later :
        (later : Option Bool)
        → or_else later (if j == id then some up else lookup id m)
          ≡ or_else
              (elim later [ some b ↦ some b | none ↦ if j == id then some up else none ])
              (lookup id m)
    by_later (some b) = refl
    by_later none = elim (Bool-cases (j == id)) [
      | inl same ↦ rw same refl
      | inr other ↦ rw other refl
    ]

empty_lookup : (id : String) → lookup {V = Bool} id [] ≡ none
unfolding lookup
empty_lookup id = refl

or_none : (o : Option Bool) → or_else o none ≡ o
or_none none = refl
or_none (some b) = refl

lookup_last :
    (id : String) (rs : List (String × Bool)) → lookup id (fleet_run [] rs) ≡ last_report id rs
lookup_last id rs = lookup-fleet_run id [] rs ∙ rw (empty_lookup id) (or_none (last_report id rs))

fleet_run-append :
    (m rs : List (String × Bool)) (id : String) (up : Bool)
    → fleet_run m (rs ++ (id, up) ∷ []) ≡ insert id up (fleet_run m rs)
unfolding fleet_run set_device_connected
fleet_run-append m [] id up = refl
fleet_run-append m ((j, b) ∷ rs) id up = fleet_run-append (insert j b m) rs id up

level_iff : (up : Bool) → ((if up then operational else broker) ≡ operational) ↔ (up ≡ true)
level_iff true = (λ e. refl, λ e. refl)
level_iff false = (λ e. cc, λ e. cc)

-- After any reports, the published level is `operational` where the last report of some appliance is
-- that it is connected, and only there.
pub level_tells_fleet :
    (rs : List (String × Bool)) (id : String) (up : Bool)
    → ((set_device_connected id up (fleet_run [] rs)).1 ≡ operational)
      ↔ ((other : String) × (last_report other (rs ++ (id, up) ∷ []) ≡ some true))
unfolding set_device_connected
level_tells_fleet rs id up =
    let linked = fleet_run [] (rs ++ (id, up) ∷ []) in
    let e : linked ≡ insert id up (fleet_run [] rs) = fleet_run-append [] rs id up in
    let level = level_iff (any_up (insert id up (fleet_run [] rs))) in
    (
      λ h.
          let some_up : any_up linked ≡ true = rw e (level.0 h) in
          let (other, found) =
            up_somewhere linked (run-Unique [] (rs ++ (id, up) ∷ []) tt) some_up in
          (other, sym (lookup_last other (rs ++ (id, up) ∷ [])) ∙ found),
      λ (other, found).
          let there : any_up linked ≡ true =
            somewhere_up linked other (lookup_last other (rs ++ (id, up) ∷ []) ∙ found) in
          level.1 (rw e at there),
    )
