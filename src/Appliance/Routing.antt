-- ===== src/Appliance/Routing.antt =====
-- applyItem of internal/homeconnect/appliance.go: an update reaches one entity.
use mathlib.Core.Option
use go_homeconnect2mqtt.Base.{
  ℕ, ◌≡◌, ◌≢◌, refl, sym, ◌∙◌, none, some, get_elem?, set, get_elem?-set_self, get_elem?-set_ne,
  arith, Bool-cases, Option-cases, inl, inr, if◌then◌else◌,
}
use go_homeconnect2mqtt.Base.Int.{ℤ}
use go_homeconnect2mqtt.Base.Keys.{◌==◌, ==_iff, int_key, lookup}
use go_homeconnect2mqtt.Value.{Host}
use go_homeconnect2mqtt.Message.{Item}
use go_homeconnect2mqtt.Entity.{Entity, update}
use go_homeconnect2mqtt.Appliance.{Appliance, entity_at, entity, update_at, uid_of, apply_item}
use go_homeconnect2mqtt.Appliance.Index.{IsCoherent}

module _ (host : Host) where
  open host use {Float}

  update_at_lem :
      (item : Item Float) (i : ℕ) (a : Appliance Float) (e : Entity Float)
      → get_elem? a.entities i ≡ some e
      → ((update_at host item i a).entities ≡ set a.entities i (update host item e))
        × ((update_at host item i a).by_uid ≡ a.by_uid)
  unfolding update_at
  update_at_lem item i a e h = rw (h, update_at) (refl, refl)

  apply_item_found :
      (item : Item Float) (a : Appliance Float) (u : ℤ) (i : ℕ)
      → uid_of host item ≡ some u
      → lookup u a.by_uid ≡ some i
      → apply_item host item a ≡ update_at host item i a
  unfolding apply_item
  apply_item_found item a u i h k = rw (h, k, apply_item)

  apply_item_unknown :
      (item : Item Float) (a : Appliance Float) (u : ℤ)
      → uid_of host item ≡ some u
      → lookup u a.by_uid ≡ none
      → apply_item host item a ≡ a
  unfolding apply_item
  apply_item_unknown item a u h k = rw (h, k, apply_item)

  entity_lem :
      (u : ℤ) (i : ℕ) (a : Appliance Float)
      → lookup u a.by_uid ≡ some i
      → entity u a ≡ get_elem? a.entities i
  unfolding entity
  entity_lem u i a h = rw (h, entity_at)

  entity-none : (u : ℤ) (a : Appliance Float) → lookup u a.by_uid ≡ none → entity u a ≡ none
  unfolding entity
  entity-none u a h = rw (h, entity_at)

  -- In an appliance whose indexes are right, an item with a uid updates the entity of that uid,
  -- if there is one, and no other uid's entity.
  pub apply_item_routes :
      (item : Item Float) (a : Appliance Float) (u u' : ℤ)
      → IsCoherent a
      → uid_of host item ≡ some u
      → entity u' (apply_item host item a)
        ≡ (if u == u' then Option.map (update host item) (entity u a) else entity u' a)
  apply_item_routes item a u u' v h = elim (Option-cases (lookup u a.by_uid)) [
    | inl unknown ↦ elim (Bool-cases (u == u')) [
      | inl same ↦
          let s = (==_iff u u').0 same in
          rw (apply_item_unknown item a u h unknown, same, ← s, entity-none u a unknown) refl
      | inr other ↦ rw (apply_item_unknown item a u h unknown, other) refl
    ]
    | inr (i, found) ↦
        let (x, g, is_u) = v.uids u i found in
        let (es, ix) = update_at_lem item i a x g in
        let b = update_at host item i a in
        rw (apply_item_found item a u i h found) (elim (Bool-cases (u == u')) [
          | inl same ↦
              let s = (==_iff u u').0 same in
              rw (same, ← s, entity_lem u i a found, g)
                (entity_lem u i b (rw ix found) ∙ rw es (get_elem?-set_self a.entities i _ x g))
          | inr other ↦ rw other (elim (Option-cases (lookup u' a.by_uid)) [
            | inl missing ↦ entity-none u' b (rw ix missing) ∙ sym (entity-none u' a missing)
            | inr (j, there) ↦
                let (y, g', is_u') = v.uids u' j there in
                let apart : i ≢ j = ground (arith, g, g', is_u, is_u', ==_iff u u', other) in
                entity_lem u' j b (rw ix there)
                ∙ rw es (get_elem?-set_ne a.entities i j _ apart)
                ∙ sym (entity_lem u' j a there)
          ])
        ])
  ]
