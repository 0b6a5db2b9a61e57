-- ===== src/Appliance/Index.antt =====
-- The indexes of internal/homeconnect/appliance.go point at the entities that they are for.
use go_homeconnect2mqtt.Base.{
  ℕ, String, ◌≡◌, ◌≢◌, ◌⊎◌, sym, ap, ◌∙◌, Bool, some, List, [], ◌∷◌, ◌++◌, length, get_elem?, set,
  get_elem?-set_self, get_elem?-set_ne, get_elem?-append, get_elem?-append_last, arith, Bool-cases,
  Option-cases, inl, inr,
}
use go_homeconnect2mqtt.Base.Int.{ℤ}
use go_homeconnect2mqtt.Base.Keys.{
  Key, ◌==◌, ==_iff, text_key, int_key, nat_key, lookup, insert, lookup-insert,
}
use go_homeconnect2mqtt.Value.{Host}
use go_homeconnect2mqtt.Message.{Item}
use go_homeconnect2mqtt.Entity.{Entry, Entity, new_entity}
use go_homeconnect2mqtt.Entity.Updates.{update-desc}
use go_homeconnect2mqtt.Appliance.{
  Appliance, entity, entity_by_name, add_entry, build, new_appliance, update_at, uid_of, apply_item,
  apply_values,
}

-- An index by a key of the items points at items with that key.
module _ {K A : Type 0} ⦃eq : Key K⦄ (key : A → K) where
  abbrev pub PointsTo : List (K × ℕ) → List A → Type 0
  PointsTo m xs =
      (k : K) (i : ℕ) → lookup k m ≡ some i → (x : A) × (get_elem? xs i ≡ some x) × (key x ≡ k)

  PointsTo-append :
      (m : List (K × ℕ)) (xs : List A) (y : A) → PointsTo m xs → PointsTo m (xs ++ y ∷ [])
  PointsTo-append m xs y p k i h =
      let (x, g, e) = p k i h in (x, get_elem?-append xs (y ∷ []) i x g, e)

  PointsTo-insert :
      (m : List (K × ℕ)) (xs : List A) (y : A)
      → PointsTo m xs
      → PointsTo (insert (key y) (length xs) m) (xs ++ y ∷ [])
  PointsTo-insert m xs y p k i h = elim (Bool-cases (key y == k)) [
    | inl same ↦
        let at : length xs ≡ i = ground (arith, lookup-insert (key y) k (length xs) m) in
        (y, rw (← at) (get_elem?-append_last xs y), (==_iff (key y) k).0 same)
    | inr other ↦
        PointsTo-append m xs y p k i (ground (arith, lookup-insert (key y) k (length xs) m))
  ]

  PointsTo-set :
      (m : List (K × ℕ)) (xs : List A) (j : ℕ) (x y : A)
      → get_elem? xs j ≡ some x
      → key y ≡ key x
      → PointsTo m xs
      → PointsTo m (set xs j y)
  PointsTo-set m xs j x y g e p k i h =
      let (z, at, is_k) = p k i h in
      elim (Bool-cases (j == i)) [
        | inl same ↦
            let s = (==_iff j i).0 same in
            let z_x : z ≡ x = ground (arith, s, g, at) in
            (y, rw (← s) (get_elem?-set_self xs j y x g), e ∙ ap key (sym z_x) ∙ is_k)
        | inr other ↦
            let d : j ≢ i = ground (arith, ==_iff j i) in
            (z, get_elem?-set_ne xs j i y d ∙ at, is_k)
      ]

module _ {F : Type 0} where
  abbrev uid_key : Entity F → ℤ
  uid_key e = e.desc.uid

  abbrev name_key : Entity F → String
  name_key e = e.desc.name

  pub record IsCoherent (a : Appliance F) : Type 0 where
    pub uids : PointsTo uid_key a.by_uid a.entities
    pub names : PointsTo name_key a.by_name a.entities

module _ {F : Type 0} (a : Appliance F) where
  pub entity-uid :
      (uid : ℤ) (e : Entity F) → IsCoherent a → entity uid a ≡ some e → e.desc.uid ≡ uid
  unfolding entity
  entity-uid uid e v h = elim (Option-cases (lookup uid a.by_uid)) [
    | inl missing ↦ ground arith
    | inr (i, found) ↦ let (x, g, k) = v.uids uid i found in ground (arith, h, found, g, k)
  ]

  pub entity_by_name-name :
      (name : String) (e : Entity F)
      → IsCoherent a
      → entity_by_name name a ≡ some e
      → e.desc.name ≡ name
  unfolding entity_by_name
  entity_by_name-name name e v h = elim (Option-cases (lookup name a.by_name)) [
    | inl missing ↦ ground arith
    | inr (i, found) ↦ let (x, g, k) = v.names name i found in ground (arith, h, found, g, k)
  ]

module _ (host : Host) where
  open host use {Float}

  add_entry-IsCoherent :
      (d : Entry Float) (a : Appliance Float) → IsCoherent a → IsCoherent (add_entry host d a)
  unfolding add_entry new_entity
  add_entry-IsCoherent d a v = record {
    uids = PointsTo-insert uid_key a.by_uid a.entities (new_entity host d) v.uids;
    names = elim (Bool-cases (d.name == "")) [
      | inl unnamed ↦
          rw unnamed (PointsTo-append name_key a.by_name a.entities (new_entity host d) v.names)
      | inr named ↦
          rw named (PointsTo-insert name_key a.by_name a.entities (new_entity host d) v.names)
    ];
  }

  build-IsCoherent :
      (ds : List (Entry Float)) (a : Appliance Float) → IsCoherent a → IsCoherent (build host ds a)
  unfolding build
  build-IsCoherent [] a v = v
  build-IsCoherent (d ∷ ds) a v =
      build-IsCoherent ds (add_entry host d a) (add_entry-IsCoherent d a v)

  update_at-IsCoherent :
      (item : Item Float) (i : ℕ) (a : Appliance Float)
      → IsCoherent a
      → IsCoherent (update_at host item i a)
  unfolding update_at
  update_at-IsCoherent item i a v = elim (Option-cases (get_elem? a.entities i)) [
    | inl missing ↦ rw (missing, update_at) v
    | inr (e, found) ↦
        let same = update-desc host item e in
        rw (found, update_at)
          (record {
            uids =
                PointsTo-set uid_key a.by_uid a.entities i e _ found (ap (λ d. d.uid) same) v.uids;
            names =
                PointsTo-set name_key a.by_name a.entities i e _ found (ap (λ d. d.name) same)
                  v.names;
          })
  ]

  -- An item changes nothing, or updates the entity that its uid is resolved to.
  pub apply_item_cases :
      (item : Item Float) (a : Appliance Float)
      → (apply_item host item a ≡ a)
        ⊎ ((u : ℤ) × (i : ℕ) × (uid_of host item ≡ some u)
            × (lookup u a.by_uid ≡ some i)
            × (apply_item host item a ≡ update_at host item i a))
  unfolding apply_item
  apply_item_cases item a = elim (Option-cases (uid_of host item)) [
    | inl no_uid ↦ inl (rw (no_uid, apply_item))
    | inr (u, is_u) ↦ elim (Option-cases (lookup u a.by_uid)) [
      | inl unknown ↦ inl (rw (is_u, unknown, apply_item))
      | inr (i, found) ↦ inr (u, i, is_u, found, rw (is_u, found, apply_item))
    ]
  ]

  pub apply_item-IsCoherent :
      (item : Item Float) (a : Appliance Float) → IsCoherent a → IsCoherent (apply_item host item a)
  apply_item-IsCoherent item a v = elim (apply_item_cases item a) [
    | inl same ↦ rw same v
    | inr (u, i, is_u, found, e) ↦ rw e (update_at-IsCoherent item i a v)
  ]

  apply_values-IsCoherent :
      (items : List (Item Float)) (a : Appliance Float)
      → IsCoherent a
      → IsCoherent (apply_values host items a)
  unfolding apply_values
  apply_values-IsCoherent [] a v = v
  apply_values-IsCoherent (item ∷ items) a v =
      apply_values-IsCoherent items (apply_item host item a) (apply_item-IsCoherent item a v)

  pub new_appliance-IsCoherent :
      (on_update : Bool) (ds : List (Entry Float)) → IsCoherent (new_appliance host on_update ds)
  unfolding new_appliance lookup
  new_appliance-IsCoherent on_update ds =
      build-IsCoherent ds _ (record { uids = λ k i h. cc; names = λ k i h. cc })

  -- However many entries share a uid or a name, and whatever updates were applied since: the
  -- entity that a uid or a name is resolved to has that uid, or that name.
  pub resolved_entities :
      (on_update : Bool) (ds : List (Entry Float)) (items : List (Item Float)) (uid : ℤ)
      (name : String) (e f : Entity Float)
      → entity uid (apply_values host items (new_appliance host on_update ds)) ≡ some e
      → entity_by_name name (apply_values host items (new_appliance host on_update ds)) ≡ some f
      → (e.desc.uid ≡ uid) × (f.desc.name ≡ name)
  resolved_entities on_update ds items uid name e f h k =
      let v = apply_values-IsCoherent items _ (new_appliance-IsCoherent on_update ds) in
      (entity-uid _ uid e v h, entity_by_name-name _ name f v k)
