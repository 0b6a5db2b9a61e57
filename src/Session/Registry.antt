-- ===== src/Session/Registry.antt =====
-- The map of pending requests against the channels of internal/homeconnect/session.go.
use go_homeconnect2mqtt.Base.{
  ℕ, ◌≡◌, ◌≢◌, refl, sym, ap, ◌∙◌, inl, inr, true, false, Bool-cases, absurd_bool, absurd_none,
  Option, none, some, from_option, List, [], ◌∷◌, arith,
}
use go_homeconnect2mqtt.Base.Int.{ℤ}
use go_homeconnect2mqtt.Base.Keys.{
  ◌==◌, ==_iff, int_key, nat_key, lookup, insert, delete, lookup-insert, lookup-delete,
}
use go_homeconnect2mqtt.Session.{Channel, empty, is_response}
use go_homeconnect2mqtt.Message.{Message}

-- Where an id does not have a channel, it does not have it in the rest of the map.
apart_rest :
    (p : List (ℤ × ℕ)) (j id : ℤ) (c ch : ℕ)
    → lookup j p ≡ none
    → lookup id ((j, c) ∷ p) ≢ some ch
    → lookup id p ≢ some ch
unfolding lookup
apart_rest p j id c ch new ne h = elim (Bool-cases (j == id)) [
  | inl e ↦ absurd_none (sym new ∙ ap (λ k. lookup k p) ((==_iff j id).0 e) ∙ h)
  | inr e ↦ ne (rw (lookup, e) h)
]

module _ {F : Type 0} where
  abbrev pub waiting : ℤ → Channel F
  waiting id = record { request = id; content = empty }

  -- Each pending id stands once in the map, and its channel is open, empty and made for it.
  abbrev pub Registered : List (ℕ × Channel F) → List (ℤ × ℕ) → Type 0
  Registered chans [] = Unit
  Registered chans ((id, ch) ∷ p) =
      (lookup ch chans ≡ some (waiting id)) × (lookup id p ≡ none) × Registered chans p

  pub Registered-find :
      (chans : List (ℕ × Channel F)) (p : List (ℤ × ℕ)) (id : ℤ) (ch : ℕ)
      → Registered chans p
      → lookup id p ≡ some ch
      → lookup ch chans ≡ some (waiting id)
  unfolding lookup
  Registered-find chans [] id ch r h = cc
  Registered-find chans ((j, c) ∷ p) id ch r h =
      ground (arith, ==_iff j id, Registered-find chans p id ch r.2)

  pub Registered-delete :
      (chans : List (ℕ × Channel F)) (p : List (ℤ × ℕ)) (id : ℤ)
      → Registered chans p
      → Registered chans (delete id p)
  unfolding delete
  Registered-delete chans [] id r = tt
  Registered-delete chans ((j, c) ∷ p) id r =
      ground (arith, lookup-delete id j p, Registered-delete chans p id r.2)

  -- A channel made for an id that does not have it is no other id's.
  apart_channel :
      (chans : List (ℕ × Channel F)) (p : List (ℤ × ℕ)) (j id : ℤ) (c ch : ℕ)
      → lookup ch chans ≡ some (waiting id)
      → lookup c chans ≡ some (waiting j)
      → lookup id ((j, c) ∷ p) ≢ some ch
      → (ch == c) ≡ false
  unfolding lookup
  apart_channel chans p j id c ch w x ne = elim (Bool-cases (ch == c)) [
    | inr e ↦ e
    | inl e ↦
        let same : ch ≡ c = (==_iff ch c).0 e in
        let one : id ≡ j = request_inj (sym w ∙ ap (λ k. lookup k chans) same ∙ x) in
        absurd (ne (rw (lookup, (==_iff j id).1 (sym one)) (ap some (sym same))))
  ]
    where
      request_inj : {a b : ℤ} → some (waiting a) ≡ some (waiting b) → a ≡ b
      request_inj {a = a} h = ap (λ o. (from_option (waiting a) o).request) h

  -- A write to a channel that its id does not have in the map keeps the map registered.
  pub Registered-write :
      (chans : List (ℕ × Channel F)) (p : List (ℤ × ℕ)) (ch : ℕ) (id : ℤ) (v : Channel F)
      → lookup ch chans ≡ some (waiting id)
      → lookup id p ≢ some ch
      → Registered chans p
      → Registered (insert ch v chans) p
  Registered-write chans [] ch id v w n r = tt
  Registered-write chans ((j, c) ∷ p) ch id v w n (x, new, r) = (
    lookup-insert ch c v chans ∙ rw (apart_channel chans p j id c ch w x n) x,
    new,
    Registered-write chans p ch id v w (apart_rest p j id c ch new n) r,
  )

  -- What is taken out of the map and not sent yet: its channel is open, empty, made for it and no
  -- longer the channel of a pending id.
  abbrev pub IsFlying : List (ℕ × Channel F) → List (ℤ × ℕ) → Option (ℕ × Message F) → Type 0
  IsFlying chans p none = Unit
  IsFlying chans p (some (ch, m)) =
      (lookup ch chans ≡ some (waiting m.msg_id))
      × (lookup m.msg_id p ≢ some ch)
      × (is_response m.action ≡ true)

  pub IsFlying-delete :
      (chans : List (ℕ × Channel F)) (p : List (ℤ × ℕ)) (id : ℤ) (f : Option (ℕ × Message F))
      → IsFlying chans p f
      → IsFlying chans (delete id p) f
  IsFlying-delete chans p id none h = tt
  IsFlying-delete chans p id (some (ch, m)) (w, ne, a) = (
    w,
    λ h. elim (Bool-cases (id == m.msg_id)) [
      | inl e ↦ absurd_none (sym (rw e at (lookup-delete id m.msg_id p)) ∙ h)
      | inr e ↦ ne (sym (rw e at (lookup-delete id m.msg_id p)) ∙ h)
    ],
    a,
  )

  -- The first pending channel is closed.
  pub IsFlying-close :
      (chans : List (ℕ × Channel F)) (p : List (ℤ × ℕ)) (id : ℤ) (ch : ℕ) (v : Channel F)
      (f : Option (ℕ × Message F))
      → lookup ch chans ≡ some (waiting id)
      → lookup id p ≡ none
      → IsFlying chans ((id, ch) ∷ p) f
      → IsFlying (insert ch v chans) p f
  IsFlying-close chans p id ch v none x new h = tt
  IsFlying-close chans p id ch v (some (k, m)) x new (w, ne, a) = (
    lookup-insert ch k v chans
        ∙ rw (not_back ch k (apart_channel chans p id m.msg_id ch k w x ne)) w,
    apart_rest p id m.msg_id ch k new ne,
    a,
  )
    where
      not_back : (ch k : ℕ) → (k == ch) ≡ false → (ch == k) ≡ false
      not_back ch k e = ground arith

  -- A request with a channel that is new.
  pub IsFlying-insert :
      (chans : List (ℕ × Channel F)) (p : List (ℤ × ℕ)) (id : ℤ) (ch : ℕ) (v : Channel F)
      (f : Option (ℕ × Message F))
      → lookup ch chans ≡ none
      → IsFlying chans p f
      → IsFlying (insert ch v chans) (insert id ch p) f
  IsFlying-insert chans p id ch v none new h = tt
  IsFlying-insert chans p id ch v (some (k, m)) new (w, ne, a) =
      let other : (ch == k) ≡ false = not_new in
      (
        lookup-insert ch k v chans ∙ rw other w,
        λ h. elim (Bool-cases (id == m.msg_id)) [
          | inl e ↦ absurd_bool (
              sym ((==_iff ch k).1 (some_inj (sym (rw e at (lookup-insert id m.msg_id ch p)) ∙ h)))
              ∙ other)
          | inr e ↦ ne (sym (rw e at (lookup-insert id m.msg_id ch p)) ∙ h)
        ],
        a,
      )
    where
      some_inj : {a b : ℕ} → some a ≡ some b → a ≡ b
      some_inj e = cc

      not_new : (ch == k) ≡ false
      not_new = elim (Bool-cases (ch == k)) [
        | inr e ↦ e
        | inl e ↦ absurd_none (sym new ∙ ap (λ i. lookup i chans) ((==_iff ch k).0 e) ∙ w)
      ]

  -- So does a write to a channel that is new.
  pub Registered-add :
      (chans : List (ℕ × Channel F)) (p : List (ℤ × ℕ)) (ch : ℕ) (v : Channel F)
      → lookup ch chans ≡ none
      → Registered chans p
      → Registered (insert ch v chans) p
  Registered-add chans [] ch v n r = tt
  Registered-add chans ((j, c) ∷ p) ch v n r =
      ground (arith, ==_iff ch c, lookup-insert ch c v chans, Registered-add chans p ch v n, r)

  pub Registered-insert :
      (chans : List (ℕ × Channel F)) (p : List (ℤ × ℕ)) (id : ℤ) (ch : ℕ)
      → lookup ch chans ≡ some (waiting id)
      → Registered chans p
      → Registered chans (insert id ch p)
  unfolding insert
  Registered-insert chans [] id ch w r = (w, unfold lookup in refl, tt)
  Registered-insert chans ((j, c) ∷ p) id ch w r = ground (
    arith,
    ==_iff j id,
    ==_iff id j,
    lookup-insert id j ch p,
    Registered-insert chans p id ch w,
    r,
  )
