-- ===== src/Migration/Items.antt =====
-- The status items of an appliance, internal/layout/layout.go, as texts.
use Prim.Native.Char.{Char, code}
use Prim.Native.String.{◌++◌ as ◌^^◌}
use mathlib.Core.Path.{subst}
use text.Mathlib.TextLemmas.{nil-append, cons-append, append_assoc}
use text.Mathlib.TextEquality.{Char-path}
use go_homeconnect2mqtt.Base.{
  absurd_none, absurd_bool, String, ◌≡◌, ◌≢◌, refl, sym, ap, ◌∙◌, Bool, true, inl, inr, Bool-cases,
  Option-cases, some, is_some, List, [], ◌∷◌, nat_beq, nat_beq_iff, from_option,
}
use go_homeconnect2mqtt.Base.Int.{ℤ}
use go_homeconnect2mqtt.Base.Keys.{◌==◌, ==_iff, text_key}
use go_homeconnect2mqtt.Layout.{SmartHome, cut_prefix, feature_item, state, unnamed_prefix}
use go_homeconnect2mqtt.Layout.Topics.{cut_prefix_common, split_dots_cons}
use go_homeconnect2mqtt.Migration.{
  first_segment, has_topic, SweepDevice, status_prefix, online_topic, connection_state_topic,
  current_states, current_items,
}
use go_homeconnect2mqtt.Migration.Kept.{first_segment-append}

pub slash_full : (s : String) → ("/" ^^ s) ≢ ""
slash_full s e = no_cons (sym (cons-append "/" "" s) ∙ e)
  where
    no_cons : {A : Type 0} {c : Char} {t : String} → String.◌∷◌ c t ≡ "" → A
    no_cons h = cc

-- What strings.CutPrefix yields is the rest.
pub cut_prefix_rest : (p s r : String) → cut_prefix p s ≡ some r → s ≡ p ^^ r
unfolding cut_prefix
cut_prefix_rest String.[] s r h = ap (from_option s) h ∙ sym (nil-append r)
cut_prefix_rest (String.◌∷◌ c p) String.[] r h = cc
cut_prefix_rest (String.◌∷◌ c p) (String.◌∷◌ d s) r h =
    elim (Bool-cases (nat_beq (code c) (code d))) [
      | inl e ↦
          ap (λ x. String.◌∷◌ x s) (sym (Char-path c d ((nat_beq_iff (code c) (code d)).0 e)))
          ∙ ap (String.◌∷◌ c) (cut_prefix_rest p s r (rw e at h))
          ∙ sym (cons-append c p r)
      | inr e ↦ absurd_none (rw e at h)
    ]

module _ (sh : SmartHome) (is_function : String → Bool) (root : String) where
  open sh use {name, safe, status, join, status_lem}

  -- The shape of a status item.
  unfoldable pub IsItem : String → String → Type 0
  IsItem ha_id topic = (x : String) × (topic ≡ name ^^ ("/status/" ^^ (safe ha_id ^^ ("/" ^^ x))))

  pub status-IsItem : (ha_id s : String) (r : List String) → IsItem ha_id (status (ha_id ∷ s ∷ r))
  unfolding IsItem
  status-IsItem ha_id s r = (join (s ∷ r), status_lem ha_id s r)

  feature_item_cons :
      (feature : String) (uid : ℤ)
      → (x : String) × ((xs : List String) × (feature_item sh feature uid ≡ x ∷ xs))
  unfolding feature_item
  feature_item_cons feature uid = elim (Bool-cases (feature == "")) [
    | inl e ↦ (unnamed_prefix, (sh.itoa uid ∷ [], rw e refl))
    | inr e ↦ let (x, xs, f) = split_dots_cons feature in (x, (xs, rw (e, f) refl))
  ]

  state-IsItem : (ha_id feature : String) (uid : ℤ) → IsItem ha_id (state sh ha_id feature uid)
  unfolding state
  state-IsItem ha_id feature uid =
      let (x, (xs, e)) = feature_item_cons feature uid in
      subst (λ l. IsItem ha_id (status (ha_id ∷ l))) (sym e) (status-IsItem ha_id x xs)

  one_of :
      (ha_id topic t : String) (ts : List String)
      → IsItem ha_id t
      → (has_topic topic ts ≡ true → IsItem ha_id topic)
      → has_topic topic (t ∷ ts) ≡ true
      → IsItem ha_id topic
  unfolding has_topic
  one_of ha_id topic t ts item later h = elim (Bool-cases (t == topic)) [
    | inl e ↦ subst (IsItem ha_id) ((==_iff t topic).0 e) item
    | inr e ↦ later (rw e at h)
  ]

  current_states-IsItem :
      (ha_id topic : String) (fs : List (String × ℤ))
      → has_topic topic (current_states sh is_function ha_id fs) ≡ true
      → IsItem ha_id topic
  unfolding current_states
  current_states-IsItem ha_id topic [] h = absurd_bool (sym h ∙ (unfold has_topic in refl))
  current_states-IsItem ha_id topic ((feature, uid) ∷ fs) h =
      one_of ha_id topic (state sh ha_id feature uid) (current_states sh is_function ha_id fs)
        (state-IsItem ha_id feature uid) (current_states-IsItem ha_id topic fs) h

  pub current_items-IsItem :
      (topic : String) (d : SweepDevice)
      → has_topic topic (current_items sh is_function d) ≡ true
      → IsItem d.ha_id topic
  unfolding current_items online_topic connection_state_topic
  current_items-IsItem topic d h =
      one_of d.ha_id topic (online_topic sh is_function d.ha_id)
        (connection_state_topic sh is_function d.ha_id
          ∷ current_states sh is_function d.ha_id d.features)
        (status-IsItem d.ha_id "online" [])
        (one_of d.ha_id topic (connection_state_topic sh is_function d.ha_id)
          (current_states sh is_function d.ha_id d.features)
          (status-IsItem d.ha_id "connection_state" [])
          (current_states-IsItem d.ha_id topic d.features))
        h

  -- A status prefix that fits an item is that of the item's appliance.
  pub prefix_fits :
      (mine other topic : String)
      → ((s : String) → first_segment (safe s) ≡ safe s)
      → IsItem mine topic
      → is_some (cut_prefix (status_prefix sh is_function other) topic) ≡ true
      → safe other ≡ safe mine
  unfolding IsItem status_prefix
  prefix_fits mine other topic plain (x, e) h =
      let inner = cut_prefix (safe other ^^ "/") (safe mine ^^ ("/" ^^ x)) in
      let same : cut_prefix (name ^^ ("/status/" ^^ (safe other ^^ "/"))) topic ≡ inner =
        ap (cut_prefix (name ^^ ("/status/" ^^ (safe other ^^ "/")))) e
        ∙ cut_prefix_common name ("/status/" ^^ (safe other ^^ "/"))
            ("/status/" ^^ (safe mine ^^ ("/" ^^ x)))
        ∙ cut_prefix_common "/status/" (safe other ^^ "/") (safe mine ^^ ("/" ^^ x)) in
      elim (Option-cases inner) [
        | inl k ↦ absurd_bool (sym h ∙ ap is_some (same ∙ k))
        | inr (r, k) ↦
            let whole = cut_prefix_rest (safe other ^^ "/") (safe mine ^^ ("/" ^^ x)) r k in
            sym (
              sym (plain mine)
              ∙ sym (first_segment-append (safe mine) x)
              ∙ ap first_segment (whole ∙ append_assoc (safe other) "/" r)
              ∙ first_segment-append (safe other) r
              ∙ plain other)
      ]
