-- ===== src/Layout/Topics.antt =====
-- Command and state topics of internal/layout/layout.go, as Relative reads them.
use Prim.Native.Char.{code}
use Prim.Native.String.{◌++◌}
use text.Mathlib.TextLemmas.{nil-append, cons-append, append_assoc}
use go_homeconnect2mqtt.Base.{
  ℕ, String, inl, inr, Bool-cases, ◌≡◌, ◌≢◌, refl, ap, ◌∙◌, true, none, some, List, [], ◌∷◌,
  nat_beq, arith,
}
use go_homeconnect2mqtt.Base.Int.{ℤ}
use go_homeconnect2mqtt.Base.Keys.{◌==◌, ==_iff, text_key}
use go_homeconnect2mqtt.Layout.{
  SmartHome, cut_prefix, split_dots, dot, feature_item, feature_path, state, command, set_base,
  relative, unnamed_prefix,
}

nat_beq_self : (n : ℕ) → nat_beq n n ≡ true
nat_beq_self n = ground arith

-- A common prefix does not matter.
pub cut_prefix_common : (p q s : String) → cut_prefix (p ++ q) (p ++ s) ≡ cut_prefix q s
unfolding cut_prefix
cut_prefix_common String.[] q s = rw (nil-append q, nil-append s) refl
cut_prefix_common (String.◌∷◌ c p) q s =
    rw (cons-append c p q, cons-append c p s, nat_beq_self (code c)) (cut_prefix_common p q s)

pub cut_prefix-append : (p s : String) → cut_prefix p (p ++ s) ≡ some s
unfolding cut_prefix
cut_prefix-append String.[] s = rw (nil-append s) refl
cut_prefix-append (String.◌∷◌ c p) s =
    rw (cons-append c p s, nat_beq_self (code c)) (cut_prefix-append p s)

-- strings.Split yields a part at least.
pub split_dots_cons : (s : String) → (x : String) × (xs : List String) × (split_dots s ≡ x ∷ xs)
unfolding split_dots
split_dots_cons String.[] = ("", [], refl)
split_dots_cons (String.◌∷◌ c s) =
    let (x, xs, e) = split_dots_cons s in
    elim (Bool-cases (nat_beq (code c) dot)) [
      | inl cut ↦ ("", split_dots s, rw cut refl)
      | inr kept ↦ (String.◌∷◌ c x, xs, rw (kept, e) refl)
    ]

-- The two functions of the layout part at the second letter behind the instance.
set_status_fork : (y z : String) → cut_prefix ("/set/" ++ y) ("/status/" ++ z) ≡ none
unfolding cut_prefix
set_status_fork y z =
    rw (append_assoc "/s" "et/" y, append_assoc "/s" "tatus/" z)
      (cut_prefix_common "/s" ("et/" ++ y) ("tatus/" ++ z)
        ∙ rw (cons-append "e" "t/" y, cons-append "t" "atus/" z) refl)

module _ (sh : SmartHome) where
  feature_item_cons :
      (feature : String) (uid : ℤ)
      → (x : String) × (xs : List String) × (feature_item sh feature uid ≡ x ∷ xs)
  unfolding feature_item
  feature_item_cons feature uid =
      let (x, xs, e) = split_dots_cons feature in
      elim (Bool-cases (feature == "")) [
        | inl unnamed ↦ (unnamed_prefix, sh.itoa uid ∷ [], rw unnamed refl)
        | inr named ↦ (x, xs, rw named e)
      ]

  set_topic :
      (ha_id x : String) (xs : List String)
      → sh.set (ha_id ∷ x ∷ xs) ≡ set_base sh ha_id ++ sh.join (x ∷ xs)
  unfolding set_base
  set_topic ha_id x xs =
      sh.set_lem ha_id x xs
      ∙ rw
          (
            append_assoc sh.name ("/set/" ++ (sh.safe ha_id ++ "/")) (sh.join (x ∷ xs)),
            append_assoc "/set/" (sh.safe ha_id ++ "/") (sh.join (x ∷ xs)),
            append_assoc (sh.safe ha_id) "/" (sh.join (x ∷ xs)),
          )
          refl

  relative-set :
      (ha_id x : String) (xs : List String)
      → sh.join (x ∷ xs) ≢ ""
      → relative sh ha_id (sh.set (ha_id ∷ x ∷ xs)) ≡ some (sh.join (x ∷ xs))
  unfolding relative
  relative-set ha_id x xs h =
      rw (set_topic ha_id x xs, relative, cut_prefix-append (set_base sh ha_id) (sh.join (x ∷ xs)))
        (ground (arith, ==_iff (sh.join (x ∷ xs)) ""))

  -- A command for a feature reaches the handler as that feature's path, unless the path is empty.
  pub relative-command :
      (ha_id feature : String) (uid : ℤ)
      → feature_path sh feature uid ≢ ""
      → relative sh ha_id (command sh ha_id feature uid) ≡ some (feature_path sh feature uid)
  unfolding command feature_path
  relative-command ha_id feature uid h =
      let (x, xs, e) = feature_item_cons feature uid in
      rw (command, feature_path, e) (relative-set ha_id x xs (λ n. h (ap sh.join e ∙ n)))

  -- No state topic is taken for a command.
  pub relative-state :
      (ha_id other feature : String) (uid : ℤ)
      → relative sh ha_id (state sh other feature uid) ≡ none
  unfolding relative state set_base
  relative-state ha_id other feature uid =
      let (x, xs, e) = feature_item_cons feature uid in
      let after = sh.safe other ++ ("/" ++ sh.join (x ∷ xs)) in
      rw
        (
          relative,
          state,
          e,
          sh.status_lem other x xs,
          set_base,
          cut_prefix_common sh.name ("/set/" ++ (sh.safe ha_id ++ "/")) ("/status/" ++ after),
          set_status_fork (sh.safe ha_id ++ "/") after,
        )
        refl
