-- ===== src/Document/Gates.antt =====
-- What PublishDeviceBundle of internal/hass/discovery.go does to the components of a document.
use mathlib.Core.Path.{subst}
use go_homeconnect2mqtt.Base.{
  or_true, absurd_bool, String, ◌≡◌, ◌⊎◌, inl, inr, refl, sym, ap, ◌∙◌, Bool, true, false, ◌||◌,
  Bool-cases, Option-cases, Option, none, some, is_some, List, [], ◌∷◌, ok, err, err_ok, ok_ok,
  Result-cases, if◌then◌else◌,
}
use go_homeconnect2mqtt.Base.Keys.{◌==◌, ==_iff, text_key, lookup}
use go_homeconnect2mqtt.Migration.{has_topic}
use go_homeconnect2mqtt.Discovery.Describe.{sort_strings}
use go_homeconnect2mqtt.Ownership.{DocumentPart, apply_tombstones}
use go_homeconnect2mqtt.Ownership.Tombstones.{left_of, parts-apply_tombstones}
use go_homeconnect2mqtt.Document.{
  Gate, Verdict, blocked, valid, failed, issues, invalid_components, has_entity, platform_of,
  withheld_topics, delete_parts, is_live, pass, validate_rest, contain, judge, validate_bundle,
  publish_bundle, publish_device_bundle,
}

module _ (gate : Gate) where
  open gate use {
    bundles, validates, blocking, sends, delete_part, entity_topic, all_refused, lookup-delete_part,
  }

  lookup-delete_parts :
      (keys : List String) (key : String) (b : bundles.Bundle)
      → lookup key (bundles.parts (delete_parts gate keys b))
        ≡ (if has_topic key keys then none else lookup key (bundles.parts b))
  unfolding delete_parts has_topic
  lookup-delete_parts [] key b = refl
  lookup-delete_parts (k ∷ keys) key b =
      lookup-delete_parts keys key (delete_part k b)
      ∙ ap (λ o. if has_topic key keys then none else o) (lookup-delete_part k key b)
      ∙ merged (k == key) (has_topic key keys) (lookup key (bundles.parts b))
    where
      merged :
          (a c : Bool) (o : Option DocumentPart)
          → (if c then none else if a then none else o) ≡ (if a || c then none else o)
      merged true true o = refl
      merged true false o = refl
      merged false true o = refl
      merged false false o = refl

  -- Under the topics that are to be left alone
  abbrev IsSpared : Option DocumentPart → String → List String → Type 0
  IsSpared part key spared =
      has_entity gate part ≡ true
      → has_topic (entity_topic (platform_of gate part) key) spared ≡ true

  withheld_topics-IsSpared :
      (parts : List (String × DocumentPart)) (keys : List String) (key : String)
      → has_topic key keys ≡ true
      → IsSpared (lookup key parts) key (withheld_topics gate parts keys)
  unfolding withheld_topics has_topic
  withheld_topics-IsSpared parts [] key h e = absurd_bool (sym h)
  withheld_topics-IsSpared parts (k ∷ keys) key h e = elim (Bool-cases (k == key)) [
    | inl s ↦
        let same = (==_iff k key).0 s in
        rw (ap (λ x. has_entity gate (lookup x parts)) same ∙ e) (
          first (entity_topic (platform_of gate (lookup k parts)) k)
            (entity_topic (platform_of gate (lookup key parts)) key)
            (withheld_topics gate parts keys)
            (ap (λ x. entity_topic (platform_of gate (lookup x parts)) x) same))
    | inr s ↦
        let later = withheld_topics-IsSpared parts keys key (rw s at h) e in
        elim (Bool-cases (has_entity gate (lookup k parts))) [
          | inl f ↦ rw (f, later) (or_true _)
          | inr f ↦ rw f later
        ]
  ]
    where
      first : (s t : String) (ts : List String) → s ≡ t → has_topic t (s ∷ ts) ≡ true
      first s t ts e = rw ((==_iff s t).1 e) refl

  -- A component is as it was, or left out, and then its per-entity config is to be left alone.
  abbrev pub IsContained : bundles.Bundle → bundles.Bundle → List String → String → Type 0
  IsContained b b' spared key =
      (lookup key (bundles.parts b') ≡ lookup key (bundles.parts b))
      ⊎ ((lookup key (bundles.parts b') ≡ none)
          × IsSpared (lookup key (bundles.parts b)) key spared)

  Passes : bundles.Bundle → bundles.Bundle × List String → Type 0
  Passes b out = (is_live gate out.0 ≡ true) × ((key : String) → IsContained b out.0 out.1 key)

  pass-same :
      (v : Verdict) (b : bundles.Bundle) (withheld : List String)
      (out : bundles.Bundle × List String)
      → pass gate v b withheld ≡ ok out
      → (b, withheld) ≡ out
  unfolding pass
  pass-same valid b withheld out h = ok_ok h
  pass-same failed b withheld out h = err_ok h
  pass-same (issues found) b withheld out h = elim (Bool-cases (blocking found)) [
    | inl e ↦ err_ok (rw e at h)
    | inr e ↦ ok_ok (rw e at h)
  ]

  pass_blocked :
      (b : bundles.Bundle) (withheld : List String)
      → blocking (all_refused ∷ []) ≡ true
      → pass gate (issues (all_refused ∷ [])) b withheld ≡ err blocked
  unfolding pass
  pass_blocked b withheld empty = rw empty refl

  validate_rest-same :
      (v : Verdict) (b : bundles.Bundle) (withheld : List String)
      (out : bundles.Bundle × List String)
      → blocking (all_refused ∷ []) ≡ true
      → validate_rest gate v b withheld ≡ ok out
      → ((b, withheld) ≡ out) × (is_live gate b ≡ true)
  unfolding validate_rest
  validate_rest-same failed b withheld out empty h = err_ok h
  validate_rest-same valid b withheld out empty h = elim (Bool-cases (is_live gate b)) [
    | inl e ↦ (pass-same valid b withheld out (rw e at h), e)
    | inr e ↦ err_ok (sym (pass_blocked b withheld empty) ∙ (rw e at h))
  ]
  validate_rest-same (issues found) b withheld out empty h = elim (Bool-cases (is_live gate b)) [
    | inl e ↦ (pass-same (issues found) b withheld out (rw e at h), e)
    | inr e ↦ err_ok (sym (pass_blocked b withheld empty) ∙ (rw e at h))
  ]

  contain-Passes :
      (found : List String) (b : bundles.Bundle) (out : bundles.Bundle × List String)
      → blocking (all_refused ∷ []) ≡ true
      → contain gate found b ≡ ok out
      → Passes b out
  unfolding contain Passes
  contain-Passes found b out empty h =
      elim (Option-cases (invalid_components (bundles.parts b) found)) [
        | inl e ↦ err_ok (rw (e, contain) at h)
        | inr (keys, e) ↦
            let sorted = sort_strings keys in
            let left = delete_parts gate sorted b in
            let (same, live) =
              validate_rest-same (validates left) left
                (withheld_topics gate (bundles.parts b) sorted) out empty (rw (e, contain) at h) in
            subst (Passes b) same (
              live,
              λ key. elim (Bool-cases (has_topic key sorted)) [
                | inl m ↦ inr (
                  lookup-delete_parts sorted key b ∙ rw m refl,
                  withheld_topics-IsSpared (bundles.parts b) sorted key m,
                )
                | inr m ↦ inl (lookup-delete_parts sorted key b ∙ rw m refl)
              ],
            )
      ]

  judge-Passes :
      (v : Verdict) (b : bundles.Bundle) (out : bundles.Bundle × List String)
      → blocking (all_refused ∷ []) ≡ true
      → is_live gate b ≡ true
      → judge gate v b ≡ ok out
      → Passes b out
  unfolding judge Passes
  judge-Passes valid b out empty live h = subst (Passes b) (ok_ok h) (live, λ key. inl refl)
  judge-Passes failed b out empty live h = err_ok h
  judge-Passes (issues found) b out empty live h = elim (Bool-cases (blocking found)) [
    | inl e ↦ contain-Passes found b out empty (rw e at h)
    | inr e ↦ subst (Passes b) (ok_ok (rw e at h)) (live, λ key. inl refl)
  ]

  publish_bundle-Passes :
      (b : bundles.Bundle) (out : bundles.Bundle × List String)
      → blocking (all_refused ∷ []) ≡ true
      → publish_bundle gate b ≡ ok out
      → Passes b out
  unfolding publish_bundle
  publish_bundle-Passes b out empty h = elim (Bool-cases (is_live gate b)) [
    | inr e ↦ err_ok (rw (e, publish_bundle) at h)
    | inl e ↦ elim (Result-cases (validate_bundle gate b)) [
      | inl (x, k) ↦ err_ok (rw (e, k, publish_bundle) at h)
      | inr (got, k) ↦ elim (Bool-cases (sends got.0)) [
        | inl s ↦
            subst (Passes b) (ok_ok (rw (e, k, s, publish_bundle) at h))
              (judge-Passes (validates b) b got empty e (sym (unfold validate_bundle in refl) ∙ k))
        | inr s ↦ err_ok (rw (e, k, s, publish_bundle) at h)
      ]
    ]
  ]

  -- A document that goes out declares something, and whatever was retained before and whatever is
  -- refused of it, a component that was rendered goes out as it is or is left out, never as a removal;
  -- if it is left out, its per-entity config is among those that the sweep is to leave alone. That
  -- holds where a document without components is refused.
  pub publish_device_bundle-IsContained :
      (prior : List (String × DocumentPart)) (b : bundles.Bundle)
      (out : bundles.Bundle × List String)
      → blocking (all_refused ∷ []) ≡ true
      → publish_device_bundle gate prior (some b) ≡ ok out
      → (is_live gate out.0 ≡ true)
        × ((key : String)
            → is_some (lookup key (bundles.parts b)) ≡ true
            → IsContained b out.0 out.1 key)
  unfolding publish_device_bundle Passes
  publish_device_bundle-IsContained prior b out empty h =
      let marked = (apply_tombstones bundles prior b).0 in
      let (live, each) = publish_bundle-Passes marked out empty h in
      (
        live,
        λ key present.
            subst
              (λ o.
                (lookup key (bundles.parts out.0) ≡ o)
                ⊎ ((lookup key (bundles.parts out.0) ≡ none) × IsSpared o key out.1))
              (parts-apply_tombstones bundles prior b key
                ∙ kept_part (lookup key (bundles.parts b)) (lookup key prior) present)
              (each key),
      )
    where
      kept_part : (now before : Option DocumentPart) → is_some now ≡ true → left_of now before ≡ now
      kept_part none before h = absurd_bool (sym h)
      kept_part (some part) before h = refl
