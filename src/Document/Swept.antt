-- ===== src/Document/Swept.antt =====
-- publishDiscovery of internal/bridge/device.go together with the sweep that it starts.
use go_homeconnect2mqtt.Base.{
  or_true, and_false, absurd_none, ℕ, String, ◌≡◌, ◌⊎◌, inl, inr, refl, sym, ap, ◌∙◌, Bool, true,
  false, ◌&&◌, Bool-cases, none, some, is_some, from_option, List, [], ◌∷◌, ok, Result-cases,
}
use go_homeconnect2mqtt.Base.Keys.{◌==◌, text_key, lookup}
use go_homeconnect2mqtt.Migration.{has_topic}
use go_homeconnect2mqtt.Ownership.{ConfigTopic, DocumentPart, Instance}
use go_homeconnect2mqtt.Orphans.{
  Sweeper, PriorDocuments, for_connection, prior_components, reconciled,
}
use go_homeconnect2mqtt.Orphans.Claims.{ours_at, has_topic-reconciled}
use go_homeconnect2mqtt.Document.{
  Gate, has_entity, platform_of, is_live, publish_device_bundle, publish_discovery,
}
use go_homeconnect2mqtt.Document.Gates.{publish_device_bundle-IsContained}

among :
    (first topic : String) (ts : List String)
    → has_topic topic ts ≡ true
    → has_topic topic (first ∷ ts) ≡ true
unfolding has_topic
among first topic ts e = rw e (or_true (first == topic))

module _ (gate : Gate) (inst : Instance) (sweeper : Sweeper) where
  open gate use {bundles, blocking, entity_topic, bundle_topic, all_refused}
  open sweeper use {Raw}

  -- What the sweep takes for published it does not retract.
  published_spared :
      (device topic : String) (published declared : List String)
      (retained : List (ConfigTopic × Raw))
      → has_topic topic published ≡ true
      → has_topic topic (reconciled inst sweeper device published declared retained) ≡ false
  published_spared device topic published declared retained h =
      has_topic-reconciled inst sweeper device topic published declared retained
      ∙ rw h (and_false (ours_at inst sweeper (device ∷ []) topic retained))

  -- The earlier components that publishDiscovery takes for the document.
  abbrev pub prior_of :
      ℕ
      → String
      → List (String × List (String × DocumentPart))
      → PriorDocuments
      → List (String × DocumentPart)
  prior_of rt node read p = from_option [] (prior_components node (for_connection rt read p))

  -- A pass of publishDiscovery that starts a sweep has published a document of the bundle.
  published_as :
      (rt : ℕ) (node : String) (read : List (String × List (String × DocumentPart)))
      (b : bundles.Bundle) (declared : Bool) (p : PriorDocuments) (published : List String)
      → (publish_discovery gate rt node read (some b) declared p).1 ≡ some published
      → (out : bundles.Bundle × List String) × ((publish_device_bundle gate
              (prior_of rt node read p)
              (some b)
            ≡ ok out)
          × (published ≡ bundle_topic ∷ out.1))
  unfolding publish_discovery
  published_as rt node read b declared p published h =
      elim (Result-cases (publish_device_bundle gate (prior_of rt node read p) (some b))) [
        | inl (e, k) ↦ absurd_none (rw (k, publish_discovery) at h)
        | inr (out, k) ↦ elim (Bool-cases declared) [
          | inl d ↦ (out, (k, ap (from_option published) (sym (rw (k, d, publish_discovery) at h))))
          | inr d ↦ absurd_none (rw (k, d, publish_discovery) at h)
        ]
      ]

  -- A pass of publishDiscovery over a rendered document that starts a sweep has sent a document that
  -- declares something, and a rendered component is in it as it was rendered, or is left out of it and
  -- its per-entity config, if it has one, is not retracted by that sweep, whatever is retained and
  -- declared. So no rendered component is removed from Home Assistant. That holds where a document
  -- without components is refused.
  pub publish_discovery_spares :
      (rt : ℕ) (node device : String) (read : List (String × List (String × DocumentPart)))
      (b : bundles.Bundle) (is_declared : Bool) (p : PriorDocuments)
      (published declared : List String) (retained : List (ConfigTopic × Raw)) (key : String)
      → is_some (lookup key (bundles.parts b)) ≡ true
      → blocking (all_refused ∷ []) ≡ true
      → (publish_discovery gate rt node read (some b) is_declared p).1 ≡ some published
      → (out : bundles.Bundle × List String) × ((publish_device_bundle gate
              (prior_of rt node read p)
              (some b)
            ≡ ok out)
          × ((is_live gate out.0 ≡ true)
              × ((lookup key (bundles.parts out.0) ≡ lookup key (bundles.parts b))
                  ⊎ ((lookup key (bundles.parts out.0) ≡ none)
                      × ((has_entity gate (lookup key (bundles.parts b))
                            && has_topic
                                (entity_topic (platform_of gate (lookup key (bundles.parts b))) key)
                                (reconciled inst sweeper device published declared retained))
                          ≡ false)))))
  publish_discovery_spares rt node device read b is_declared p published declared retained key
        present empty h =
      let (out, (sent, same)) = published_as rt node read b is_declared p published h in
      let (live, each) =
        publish_device_bundle-IsContained gate (prior_of rt node read p) b out empty sent in
      let topic = entity_topic (platform_of gate (lookup key (bundles.parts b))) key in
      (
        out,
        (
          sent,
          (
            live,
            elim (each key present) [
              | inl kept ↦ inl kept
              | inr (gone, spared) ↦ inr (
                gone,
                elim (Bool-cases (has_entity gate (lookup key (bundles.parts b)))) [
                  | inl e ↦
                      rw
                        (
                          e,
                          published_spared device topic published declared retained (
                              ap (has_topic topic) same
                              ∙ among bundle_topic topic out.1 (spared e)),
                        )
                        refl
                  | inr e ↦ rw e refl
                ],
              )
            ],
          ),
        ),
      )
