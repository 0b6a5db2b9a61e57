-- ===== src/Document.antt =====
-- internal/hass/discovery.go, PublishDeviceBundle with its gates, and publishDiscovery of
-- internal/bridge/device.go around it. Rendering, discovery.Validate, Blocking, PublishBundle and the
-- topics of package publisher are parameters.
pub mod Gates
pub mod Swept
use Prim.Native.Char.{Char, code}
use go_homeconnect2mqtt.Base.{
  ℕ, String, ◌≡◌, Bool, true, false, not, ◌&&◌, ◌||◌, Option, none, some, is_some, from_option,
  List, [], ◌∷◌, nat_beq, Result, ok, err, if◌then◌else◌,
}
use go_homeconnect2mqtt.Base.Keys.{◌==◌, text_key, lookup}
use go_homeconnect2mqtt.Entity.{is_nil}
use go_homeconnect2mqtt.Migration.{has_topic}
use go_homeconnect2mqtt.Discovery.Describe.{sort_strings}
use go_homeconnect2mqtt.Ownership.{
  DocumentPart, Bundles, live_components, apply_tombstones, published_platforms,
}
use go_homeconnect2mqtt.Orphans.{PriorDocuments, for_connection, prior_components, record_live}

-- discovery.Validate: nil, a ValidationError with its issues, or another error.
pub data Verdict : Type 0 where
  valid failed : Verdict
  issues : List String → Verdict

pub data BundleError : Type 0 where
  no_components invalid blocked not_sent not_rendered : BundleError

-- What the gates take from outside: `delete_part` is delete(b.Components, key), `all_refused` the text
-- of the finding that no component is left.
pub record Gate : Type 1 where
  pub bundles : Bundles
  pub validates : bundles.Bundle → Verdict
  pub blocking : List String → Bool
  pub sends : bundles.Bundle → Bool
  pub delete_part : String → bundles.Bundle → bundles.Bundle
  pub entity_topic : String → String → String
  pub bundle_topic : String
  pub all_refused : String
  pub lookup-delete_part :
      (deleted key : String) (b : bundles.Bundle)
      → lookup key (bundles.parts (delete_part deleted b))
        ≡ (if deleted == key then none else lookup key (bundles.parts b))

-- strings.Cut(issue, ": "): the part before, where the separator is found.
unfoldable pub issue_key : String → Option String
issue_key String.[] = none
issue_key (String.◌∷◌ c String.[]) = none
issue_key (String.◌∷◌ c (String.◌∷◌ d s)) =
    let rest = issue_key (String.◌∷◌ d s) in
    if nat_beq (code c) b':' && nat_beq (code d) b' '
    then some ""
    else elim rest [ none ↦ none | some key ↦ some (String.◌∷◌ c key) ]

-- The loop of invalidComponents: the keys that the issues name, each once.
unfoldable pub named_keys : List (String × DocumentPart) → List String → Option (List String)
unfolding issue_key has_topic
named_keys parts [] = some []
named_keys parts (issue ∷ rest) =
    let later = named_keys parts rest in
    elim (issue_key issue) [
      | none ↦ none
      | some key ↦
          if is_some (lookup key parts)
          then elim later [
            | none ↦ none
            | some keys ↦ some (if has_topic key keys then keys else key ∷ keys)
          ]
          else none
    ]

-- invalidComponents
unfoldable pub invalid_components :
    List (String × DocumentPart) → List String → Option (List String)
unfolding named_keys
invalid_components parts found = elim (named_keys parts found) [
  | none ↦ none
  | some keys ↦ if is_nil keys then none else some keys
]

module _ (gate : Gate) where
  open gate use {
    bundles, validates, blocking, sends, delete_part, entity_topic, bundle_topic, all_refused,
  }

  -- A component whose per-entity config the sweep must leave alone.
  unfoldable pub has_entity : Option DocumentPart → Bool
  unfolding has_topic
  has_entity none = false
  has_entity (some part) = not (part.unique_id == "") && has_topic part.platform published_platforms

  unfoldable pub platform_of : Option DocumentPart → String
  platform_of none = ""
  platform_of (some part) = part.platform

  -- withholdComponents over the sorted keys: the topics that it returns, and the document.
  unfoldable pub withheld_topics : List (String × DocumentPart) → List String → List String
  unfolding has_entity platform_of
  withheld_topics parts [] = []
  withheld_topics parts (key ∷ keys) =
      let rest = withheld_topics parts keys in
      if has_entity (lookup key parts)
      then entity_topic (platform_of (lookup key parts)) key ∷ rest
      else rest

  unfoldable pub delete_parts : List String → bundles.Bundle → bundles.Bundle
  delete_parts [] b = b
  delete_parts (key ∷ keys) b = delete_parts keys (delete_part key b)

  unfoldable pub is_live : bundles.Bundle → Bool
  is_live b = not (is_nil (live_components (bundles.parts b)))

  -- The end of validateBundle: a verdict that does not block lets the document pass.
  unfoldable pub pass :
      Verdict → bundles.Bundle → List String → Result BundleError (bundles.Bundle × List String)
  pass valid b withheld = ok (b, withheld)
  pass failed b withheld = err invalid
  pass (issues found) b withheld = if blocking found then err blocked else ok (b, withheld)

  -- The branch of validateBundle behind withholdComponents
  unfoldable pub validate_rest :
      Verdict → bundles.Bundle → List String → Result BundleError (bundles.Bundle × List String)
  unfolding is_live pass
  validate_rest failed b withheld = err invalid
  validate_rest v b withheld =
      if is_live b then pass v b withheld else pass (issues (all_refused ∷ [])) b withheld

  unfoldable pub contain :
      List String → bundles.Bundle → Result BundleError (bundles.Bundle × List String)
  unfolding invalid_components sort_strings withheld_topics delete_parts validate_rest
  contain found b = elim (invalid_components (bundles.parts b) found) [
    | none ↦ err blocked
    | some keys ↦
        let left = delete_parts (sort_strings keys) b in
        validate_rest (validates left) left (withheld_topics (bundles.parts b) (sort_strings keys))
  ]

  unfoldable pub judge :
      Verdict → bundles.Bundle → Result BundleError (bundles.Bundle × List String)
  unfolding contain
  judge valid b = ok (b, [])
  judge failed b = err invalid
  judge (issues found) b = if blocking found then contain found b else ok (b, [])

  -- validateBundle
  unfoldable pub validate_bundle :
      bundles.Bundle → Result BundleError (bundles.Bundle × List String)
  unfolding judge
  validate_bundle b = judge (validates b) b

  -- publishBundle: the document that was sent, and what was withheld from it.
  unfoldable pub publish_bundle : bundles.Bundle → Result BundleError (bundles.Bundle × List String)
  unfolding is_live validate_bundle
  publish_bundle b = if not (is_live b) then err no_components else elim (validate_bundle b) [
    | err e ↦ err e
    | ok out ↦ if sends out.0 then ok out else err not_sent
  ]

  -- PublishDeviceBundle; `none` is a document that could not be rendered.
  unfoldable pub publish_device_bundle :
      List (String × DocumentPart)
      → Option bundles.Bundle
      → Result BundleError (bundles.Bundle × List String)
  unfolding publish_bundle
  publish_device_bundle prior none = err not_rendered
  publish_device_bundle prior (some b) = publish_bundle (apply_tombstones bundles prior b).0

  -- publishDiscovery on the connection `rt`: the memory behind it, and the topics that the sweep it
  -- starts takes for published, where it starts one. `declared` is documentIsDeclared.
  unfoldable pub publish_discovery :
      ℕ
      → String
      → List (String × List (String × DocumentPart))
      → Option bundles.Bundle
      → Bool
      → PriorDocuments
      → PriorDocuments × Option (List String)
  unfolding publish_device_bundle
  publish_discovery rt node read rendered declared p =
      let p = for_connection rt read p in
      let prior = from_option [] (prior_components node p) in
      elim (publish_device_bundle prior rendered) [
        | err e ↦ (p, none)
        | ok (b, withheld) ↦
            if declared
            then (
              record_live rt node (live_components (bundles.parts b)) p,
              some (bundle_topic ∷ withheld),
            )
            else (p, none)
      ]
