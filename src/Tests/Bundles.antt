-- ===== src/Tests/Bundles.antt =====
-- The theorems on retained configs and device documents at concrete ones.
use Prim.Native.String.{◌++◌ as ◌^^◌}
use go_homeconnect2mqtt.Base.{absurd_bool}
use go_homeconnect2mqtt.Base.{◌⊎◌}
use go_homeconnect2mqtt.Base.{
  is_some, ok, String, ◌≡◌, refl, sym, ap, ◌∙◌, Bool, true, false, not, ◌&&◌, ◌||◌, inl, inr,
  Bool-cases, Option, none, some, List, [], ◌∷◌, if◌then◌else◌,
}
use go_homeconnect2mqtt.Base.Keys.{
  ◌==◌, ==_iff, text_key, lookup, insert, delete, lookup-insert, lookup-delete,
}
use go_homeconnect2mqtt.Migration.{trim_root, has_topic}
use go_homeconnect2mqtt.Ownership.{
  live_components, RetainedConfig, ConfigTopic, Instance, DocumentPart, Bundles, topics, is_own,
  contains_slash, cut_suffix, single_level, apply_tombstones,
}
use go_homeconnect2mqtt.Ownership.Nested.{is_own-IsNested}
use go_homeconnect2mqtt.Ownership.Tombstones.{left_of, parts-apply_tombstones}
use go_homeconnect2mqtt.Discovery.Describe.{sort_strings}
use go_homeconnect2mqtt.Document.{
  Gate, issues, valid, is_live, publish_device_bundle, publish_discovery, has_entity, platform_of,
}
use go_homeconnect2mqtt.Document.Swept.{prior_of, publish_discovery_spares}
use go_homeconnect2mqtt.Orphans.{
  Sweeper, PriorDocuments, for_connection, PriorOp, ask, note, is_runtime, reconciled, prior_run,
  prior_components,
}
use go_homeconnect2mqtt.Orphans.Claims.{
  ours_at, has_topic-reconciled, latest, prior_components-latest,
}

rooted_home : trim_root "home" ≡ "home"
unfolding trim_root
rooted_home = refl

differ : {A : Type 0} (s t : String) → (s == t) ≡ false → s ≡ t → A
differ s t f h = absurd_bool (sym ((==_iff s t).1 h) ∙ f)

-- A config of an instance that is rooted at home/kitchen, and of one at home/status.
abbrev inst : Instance
inst = record { root_topic = "home"; connected = "home/connected" }

abbrev kitchen_config : RetainedConfig
kitchen_config = record {
  unique_id = "homeconnect_oven_power";
  state_topic = "home/kitchen/oven/Power/state";
  command_topic = "";
  availability_topic = "home/kitchen/oven/availability";
  availability = "home/status/status/A1/online" ∷ [];
}

is_own-IsNested_example : is_own inst kitchen_config ≡ false
is_own-IsNested_example = is_own-IsNested inst kitchen_config rooted_home refl (
    unfold topics contains_slash cut_suffix single_level in
    (
      inr (
        "kitchen",
        (
          "oven/Power/state",
          (
            refl,
            (
              refl,
              (inl (differ "kitchen" "status" refl), differ "oven/Power/state" "availability" refl),
            ),
          ),
        ),
      ),
      (
        inl refl,
        (
          inr (
            "kitchen",
            (
              "oven/availability",
              (
                refl,
                (
                  refl,
                  (
                    inl (differ "kitchen" "status" refl),
                    differ "oven/availability" "availability" refl,
                  ),
                ),
              ),
            ),
          ),
          (
            inr (
              "status",
              (
                "status/A1/online",
                (refl, (refl, (inr refl, differ "status/A1/online" "availability" refl))),
              ),
            ),
            tt,
          ),
        ),
      ),
    ))

-- A document as the list of its parts, and a removal of each key in turn.
abbrev emptied : DocumentPart → DocumentPart
emptied part = record { platform = part.platform; unique_id = "" }

abbrev put :
    String → Option DocumentPart → List (String × DocumentPart) → List (String × DocumentPart)
put key none b = b
put key (some part) b = insert key (emptied part) b

abbrev remove_all :
    List (String × DocumentPart)
    → List String
    → List (String × DocumentPart)
    → List (String × DocumentPart)
remove_all prior [] b = b
remove_all prior (k ∷ ks) b = put k (lookup k prior) (remove_all prior ks b)

lookup-put :
    (key k : String) (o : Option DocumentPart) (b : List (String × DocumentPart))
    → lookup key (put k o b) ≡ (
        if k == key
        then elim o [ none ↦ lookup key b | some part ↦ some (emptied part) ]
        else lookup key b)
lookup-put key k none b = if_same (k == key)
  where
    if_same : (c : Bool) → lookup key b ≡ (if c then lookup key b else lookup key b)
    if_same true = refl
    if_same false = refl
lookup-put key k (some part) b = lookup-insert k key (emptied part) b

kept_by_remove_all :
    (prior : List (String × DocumentPart)) (keys : List String) (key : String)
    (b : List (String × DocumentPart))
    → has_topic key keys ≡ false
    → lookup key (remove_all prior keys b) ≡ lookup key b
unfolding has_topic
kept_by_remove_all prior [] key b h = refl
kept_by_remove_all prior (k ∷ ks) key b h = elim (Bool-cases (k == key)) [
  | inl e ↦ absurd_bool (rw e at h)
  | inr e ↦
      lookup-put key k (lookup k prior) (remove_all prior ks b)
      ∙ rw e (kept_by_remove_all prior ks key b (rw e at h))
]

left_by_remove_all :
    (prior : List (String × DocumentPart)) (keys : List String) (key : String) (part : DocumentPart)
    (b : List (String × DocumentPart))
    → has_topic key keys ≡ true
    → lookup key prior ≡ some part
    → lookup key (remove_all prior keys b) ≡ some (emptied part)
unfolding has_topic
left_by_remove_all prior [] key part b h p = absurd_bool (sym h)
left_by_remove_all prior (k ∷ ks) key part b h p = elim (Bool-cases (k == key)) [
  | inl e ↦
      lookup-put key k (lookup k prior) (remove_all prior ks b)
      ∙ rw (e, ap (λ x. lookup x prior) ((==_iff k key).0 e) ∙ p) refl
  | inr e ↦
      lookup-put key k (lookup k prior) (remove_all prior ks b)
      ∙ rw e (left_by_remove_all prior ks key part b (rw e at h) p)
]

abbrev listed : Bundles
listed = record {
  Bundle = List (String × DocumentPart);
  parts = λ b. b;
  remove_components = remove_all;
  kept_by_remove = kept_by_remove_all;
  left_by_remove = left_by_remove_all;
}

abbrev lamp : DocumentPart
lamp = record { platform = "switch"; unique_id = "homeconnect_oven_lamp" }

abbrev earlier : List (String × DocumentPart)
earlier = ("old", lamp) ∷ []

abbrev document : List (String × DocumentPart)
document = ("lamp", lamp) ∷ []

parts-apply_tombstones_example :
    lookup "old" (apply_tombstones listed earlier document).0
    ≡ left_of (lookup "old" document) (lookup "old" earlier)
parts-apply_tombstones_example = parts-apply_tombstones listed earlier document "old"

-- A gate that finds fault with the component `bad` alone.
abbrev strict : Gate
strict = record {
  bundles = listed;
  validates = λ b. if is_some (lookup "bad" b) then issues ("bad: no topic" ∷ []) else valid;
  blocking = λ found. true;
  sends = λ b. true;
  delete_part = λ key b. delete key b;
  entity_topic = λ platform key. platform ^^ ("/" ^^ key);
  bundle_topic = "oven";
  all_refused = "none is left";
  lookup-delete_part = lookup-delete;
}

abbrev rendered : List (String × DocumentPart)
rendered = ("lamp", lamp) ∷ ("bad", lamp) ∷ []

abbrev sent_out : List (String × DocumentPart) × List String
sent_out = (("lamp", lamp) ∷ ("old", emptied lamp) ∷ [], "switch/bad" ∷ [])

-- A window with a retained config of this instance.
abbrev own_config : RetainedConfig
own_config = record {
  unique_id = "homeconnect_oven_power";
  state_topic = "home/status/A1/Power";
  command_topic = "";
  availability_topic = "";
  availability = "home/connected" ∷ [];
}

abbrev sweeper : Sweeper
sweeper = record {
  Raw = RetainedConfig;
  read_config = λ c. some c;
  node_of = λ s. s;
  config_topic = λ t. t.object_id;
  bundle_topic = λ s. s;
  retracts = λ s. true;
}

abbrev power_topic : ConfigTopic
power_topic = record {
  is_bundle = false;
  platform = "sensor";
  node_id = "oven";
  object_id = "power";
}

has_topic-reconciled_example :
    has_topic "power" (reconciled inst sweeper "oven" [] [] ((power_topic, own_config) ∷ [])) ≡ (
      ours_at inst sweeper ("oven" ∷ []) "power" ((power_topic, own_config) ∷ [])
      && not (has_topic "power" [] || has_topic "power" []))
has_topic-reconciled_example =
    has_topic-reconciled inst sweeper "oven" "power" [] [] ((power_topic, own_config) ∷ [])

-- A reading on the second connection, a pass over the first one that ends late, and one of its own.
abbrev lamp_only : List (String × DocumentPart)
lamp_only = ("lamp", lamp) ∷ []

abbrev calls : List PriorOp
calls = note 1 "oven" [] ∷ ask 2 [] ∷ note 2 "oven" lamp_only ∷ []

abbrev nothing_read : List (String × List (String × DocumentPart))
nothing_read = []

prior_components-latest_example :
    prior_components "oven"
      (prior_run (ask 2 nothing_read ∷ calls) (record { runtime = some 1; docs = [] }))
    ≡ latest 2 "oven" calls (lookup "oven" nothing_read)
prior_components-latest_example =
    prior_components-latest 2 "oven" nothing_read calls (record { runtime = some 1; docs = [] })
      (unfold is_runtime in refl) (tt, (refl, (tt, tt)))

abbrev unread : PriorDocuments
unread = record { runtime = none; docs = [] }

abbrev earlier_documents : List (String × List (String × DocumentPart))
earlier_documents = ("oven", earlier) ∷ []

sweep_starts :
    (publish_discovery strict 1 "oven" earlier_documents (some rendered) true unread).1
    ≡ some ("oven" ∷ sent_out.1)
unfolding publish_discovery publish_device_bundle apply_tombstones lookup insert delete sort_strings
    live_components for_connection prior_components
sweep_starts = refl

publish_discovery_spares_example :
    (out : List (String × DocumentPart) × List String) × ((publish_device_bundle strict
          (prior_of strict inst sweeper 1 "oven" earlier_documents unread)
          (some rendered)
        ≡ ok out)
      × ((is_live strict out.0 ≡ true)
          × ((lookup "bad" out.0 ≡ lookup "bad" rendered)
              ⊎ ((lookup "bad" out.0 ≡ none)
                  × ((has_entity strict (lookup "bad" rendered)
                        && has_topic
                            (strict.entity_topic (platform_of strict (lookup "bad" rendered)) "bad")
                            (reconciled inst sweeper "oven"
                              ("oven" ∷ sent_out.1)
                              []
                              ((power_topic, own_config) ∷ [])))
                      ≡ false)))))
publish_discovery_spares_example =
    publish_discovery_spares strict inst sweeper 1 "oven" "oven" earlier_documents rendered true
      unread ("oven" ∷ sent_out.1) [] ((power_topic, own_config) ∷ []) "bad" (unfold lookup in refl)
      refl sweep_starts
