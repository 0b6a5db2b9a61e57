-- ===== src/Orphans.antt =====
-- internal/bridge/reconcile.go: the sweep for orphaned discovery configs. internal/bridge/tombstone.go:
-- the documents read back on a connection. The retained configs of a snapshot window are a list; a
-- topic is retracted where the plane's Retract, a parameter, succeeds.
pub mod Claims
use go_homeconnect2mqtt.Base.{
  ℕ, suc, String, Bool, true, false, not, ◌&&◌, ◌||◌, Option, none, some, is_some, List, [], ◌∷◌,
  ◌++◌, length, map, nat_beq, if◌then◌else◌,
}
use go_homeconnect2mqtt.Base.Keys.{◌==◌, text_key, lookup, insert, delete}
use go_homeconnect2mqtt.Entity.{is_nil}
use go_homeconnect2mqtt.Migration.{has_topic}
use go_homeconnect2mqtt.Ownership.{
  ConfigTopic, RetainedConfig, Instance, DocumentPart, owns_config_topic, is_own_config,
}

-- What the sweep takes from outside: the retained configs with their bodies, node_of,
-- publisher.EntityConfigTopic under this daemon's prefix, BundleTopic, and Retract.
pub record Sweeper : Type 1 where
  pub Raw : Type 0
  pub read_config : Raw → Option RetainedConfig
  pub node_of : String → String
  pub config_topic : ConfigTopic → String
  pub bundle_topic : String → String
  pub retracts : String → Bool

-- orphanTopics: the two sets of claims are lists.
unfoldable pub orphan_topics : List String → List String → List String → List String
unfolding has_topic
orphan_topics [] published declared = []
orphan_topics (topic ∷ owned) published declared =
    let rest = orphan_topics owned published declared in
    if has_topic topic (published ++ declared) then rest else topic ∷ rest

module _ (inst : Instance) (sweeper : Sweeper) where
  open sweeper use {Raw, read_config, node_of, config_topic, bundle_topic, retracts}

  -- The test of the window's two predicates
  unfoldable pub is_ours : List String → ConfigTopic → Raw → Bool
  unfolding owns_config_topic is_own_config
  is_ours devices t body =
      owns_config_topic node_of devices t && is_own_config inst read_config body

  -- collectOwnConfigs
  unfoldable pub collect_own_configs : List String → List (ConfigTopic × Raw) → List String
  unfolding is_ours
  collect_own_configs devices [] = []
  collect_own_configs devices ((t, body) ∷ retained) =
      let rest = collect_own_configs devices retained in
      if is_ours devices t body then config_topic t ∷ rest else rest

  -- retract
  unfoldable pub retract : List String → ℕ
  retract [] = 0
  retract (topic ∷ topics) = let rest = retract topics in if retracts topic then suc rest else rest

  -- The topics that reconcileOrphansOnce hands to retract, and its result
  unfoldable pub reconciled :
      String → List String → List String → List (ConfigTopic × Raw) → List String
  unfolding collect_own_configs orphan_topics
  reconciled device published declared retained =
      orphan_topics (collect_own_configs (device ∷ []) retained) published declared

  unfoldable pub reconcile_orphans_once :
      String → List String → List String → List (ConfigTopic × Raw) → ℕ
  unfolding reconciled retract
  reconcile_orphans_once device published declared retained =
      retract (reconciled device published declared retained)

  -- The topics that refreshDiscoveryOnce clears; `enabled` is HASS_DISCOVERY_REFRESH.
  unfoldable pub refresh_discovery_once :
      Bool → List String → List (ConfigTopic × Raw) → List String
  unfolding collect_own_configs
  refresh_discovery_once enabled names retained =
      if enabled then collect_own_configs names retained ++ map bundle_topic names else []

-- The gate of reconcileOrphans over the set of devices that are being reconciled: whether the
-- goroutine starts; and what the goroutine does at its end.
unfoldable pub begin_reconcile : String → List (String × Bool) → Bool × List (String × Bool)
begin_reconcile device reconciling =
    if is_some (lookup device reconciling)
    then (false, reconciling)
    else (true, insert device true reconciling)

unfoldable pub end_reconcile : String → List (String × Bool) → List (String × Bool)
end_reconcile device reconciling = delete device reconciling

-- priorDocuments; a runtime is its number.
pub record PriorDocuments : Type 0 where
  pub runtime : Option ℕ
  pub docs : List (String × List (String × DocumentPart))

unfoldable pub is_runtime : ℕ → PriorDocuments → Bool
is_runtime rt p = elim p.runtime [ none ↦ false | some own ↦ nat_beq own rt ]

-- forConnection: the state behind it; `read` is what a window would deliver now.
unfoldable pub for_connection :
    ℕ → List (String × List (String × DocumentPart)) → PriorDocuments → PriorDocuments
unfolding is_runtime
for_connection rt read p = if is_runtime rt p then p else record { runtime = some rt; docs = read }

-- The answer of forConnection: a missing document is nil.
unfoldable pub prior_components : String → PriorDocuments → Option (List (String × DocumentPart))
prior_components node p = lookup node p.docs

-- priorDocuments.record
unfoldable pub record_live :
    ℕ → String → List (String × DocumentPart) → PriorDocuments → PriorDocuments
unfolding is_runtime
record_live rt node live p =
    if not (is_runtime rt p)
    then p
    else if is_nil live
    then record p { docs = delete node p.docs }
    else record p { docs = insert node live p.docs }

-- The calls on one priorDocuments, in the order of its lock
pub data PriorOp : Type 0 where
  ask : ℕ → List (String × List (String × DocumentPart)) → PriorOp
  note : ℕ → String → List (String × DocumentPart) → PriorOp

unfoldable pub prior_step : PriorOp → PriorDocuments → PriorDocuments
unfolding for_connection record_live
prior_step (ask rt read) p = for_connection rt read p
prior_step (note rt node live) p = record_live rt node live p

unfoldable pub prior_run : List PriorOp → PriorDocuments → PriorDocuments
unfolding prior_step
prior_run [] p = p
prior_run (op ∷ ops) p = prior_run ops (prior_step op p)
