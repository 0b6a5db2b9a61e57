-- ===== src/Orphans/Claims.antt =====
-- What internal/bridge/reconcile.go retracts, and what internal/bridge/tombstone.go remembers.
use go_homeconnect2mqtt.Base.{
  and_false, ℕ, String, ◌≡◌, inl, inr, refl, sym, ap, ◌∙◌, Bool, false, not, ◌&&◌, ◌||◌, Bool-cases,
  Option, none, some, List, [], ◌∷◌, ◌++◌, All, nat_beq, nat_beq_iff, if◌then◌else◌,
}
use go_homeconnect2mqtt.Base.Keys.{◌==◌, ==_iff, text_key, lookup, lookup-insert, lookup-delete}
use go_homeconnect2mqtt.Entity.{is_nil}
use go_homeconnect2mqtt.Migration.{has_topic}
use go_homeconnect2mqtt.Migration.Kept.{has_topic-append}
use go_homeconnect2mqtt.Ownership.{ConfigTopic, Instance, DocumentPart}
use go_homeconnect2mqtt.Orphans.{
  Sweeper, orphan_topics, is_ours, collect_own_configs, reconciled, PriorDocuments, is_runtime,
  for_connection, record_live, prior_components, PriorOp, ask, note, prior_step, prior_run,
}

has_topic-orphan_topics :
    (topic : String) (owned published declared : List String)
    → has_topic topic (orphan_topics owned published declared)
      ≡ (has_topic topic owned && not (has_topic topic published || has_topic topic declared))
unfolding has_topic orphan_topics
has_topic-orphan_topics topic [] published declared = refl
has_topic-orphan_topics topic (t ∷ owned) published declared = elim (Bool-cases (t == topic)) [
  | inl e ↦
      let claims =
        sym (has_topic-append topic published declared)
        ∙ ap (λ x. has_topic x (published ++ declared)) (sym ((==_iff t topic).0 e)) in
      elim (Bool-cases (has_topic t (published ++ declared))) [
        | inl c ↦
            rw (c, has_topic-orphan_topics topic owned published declared, e, claims ∙ c)
              (and_false (has_topic topic owned))
        | inr c ↦ rw (c, e, claims ∙ c) refl
      ]
  | inr e ↦ elim (Bool-cases (has_topic t (published ++ declared))) [
    | inl c ↦ rw (e, c) (has_topic-orphan_topics topic owned published declared)
    | inr c ↦ rw (e, c) (rw e (has_topic-orphan_topics topic owned published declared))
  ]
]

module _ (inst : Instance) (sweeper : Sweeper) where
  open sweeper use {Raw, config_topic}

  -- Some retained config of the topic passes both tests of ownership.
  abbrev pub ours_at : List String → String → List (ConfigTopic × Raw) → Bool
  ours_at devices topic [] = false
  ours_at devices topic ((t, body) ∷ retained) =
      (is_ours inst sweeper devices t body && config_topic t == topic)
      || ours_at devices topic retained

  has_topic-collect_own_configs :
      (devices : List String) (topic : String) (retained : List (ConfigTopic × Raw))
      → has_topic topic (collect_own_configs inst sweeper devices retained)
        ≡ ours_at devices topic retained
  unfolding has_topic collect_own_configs
  has_topic-collect_own_configs devices topic [] = refl
  has_topic-collect_own_configs devices topic ((t, body) ∷ retained) =
      elim (Bool-cases (is_ours inst sweeper devices t body)) [
        | inl e ↦ rw (e, has_topic-collect_own_configs devices topic retained) refl
        | inr e ↦ rw (e, has_topic-collect_own_configs devices topic retained) refl
      ]

  -- The sweep behind a device's publish retracts exactly the topics at which a retained config is
  -- this instance's by its topic and by its payload, and which neither the batch that was just
  -- published nor anything else that this process has declared claims.
  pub has_topic-reconciled :
      (device topic : String) (published declared : List String)
      (retained : List (ConfigTopic × Raw))
      → has_topic topic (reconciled inst sweeper device published declared retained) ≡ (
          ours_at (device ∷ []) topic retained
          && not (has_topic topic published || has_topic topic declared))
  unfolding reconciled
  has_topic-reconciled device topic published declared retained =
      has_topic-orphan_topics topic (collect_own_configs inst sweeper (device ∷ []) retained)
        published declared
      ∙ ap (λ b. b && not (has_topic topic published || has_topic topic declared))
          (has_topic-collect_own_configs (device ∷ []) topic retained)

-- What the calls on one connection leave of a document: the last that was published on it, where one
-- was, else what was there before. A document that declares nothing is none.
abbrev pub latest :
    ℕ
    → String
    → List PriorOp
    → Option (List (String × DocumentPart))
    → Option (List (String × DocumentPart))
latest rt node [] before = before
latest rt node (ask r read ∷ ops) before = latest rt node ops before
latest rt node (note r n live ∷ ops) before =
    latest rt node ops
      (if nat_beq rt r && n == node then (if is_nil live then none else some live) else before)

-- No call reads for another connection.
abbrev pub AsksFor : ℕ → PriorOp → Type 0
AsksFor rt (ask r read) = r ≡ rt
AsksFor rt (note r n live) = Unit

is_runtime_of :
    (rt r : ℕ) (p : PriorDocuments) → p.runtime ≡ some rt → is_runtime r p ≡ nat_beq rt r
unfolding is_runtime
is_runtime_of rt r p h = ap (λ o. elim o [ none ↦ false | some own ↦ nat_beq own r ]) h

record_live-runtime :
    (r : ℕ) (n : String) (live : List (String × DocumentPart)) (p : PriorDocuments)
    → (record_live r n live p).runtime ≡ p.runtime
unfolding record_live
record_live-runtime r n live p = elim (Bool-cases (is_runtime r p)) [
  | inl e ↦ elim (Bool-cases (is_nil live)) [ inl l ↦ rw (e, l) refl | inr l ↦ rw (e, l) refl ]
  | inr e ↦ rw e refl
]

record_live-lookup :
    (rt r : ℕ) (node n : String) (live : List (String × DocumentPart)) (p : PriorDocuments)
    → p.runtime ≡ some rt
    → lookup node (record_live r n live p).docs ≡ (
        if nat_beq rt r && n == node
        then (if is_nil live then none else some live)
        else lookup node p.docs)
unfolding record_live
record_live-lookup rt r node n live p h =
    let own = is_runtime_of rt r p h in
    elim (Bool-cases (nat_beq rt r)) [
      | inl e ↦ elim (Bool-cases (is_nil live)) [
        | inl l ↦ rw (own ∙ e, e, l) (lookup-delete n node p.docs)
        | inr l ↦ rw (own ∙ e, e, l) (lookup-insert n node live p.docs)
      ]
      | inr e ↦ rw (own ∙ e, e) refl
    ]

for_connection_same :
    (rt : ℕ) (read : List (String × List (String × DocumentPart))) (p : PriorDocuments)
    → p.runtime ≡ some rt
    → for_connection rt read p ≡ p
unfolding for_connection
for_connection_same rt read p h = rw (is_runtime_of rt rt p h ∙ (nat_beq_iff rt rt).1 refl) refl

for_connection_new :
    (rt : ℕ) (read : List (String × List (String × DocumentPart))) (p : PriorDocuments)
    → is_runtime rt p ≡ false
    → for_connection rt read p ≡ record { runtime = some rt; docs = read }
unfolding for_connection
for_connection_new rt read p h = rw h refl

prior_run-latest :
    (rt : ℕ) (node : String) (ops : List PriorOp) (p : PriorDocuments)
    → p.runtime ≡ some rt
    → All (AsksFor rt) ops
    → prior_components node (prior_run ops p) ≡ latest rt node ops (prior_components node p)
unfolding prior_run prior_step prior_components
prior_run-latest rt node [] p h all = refl
prior_run-latest rt node (ask r read ∷ ops) p h (same, all) =
    ap (λ q. prior_components node (prior_run ops q))
      (ap (λ k. for_connection k read p) same ∙ for_connection_same rt read p h)
    ∙ prior_run-latest rt node ops p h all
prior_run-latest rt node (note r n live ∷ ops) p h (_, all) =
    prior_run-latest rt node ops (record_live r n live p) (record_live-runtime r n live p ∙ h) all
    ∙ ap (latest rt node ops) (record_live-lookup rt r node n live p h)

-- Within a connection, whatever other appliances ask and note and whatever a pass over a dead
-- connection still notes: what is remembered of a document is the last that went out on this
-- connection, or, until one did, what the first reading on it found, never an earlier connection's.
pub prior_components-latest :
    (rt : ℕ) (node : String) (read : List (String × List (String × DocumentPart)))
    (ops : List PriorOp) (p : PriorDocuments)
    → is_runtime rt p ≡ false
    → All (AsksFor rt) ops
    → prior_components node (prior_run (ask rt read ∷ ops) p)
      ≡ latest rt node ops (lookup node read)
unfolding prior_run prior_step prior_components
prior_components-latest rt node read ops p h all =
    ap (λ q. prior_components node (prior_run ops q)) (for_connection_new rt read p h)
    ∙ (prior_run-latest rt node ops (record { runtime = some rt; docs = read }) refl all)
