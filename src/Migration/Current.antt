-- ===== src/Migration/Current.antt =====
-- The status topics of configured appliances under the sweep of internal/bridge/migrate.go.
use Prim.Native.String.{◌++◌ as ◌^^◌}
use text.Mathlib.TextLemmas.{append_assoc}
use go_homeconnect2mqtt.Base.{
  absurd_bool, String, ◌≡◌, refl, sym, ap, ◌∙◌, Bool, true, false, inl, inr, Bool-cases, is_some,
  List, [], ◌∷◌, All,
}
use go_homeconnect2mqtt.Base.Keys.{◌==◌, text_key, insert}
use go_homeconnect2mqtt.Layout.{SmartHome, cut_prefix}
use go_homeconnect2mqtt.Migration.{
  trim_root, first_segment, legacy_bridge, has_topic, SweepDevice, SweepPlan, under_current, clears,
  status_prefix, current_items, add_device, add_devices, legacy_sweep_plan,
}
use go_homeconnect2mqtt.Migration.Kept.{
  same_rest, first_segment-append, IsNew, has_topic-legacy_sweep_plan,
}
use go_homeconnect2mqtt.Migration.Items.{IsItem, current_items-IsItem, prefix_fits, slash_full}

-- If an entry of the current items fits a topic, it lists the topic.
abbrev Lists : String → String × List String → Type 0
Lists topic entry = is_some (cut_prefix entry.0 topic) ≡ true → has_topic topic entry.1 ≡ true

under_current-Lists :
    (topic : String) (current : List (String × List String))
    → All (Lists topic) current
    → under_current topic current ≡ false
unfolding under_current
under_current-Lists topic [] all = refl
under_current-Lists topic ((prefix, items) ∷ rest) (h, all) =
    elim (Bool-cases (is_some (cut_prefix prefix topic))) [
      | inl e ↦ rw (e, h e) refl
      | inr e ↦ rw e (under_current-Lists topic rest all)
    ]

insert-Lists :
    (topic prefix : String) (items : List String) (current : List (String × List String))
    → Lists topic (prefix, items)
    → All (Lists topic) current
    → All (Lists topic) (insert prefix items current)
unfolding insert
insert-Lists topic prefix items [] h all = (h, tt)
insert-Lists topic prefix items ((j, w) ∷ es) h all = elim (Bool-cases (j == prefix)) [
  | inl e ↦ rw e (h, all.1)
  | inr e ↦ rw e (all.0, insert-Lists topic prefix items es h all.1)
]

module _ (sh : SmartHome) (is_function : String → Bool) (root : String) where
  open sh use {name, safe, status, join, status_lem}

  -- A device whose status prefix fits the topic has the topic among its items.
  abbrev Keeps : String → SweepDevice → Type 0
  Keeps topic d = Lists topic (status_prefix sh is_function d.ha_id, current_items sh is_function d)

  add_devices-Lists :
      (topic : String) (ds : List SweepDevice) (plan : SweepPlan)
      → All (Keeps topic) ds
      → All (Lists topic) plan.current
      → All (Lists topic) (add_devices sh is_function root ds plan).current
  unfolding add_devices add_device
  add_devices-Lists topic [] plan all h = h
  add_devices-Lists topic (d ∷ ds) plan all h =
      add_devices-Lists topic ds (add_device sh is_function root d plan) all.1 (
        insert-Lists topic (status_prefix sh is_function d.ha_id) (current_items sh is_function d)
          plan.current all.0 h)

  -- A topic of the new grammar that no status prefix of a configured appliance fits, or that is an
  -- item of each appliance whose prefix fits, stays.
  clears-Keeps :
      (topic rest : String) (ds : List SweepDevice)
      → IsNew sh is_function root topic rest
      → All (Keeps topic) ds
      → clears (legacy_sweep_plan sh is_function root ds) topic ≡ false
  unfolding clears
  clears-Keeps topic rest ds new all =
      rw (has_topic-legacy_sweep_plan sh is_function root topic rest ds new) (
        under_current-Lists topic (legacy_sweep_plan sh is_function root ds).current (
          unfold legacy_sweep_plan in
          add_devices-Lists topic ds
            (record {
              filters = legacy_bridge root ∷ [];
              legacy = legacy_bridge root ∷ [];
              current = [];
            })
            all tt))

  item-IsNew :
      (ha_id topic x : String)
      → trim_root root ≡ name
      → is_function "status" ≡ true
      → topic ≡ name ^^ ("/status/" ^^ (safe ha_id ^^ ("/" ^^ x)))
      → IsNew sh is_function root topic ("status" ^^ ("/" ^^ (safe ha_id ^^ ("/" ^^ x))))
  unfolding first_segment
  item-IsNew ha_id topic x same known t =
      let rest = safe ha_id ^^ ("/" ^^ x) in
      (
        t
            ∙ ap (λ s. s ^^ ("/status/" ^^ rest)) (sym same)
            ∙ ap (λ s. trim_root root ^^ s)
                (append_assoc "/status" "/" rest ∙ append_assoc "/" "status" ("/" ^^ rest)),
        (
          ap is_function (first_segment-append "status" rest) ∙ known,
          λ e. slash_full rest (same_rest "status" ("/" ^^ rest) "" e),
        ),
      )

  -- While no haId is configured twice, a retained topic that an appliance has now is not cleared: its
  -- online and connection state and the state of each of its features, whatever the device names
  -- (with slashes in them, or spelled like a function) and the features of the others.
  pub clears-current_items :
      (ds : List SweepDevice) (d : SweepDevice) (topic : String)
      → trim_root root ≡ name
      → is_function "status" ≡ true
      → ((s : String) → first_segment (safe s) ≡ safe s)
      → All (λ e. safe e.ha_id ≡ safe d.ha_id → e ≡ d) ds
      → has_topic topic (current_items sh is_function d) ≡ true
      → clears (legacy_sweep_plan sh is_function root ds) topic ≡ false
  unfolding IsItem
  clears-current_items ds d topic same known plain unique h =
      let (x, t) = current_items-IsItem sh is_function root topic d h in
      clears-Keeps topic ("status" ^^ ("/" ^^ (safe d.ha_id ^^ ("/" ^^ x)))) ds
        (item-IsNew d.ha_id topic x same known t) (keeps_all ds unique)
    where
      keeps_all :
          (es : List SweepDevice)
          → All (λ e. safe e.ha_id ≡ safe d.ha_id → e ≡ d) es
          → All (Keeps topic) es
      keeps_all [] u = tt
      keeps_all (e ∷ es) (u, us) = (
        (λ fits.
            ap (λ k. has_topic topic (current_items sh is_function k))
              (u (
                prefix_fits sh is_function root d.ha_id e.ha_id topic plain
                  (current_items-IsItem sh is_function root topic d h) fits))
            ∙ h),
        keeps_all es us,
      )

  -- Nothing else in the new grammar is cleared: a topic below the instance whose second level is a
  -- function, and that stands under no configured appliance's status prefix, stays. So do every
  -- command, the status of an appliance that is not configured, and the topics of the instance itself.
  pub clears_foreign :
      (ds : List SweepDevice) (topic rest : String)
      → IsNew sh is_function root topic rest
      → All (λ d. is_some (cut_prefix (status_prefix sh is_function d.ha_id) topic) ≡ false) ds
      → clears (legacy_sweep_plan sh is_function root ds) topic ≡ false
  clears_foreign ds topic rest new apart = clears-Keeps topic rest ds new (all_apart ds apart)
    where
      all_apart :
          (es : List SweepDevice)
          → All (λ d. is_some (cut_prefix (status_prefix sh is_function d.ha_id) topic) ≡ false) es
          → All (Keeps topic) es
      all_apart [] u = tt
      all_apart (e ∷ es) (u, us) = ((λ fits. absurd_bool (sym fits ∙ u)), all_apart es us)
