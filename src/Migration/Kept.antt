-- ===== src/Migration/Kept.antt =====
-- What the sweep of internal/bridge/migrate.go leaves on the broker.
use Prim.Native.String.{◌++◌ as ◌^^◌}
use text.Mathlib.TextLemmas.{nil-append, cons-append, append_assoc}
use go_homeconnect2mqtt.Base.{
  absurd_bool, String, ◌≡◌, ◌≢◌, refl, sym, ap, ◌∙◌, Bool, true, false, ◌||◌, inl, inr, Bool-cases,
  from_option, List, [], ◌∷◌, ◌++◌,
}
use go_homeconnect2mqtt.Base.Int.{ℤ}
use go_homeconnect2mqtt.Base.Keys.{◌==◌, ==_iff, text_key}
use go_homeconnect2mqtt.Layout.{SmartHome, cut_prefix}
use go_homeconnect2mqtt.Layout.Topics.{cut_prefix-append}
use go_homeconnect2mqtt.Migration.{
  trim_root, first_segment, legacy_bridge, legacy_base, legacy_availability,
  legacy_connection_state, has_topic, SweepDevice, SweepPlan, legacy_feature_path, legacy_state,
  legacy_states, old_topics, add_device, add_devices, legacy_sweep_plan,
}

-- What follows a slash belongs to no first segment.
pub first_segment-append : (s t : String) → first_segment (s ^^ ("/" ^^ t)) ≡ first_segment s
unfolding first_segment
first_segment-append String.[] t = rw (nil-append ("/" ^^ t), cons-append "/" "" t) refl
first_segment-append (String.◌∷◌ c s) t =
    rw (cons-append c s ("/" ^^ t), first_segment-append s t) refl

-- A common front of two texts can be left out.
pub same_rest : (p s t : String) → p ^^ s ≡ p ^^ t → s ≡ t
same_rest p s t h =
    ap (from_option s) (sym (cut_prefix-append p s) ∙ ap (cut_prefix p) h ∙ cut_prefix-append p t)

pub has_topic-append :
    (t : String) (xs ys : List String) → has_topic t (xs ++ ys) ≡ (has_topic t xs || has_topic t ys)
unfolding has_topic
has_topic-append t [] ys = refl
has_topic-append t (x ∷ xs) ys = rw (has_topic-append t xs ys) (or_assoc (x == t) _ _)
  where
    or_assoc : (a b c : Bool) → (a || (b || c)) ≡ ((a || b) || c)
    or_assoc true b c = refl
    or_assoc false b c = refl

pub not_same : (s t : String) → s ≢ t → (s == t) ≡ false
not_same s t h = elim (Bool-cases (s == t)) [ inl e ↦ absurd (h ((==_iff s t).0 e)) | inr e ↦ e ]

module _ (sh : SmartHome) (is_function : String → Bool) (root : String) where
  open sh use {name, safe}

  -- A topic below the root whose second level is a function, and which says more than that.
  abbrev pub IsNew : String → String → Type 0
  IsNew topic rest =
      (topic ≡ trim_root root ^^ ("/" ^^ rest))
      × ((is_function (first_segment rest) ≡ true) × (rest ≢ "status"))

  legacy_apart :
      (topic rest device z : String)
      → IsNew topic rest
      → is_function (first_segment device) ≡ false
      → ((legacy_base root device ^^ ("/" ^^ z)) == topic) ≡ false
  unfolding legacy_base
  legacy_apart topic rest device z (t, (f, n)) g = not_same _ _ (λ e.
      let root = trim_root root in
      let whole : root ^^ ("/" ^^ (device ^^ ("/" ^^ z))) ≡ root ^^ ("/" ^^ rest) =
        ap (λ s. root ^^ s) (sym (append_assoc "/" device ("/" ^^ z)))
        ∙ sym (append_assoc root ("/" ^^ device) ("/" ^^ z))
        ∙ e
        ∙ t in
      let tail =
        same_rest "/" (device ^^ ("/" ^^ z)) rest
          (same_rest root ("/" ^^ (device ^^ ("/" ^^ z))) ("/" ^^ rest) whole) in
      let first = sym (first_segment-append device z) ∙ ap first_segment tail in
      absurd_bool (sym f ∙ sym (ap is_function first) ∙ g))

  has_topic-legacy_states :
      (topic rest device : String) (fs : List (String × ℤ))
      → IsNew topic rest
      → is_function (first_segment device) ≡ false
      → has_topic topic (legacy_states sh is_function (legacy_base root device) fs) ≡ false
  unfolding has_topic legacy_states legacy_state
  has_topic-legacy_states topic rest device [] new g = refl
  has_topic-legacy_states topic rest device ((feature, uid) ∷ fs) new g =
      rw
        (legacy_apart topic rest device (legacy_feature_path sh is_function feature uid ^^ "/state")
          new g)
        (has_topic-legacy_states topic rest device fs new g)

  old_topics-IsNew :
      (topic rest : String) (d : SweepDevice)
      → IsNew topic rest
      → has_topic topic (old_topics sh is_function root d) ≡ false
  unfolding old_topics has_topic legacy_availability legacy_connection_state
  old_topics-IsNew topic rest d new =
      elim (Bool-cases (is_function (first_segment d.device_name))) [
        | inl f ↦ rw f refl
        | inr f ↦
            rw
              (
                f,
                legacy_apart topic rest d.device_name "availability" new f,
                legacy_apart topic rest d.device_name "connection_state" new f,
              )
              (has_topic-legacy_states topic rest d.device_name d.features new f)
      ]

  legacy_bridge-IsNew :
      (topic rest : String) → IsNew topic rest → (legacy_bridge root == topic) ≡ false
  unfolding legacy_bridge
  legacy_bridge-IsNew topic rest (t, (f, n)) = not_same _ _ (λ e. n (
      sym
        (same_rest "/" "status" rest (same_rest (trim_root root) "/status" ("/" ^^ rest) (e ∙ t)))))

  add_devices-legacy :
      (topic rest : String) (ds : List SweepDevice) (plan : SweepPlan)
      → IsNew topic rest
      → has_topic topic plan.legacy ≡ false
      → has_topic topic (add_devices sh is_function root ds plan).legacy ≡ false
  unfolding add_devices add_device
  add_devices-legacy topic rest [] plan new h = h
  add_devices-legacy topic rest (d ∷ ds) plan new h =
      add_devices-legacy topic rest ds (add_device sh is_function root d plan) new (
        has_topic-append topic plan.legacy (old_topics sh is_function root d)
        ∙ rw (h, old_topics-IsNew topic rest d new) refl)

  -- No topic of the new grammar is one of the old layout's.
  pub has_topic-legacy_sweep_plan :
      (topic rest : String) (ds : List SweepDevice)
      → IsNew topic rest
      → has_topic topic (legacy_sweep_plan sh is_function root ds).legacy ≡ false
  unfolding legacy_sweep_plan
  has_topic-legacy_sweep_plan topic rest ds new =
      add_devices-legacy topic rest ds
        (record {
          filters = legacy_bridge root ∷ [];
          legacy = legacy_bridge root ∷ [];
          current = [];
        })
        new (unfold has_topic in rw (legacy_bridge-IsNew topic rest new) refl)
