-- ===== src/Ownership/Nested.antt =====
-- IsOwnConfig of internal/hass/discovery.go on configs of an instance rooted below this one.
use Prim.Native.Char.{code}
use Prim.Native.String.{◌++◌ as ◌^^◌}
use text.Mathlib.TextLemmas.{nil-append, cons-append, append_assoc}
use go_homeconnect2mqtt.Base.{
  or_true, absurd_none, absurd_bool, String, ◌≡◌, ◌≢◌, ◌⊎◌, inl, inr, refl, sym, ap, ◌∙◌, Bool,
  true, false, not, ◌&&◌, Bool-cases, Option-cases, none, some, is_some, from_option, List, [], ◌∷◌,
  All, nat_beq, arith, if◌then◌else◌,
}
use go_homeconnect2mqtt.Base.Keys.{◌==◌, ==_iff, text_key}
use go_homeconnect2mqtt.Layout.{cut_prefix, slash}
use go_homeconnect2mqtt.Migration.{first_segment, trim_root, legacy_bridge}
use go_homeconnect2mqtt.Migration.Kept.{not_same, same_rest, first_segment-append}
use go_homeconnect2mqtt.Migration.Items.{cut_prefix_rest}
use go_homeconnect2mqtt.Layout.Topics.{cut_prefix-append}
use go_homeconnect2mqtt.Ownership.{
  contains_slash, cut_suffix, single_level, RetainedConfig, topics, Instance, is_online_anchor,
  is_availability_anchor, is_identity_anchor, all_under_root, is_own,
}

empty_front : (suffix s front : String) → s ≡ suffix → some "" ≡ some front → s ≡ front ^^ suffix
empty_front suffix s front e h =
    e ∙ sym (nil-append suffix) ∙ ap (λ o. from_option "" o ^^ suffix) h

cut_suffix_front :
    (suffix s front : String) → cut_suffix suffix s ≡ some front → s ≡ front ^^ suffix
unfolding cut_suffix
cut_suffix_front suffix String.[] front h = elim (Bool-cases ("" == suffix)) [
  | inl e ↦ empty_front suffix "" front ((==_iff "" suffix).0 e) (rw e at h)
  | inr e ↦ absurd_none (rw e at h)
]
cut_suffix_front suffix (String.◌∷◌ c s) front h = elim (Bool-cases (String.◌∷◌ c s == suffix)) [
  | inl e ↦
      empty_front suffix (String.◌∷◌ c s) front ((==_iff (String.◌∷◌ c s) suffix).0 e) (rw e at h)
  | inr e ↦ elim (Option-cases (cut_suffix suffix s)) [
    | inl n ↦ absurd_none (rw (e, n) at h)
    | inr (f, n) ↦
        ap (String.◌∷◌ c) (cut_suffix_front suffix s f n)
        ∙ sym (cons-append c f suffix)
        ∙ ap (λ o. from_option f o ^^ suffix) (rw (e, n) at h)
  ]
]

first_segment_plain : (s : String) → contains_slash s ≡ false → first_segment s ≡ s
unfolding contains_slash first_segment
first_segment_plain String.[] h = refl
first_segment_plain (String.◌∷◌ c s) h = elim (Bool-cases (nat_beq (code c) slash)) [
  | inl e ↦ absurd_bool (rw e at h)
  | inr e ↦ rw e (ap (String.◌∷◌ c) (first_segment_plain s (rw e at h)))
]

contains_slash-append : (s t : String) → contains_slash (s ^^ ("/" ^^ t)) ≡ true
unfolding contains_slash
contains_slash-append String.[] t = rw (nil-append ("/" ^^ t), cons-append "/" "" t) refl
contains_slash-append (String.◌∷◌ c s) t =
    rw (cons-append c s ("/" ^^ t), contains_slash-append s t) (or_true (nat_beq (code c) slash))

-- One level, and `online` below it
abbrev pub names_online : String → Bool
names_online inner = elim (cut_suffix "/online" inner) [
  | none ↦ false
  | some ha_id ↦ single_level ha_id
]

module _ (inst : Instance) where
  open inst use {root_topic, connected}

  -- A topic of an instance that is rooted at a level below this one's root: no topic at all, or two
  -- further levels at least, the first of them that level. An instance renders no `availability` of
  -- its own, only those of its devices, and each `online` item three levels below its root (its item
  -- could be an appliance's of this instance only where the level is `status`).
  abbrev pub IsNested : String → Type 0
  IsNested topic =
      (topic ≡ "")
      ⊎ ((level : String) × ((inner : String) × ((topic
                ≡ root_topic ^^ ("/" ^^ (level ^^ ("/" ^^ inner))))
              × ((contains_slash level ≡ false)
                  × (((level ≢ "status") ⊎ (names_online inner ≡ false))
                      × (inner ≢ "availability"))))))

  module _ (level inner : String) (plain : contains_slash level ≡ false)
      (apart : (level ≢ "status") ⊎ (names_online inner ≡ false))
      (other : inner ≢ "availability") where
    first : first_segment (level ^^ ("/" ^^ inner)) ≡ level
    first = first_segment-append level inner ∙ first_segment_plain level plain

    is_online_anchor_nested : is_online_anchor inst (level ^^ ("/" ^^ inner)) ≡ false
    unfolding is_online_anchor
    is_online_anchor_nested =
        let rel = level ^^ ("/" ^^ inner) in
        elim (Option-cases (cut_prefix "status/" rel)) [
          | inl e ↦ rw (e, is_online_anchor) refl
          | inr (item, e) ↦
              let whole = cut_prefix_rest "status/" rel item e ∙ append_assoc "status" "/" item in
              let same : level ≡ "status" =
                sym first
                ∙ ap first_segment whole
                ∙ first_segment-append "status" item
                ∙ status_first in
              let rest : inner ≡ item = same_rest "/" inner item (
                same_rest level ("/" ^^ inner) ("/" ^^ item)
                  (whole ∙ ap (λ d. d ^^ ("/" ^^ item)) (sym same))) in
              rw (is_online_anchor, e) (no_item item same rest apart)
        ]
      where
        no_item :
            (item : String)
            → level ≡ "status"
            → inner ≡ item
            → (level ≢ "status") ⊎ (names_online inner ≡ false)
            → names_online item ≡ false
        no_item item same rest (inl ne) = absurd (ne same)
        no_item item same rest (inr h) = ap names_online (sym rest) ∙ h

        status_first : first_segment "status" ≡ "status"
        status_first = first_segment_plain "status" (unfold contains_slash in refl)

    is_availability_anchor_nested : is_availability_anchor inst (level ^^ ("/" ^^ inner)) ≡ false
    unfolding is_availability_anchor single_level
    is_availability_anchor_nested =
        let rel = level ^^ ("/" ^^ inner) in
        elim (Option-cases (cut_suffix "/availability" rel)) [
          | inl e ↦ rw (e, is_availability_anchor) refl
          | inr (device, e) ↦ elim (Bool-cases (contains_slash device)) [
            | inl s ↦ rw (e, s, is_availability_anchor) (deep device)
            | inr s ↦
                let whole = cut_suffix_front "/availability" rel device e in
                let same : level ≡ device =
                  sym first
                  ∙ ap first_segment whole
                  ∙ first_segment-append device "availability"
                  ∙ first_segment_plain device s in
                absurd (
                  other (
                    same_rest "/" inner "availability" (
                      same_rest level ("/" ^^ inner) "/availability"
                        (whole ∙ ap (λ d. d ^^ "/availability") (sym same)))))
          ]
        ]
      where
        deep : (device : String) → (not (device == "") && false) ≡ false
        deep device = ground arith

    is_identity_anchor_nested :
        trim_root root_topic ≡ root_topic
        → connected ≡ root_topic ^^ "/connected"
        → is_identity_anchor inst (root_topic ^^ ("/" ^^ (level ^^ ("/" ^^ inner)))) ≡ false
    unfolding is_identity_anchor legacy_bridge
    is_identity_anchor_nested trimmed c =
        let rel = level ^^ ("/" ^^ inner) in
        let topic = root_topic ^^ ("/" ^^ rel) in
        rw
          (
            not_same topic (legacy_bridge root_topic) (λ e.
                one_level rel "status" (unfold contains_slash in refl)
                  (contains_slash-append level inner)
                  (e ∙ (unfold legacy_bridge in ap (λ r. r ^^ "/status") trimmed))),
            not_same topic connected (λ e.
                one_level rel "connected" (unfold contains_slash in refl)
                  (contains_slash-append level inner) (e ∙ c)),
            below_root rel,
            is_online_anchor_nested,
            is_availability_anchor_nested,
          )
          refl
      where
        one_level :
            {A : Type 0} (rel name : String)
            → contains_slash name ≡ false
            → contains_slash rel ≡ true
            → root_topic ^^ ("/" ^^ rel) ≡ root_topic ^^ ("/" ^^ name)
            → A
        one_level rel name one deep e = absurd_bool (
            sym deep
            ∙ ap contains_slash
                (same_rest "/" rel name (same_rest root_topic ("/" ^^ rel) ("/" ^^ name) e))
            ∙ one)

        below_root :
            (rel : String) → cut_prefix (root_topic ^^ "/") (root_topic ^^ ("/" ^^ rel)) ≡ some rel
        below_root rel =
            ap (cut_prefix (root_topic ^^ "/")) (sym (append_assoc root_topic "/" rel))
            ∙ cut_prefix-append (root_topic ^^ "/") rel

  all_under_root-IsNested :
      (ts : List String)
      → trim_root root_topic ≡ root_topic
      → connected ≡ root_topic ^^ "/connected"
      → All IsNested ts
      → all_under_root inst false ts ≡ false
  unfolding all_under_root
  all_under_root-IsNested [] trimmed c all = refl
  all_under_root-IsNested (t ∷ ts) trimmed c (inl e, all) =
      rw (e, all_under_root-IsNested ts trimmed c all) refl
  all_under_root-IsNested (t ∷ ts) trimmed c
        (inr (level, (inner, (e, (plain, (apart, other))))), all) =
      rw
        (
          e,
          is_identity_anchor_nested level inner plain apart other trimmed c,
          all_under_root-IsNested ts trimmed c all,
        )
        (either _ (
          is_some
            (cut_prefix (root_topic ^^ "/") (root_topic ^^ ("/" ^^ (level ^^ ("/" ^^ inner)))))))
    where
      either :
          (a b : Bool)
          → (if a then false else if not b then false else if false then true else false) ≡ false
      either a b = ground arith

  -- A config whose topics all belong to instances rooted one level or more below this one's root (also
  -- at its `status` level) is never taken for this one's, whatever identity it carries and however many
  -- topics it names: so the sweep and the tombstones leave a nested instance alone. Such a topic has two
  -- levels below this root at least; it is not `availability` right below the instance's root, nor, at
  -- the `status` level, `online` two levels below it, neither of which an instance renders.
  pub is_own-IsNested :
      (cfg : RetainedConfig)
      → trim_root root_topic ≡ root_topic
      → connected ≡ root_topic ^^ "/connected"
      → All IsNested (topics cfg)
      → is_own inst cfg ≡ false
  unfolding is_own
  is_own-IsNested cfg trimmed c all =
      rw (all_under_root-IsNested (topics cfg) trimmed c all)
        (either (is_some (cut_prefix "homeconnect_" cfg.unique_id)))
    where
      either : (b : Bool) → (if not b then false else false) ≡ false
      either b = ground arith
