-- ===== src/Ownership/Tombstones.antt =====
-- ApplyTombstones of internal/hass/tombstone.go, over what BundleComponents read back.
use go_homeconnect2mqtt.Base.{
  and_false, absurd_none, String, ◌≡◌, inl, inr, refl, sym, ap, ◌∙◌, Bool, true, false, not, ◌&&◌,
  ◌||◌, Bool-cases, Option-cases, Option, none, some, is_some, List, [], ◌∷◌, All, arith,
  if◌then◌else◌,
}
use go_homeconnect2mqtt.Base.Keys.{◌==◌, ==_iff, text_key, lookup}
use go_homeconnect2mqtt.Command.Programs.{text_ltb}
use go_homeconnect2mqtt.Entity.{is_nil}
use go_homeconnect2mqtt.Migration.{has_topic}
use go_homeconnect2mqtt.Discovery.Describe.{insert_text, sort_strings}
use go_homeconnect2mqtt.Ownership.{
  DocumentPart, Bundles, Instance, Decoders, is_own_config, own_part, own_parts, bundle_components,
  gone_keys, apply_tombstones,
}

has_topic-insert_text :
    (key x : String) (xs : List String) → has_topic key (insert_text x xs) ≡ has_topic key (x ∷ xs)
unfolding has_topic insert_text
has_topic-insert_text key x [] = refl
has_topic-insert_text key x (y ∷ ys) = elim (Bool-cases (text_ltb x y)) [
  | inl e ↦ rw e refl
  | inr e ↦ rw (e, has_topic-insert_text key x ys) (swap (x == key) (y == key) (has_topic key ys))
]
  where
    swap : (a b c : Bool) → (b || (a || c)) ≡ (a || (b || c))
    swap a b c = ground arith

has_topic-sort_strings :
    (key : String) (xs : List String) → has_topic key (sort_strings xs) ≡ has_topic key xs
unfolding sort_strings has_topic
has_topic-sort_strings key [] = refl
has_topic-sort_strings key (x ∷ xs) =
    has_topic-insert_text key x (sort_strings xs)
    ∙ ap (λ b. x == key || b) (has_topic-sort_strings key xs)

nil_marks : (key : String) (keys : List String) → is_nil keys ≡ true → has_topic key keys ≡ false
unfolding has_topic
nil_marks key [] h = refl
nil_marks key (k ∷ ks) h = cc

-- The keys that ApplyTombstones marks: those of the earlier document that the new one has not.
has_topic-gone_keys :
    (key : String) (parts prior : List (String × DocumentPart))
    → has_topic key (gone_keys parts prior)
      ≡ (is_some (lookup key prior) && not (is_some (lookup key parts)))
unfolding has_topic gone_keys lookup
has_topic-gone_keys key parts [] = refl
has_topic-gone_keys key parts ((j, part) ∷ prior) = elim (Bool-cases (j == key)) [
  | inl e ↦
      let same = (==_iff j key).0 e in
      elim (Bool-cases (is_some (lookup j parts))) [
        | inl l ↦
            rw
              (
                l,
                has_topic-gone_keys key parts prior,
                e,
                sym (ap (λ k. is_some (lookup k parts)) same) ∙ l,
              )
              (and_false (is_some (lookup key prior)))
        | inr l ↦ rw (l, e, sym (ap (λ k. is_some (lookup k parts)) same) ∙ l) refl
      ]
  | inr e ↦ elim (Bool-cases (is_some (lookup j parts))) [
    | inl l ↦ rw (l, e, has_topic-gone_keys key parts prior) refl
    | inr l ↦ rw (l, e, has_topic-gone_keys key parts prior) refl
  ]
]

-- What a document is to say of a key: what it declares, else the removal of what the earlier one had.
abbrev pub left_of : Option DocumentPart → Option DocumentPart → Option DocumentPart
left_of (some part) prior = some part
left_of none none = none
left_of none (some part) = some (record { platform = part.platform; unique_id = "" })

module _ (bundles : Bundles) where
  open bundles use {Bundle, parts, remove_components, kept_by_remove, left_by_remove}

  unmarked :
      (now before : Option DocumentPart)
      → (is_some before && not (is_some now)) ≡ false
      → now ≡ left_of now before
  unmarked (some part) before h = refl
  unmarked none none h = refl
  unmarked none (some part) h = cc

  removed :
      (prior : List (String × DocumentPart)) (b : Bundle) (keys : List String) (key : String)
      → has_topic key keys ≡ (is_some (lookup key prior) && not (is_some (lookup key (parts b))))
      → lookup key (parts (remove_components prior keys b))
        ≡ left_of (lookup key (parts b)) (lookup key prior)
  removed prior b keys key h = elim (Option-cases (lookup key (parts b))) [
    | inl l ↦ elim (Option-cases (lookup key prior)) [
      | inl p ↦ kept_by_remove prior keys key b (rw p at h) ∙ rw (l, p) refl
      | inr (part, p) ↦ left_by_remove prior keys key part b (rw (p, l) at h) p ∙ rw (l, p) refl
    ]
    | inr (part, l) ↦
        kept_by_remove prior keys key b (h ∙ rw l (and_false (is_some (lookup key prior))))
        ∙ rw l refl
  ]

  -- For every key, what the document says after ApplyTombstones: a component that it declares stays
  -- as it is, one that only the earlier document had is marked as removed, and no other key appears.
  pub parts-apply_tombstones :
      (prior : List (String × DocumentPart)) (b : Bundle) (key : String)
      → lookup key (parts (apply_tombstones bundles prior b).0)
        ≡ left_of (lookup key (parts b)) (lookup key prior)
  unfolding apply_tombstones
  parts-apply_tombstones prior b key =
      let gone = sort_strings (gone_keys (parts b) prior) in
      let marked =
        has_topic-sort_strings key (gone_keys (parts b) prior)
        ∙ has_topic-gone_keys key (parts b) prior in
      elim (Bool-cases (is_nil gone)) [
        | inl e ↦
            rw e (
              unmarked (lookup key (parts b)) (lookup key prior)
                (sym marked ∙ nil_marks key gone e))
        | inr e ↦ rw e (removed prior b gone key marked)
      ]

module _ (inst : Instance) (decoders : Decoders) where
  open decoders use {Raw, read_config, read_part, read_components}

  own_part_foreign :
      (raw : Raw) → is_own_config inst read_config raw ≡ false → own_part inst decoders raw ≡ none
  unfolding own_part
  own_part_foreign raw h = elim (Option-cases (read_part raw)) [
    | inl e ↦ rw (e, own_part) refl
    | inr (part, e) ↦ rw (e, own_part, h) (either (part.platform == "") part)
  ]
    where
      either :
          (b : Bool) (part : DocumentPart)
          → (if b then none else if false then some part else none) ≡ none
      either true part = refl
      either false part = refl

  -- Every component of the document under the key is another instance's.
  abbrev pub IsForeign : String → List (String × Raw) → Type 0
  IsForeign key doc =
      All (λ entry. (entry.0 == key) ≡ true → is_own_config inst read_config entry.1 ≡ false) doc

  own_parts_skips :
      (key : String) (raw : Raw) (doc : List (String × Raw))
      → own_part inst decoders raw ≡ none
      → own_parts inst decoders ((key, raw) ∷ doc) ≡ own_parts inst decoders doc
  unfolding own_parts
  own_parts_skips key raw doc h = rw (h, own_parts) refl

  own_parts_keeps :
      (key : String) (raw : Raw) (doc : List (String × Raw)) (part : DocumentPart)
      → own_part inst decoders raw ≡ some part
      → own_parts inst decoders ((key, raw) ∷ doc) ≡ (key, part) ∷ own_parts inst decoders doc
  unfolding own_parts
  own_parts_keeps key raw doc part h = rw (h, own_parts) refl

  own_parts-IsForeign :
      (key : String) (doc : List (String × Raw))
      → IsForeign key doc
      → lookup key (own_parts inst decoders doc) ≡ none
  unfolding lookup
  own_parts-IsForeign key [] all = unfold own_parts in refl
  own_parts-IsForeign key ((j, raw) ∷ doc) (h, all) =
      elim (Option-cases (own_part inst decoders raw)) [
        | inl e ↦ ap (lookup key) (own_parts_skips j raw doc e) ∙ own_parts-IsForeign key doc all
        | inr (part, e) ↦ elim (Bool-cases (j == key)) [
          | inl s ↦ absurd_none (sym (own_part_foreign raw (h s)) ∙ e)
          | inr s ↦
              ap (lookup key) (own_parts_keeps j raw doc part e)
              ∙ rw s (own_parts-IsForeign key doc all)
        ]
      ]

  bundle_components-IsForeign :
      (payload : Raw) (doc : List (String × Raw)) (key : String)
      → read_components payload ≡ some doc
      → IsForeign key doc
      → lookup key (bundle_components inst decoders payload) ≡ none
  unfolding bundle_components
  bundle_components-IsForeign payload doc key read foreign =
      rw (read, bundle_components) (own_parts-IsForeign key doc foreign)

  -- A component of the retained document that is not provably this instance's has no effect on what is
  -- published next: under its key the new document says what it said without the one read back.
  pub apply_tombstones-IsForeign :
      (bundles : Bundles) (payload : Raw) (doc : List (String × Raw)) (key : String)
      (b : bundles.Bundle)
      → read_components payload ≡ some doc
      → IsForeign key doc
      → lookup key
          (bundles.parts (apply_tombstones bundles (bundle_components inst decoders payload) b).0)
        ≡ lookup key (bundles.parts b)
  apply_tombstones-IsForeign bundles payload doc key b read foreign =
      parts-apply_tombstones bundles (bundle_components inst decoders payload) b key
      ∙ ap (left_of (lookup key (bundles.parts b)))
          (bundle_components-IsForeign payload doc key read foreign)
      ∙ left_alone (lookup key (bundles.parts b))
    where
      left_alone : (o : Option DocumentPart) → left_of o none ≡ o
      left_alone none = refl
      left_alone (some part) = refl
