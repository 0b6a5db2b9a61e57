-- ===== src/Layout/RoundTrip.antt =====
-- FeaturePath and FeatureName of internal/layout/layout.go are inverse to each other.
use Prim.Native.Char.{Char, code, IsScalar}
use mathlib.Core.Path.{subst}
use Prim.Native.String.{◌++◌}
use text.Mathlib.TextLemmas.{nil-append, cons-append, append_assoc}
use go_homeconnect2mqtt.Base.{
  String, ◌≡◌, ◌≢◌, inl, inr, Bool-cases, refl, ap, sym, ◌∙◌, Bool, true, false, ◌||◌, none, some,
  List, [], ◌∷◌, All, nat_beq, nat_beq_iff, arith, if◌then◌else◌,
}
use go_homeconnect2mqtt.Base.Int.{ℤ}
use go_homeconnect2mqtt.Base.Keys.{◌==◌, text_key}
use go_homeconnect2mqtt.Layout.{
  SmartHome, cut_prefix, cons_head, split_dots, slashes_to_dots, dot, slash, Target, by_name,
  by_uid, numbered, feature_item, feature_path, feature_name,
}
use go_homeconnect2mqtt.Layout.Topics.{cut_prefix-append, split_dots_cons}

-- A feature name as a path: `A.B` is `A/B`.
unfoldable pub dots_to_slashes : String → String
dots_to_slashes String.[] = ""
dots_to_slashes (String.◌∷◌ c s) =
    String.◌∷◌ (if nat_beq (code c) dot then "/" else c) (dots_to_slashes s)

unfoldable pub has_slash : String → Bool
has_slash String.[] = false
has_slash (String.◌∷◌ c s) = nat_beq (code c) slash || has_slash s

abbrev plain_join : List String → String
plain_join [] = ""
plain_join (x ∷ []) = x
plain_join (x ∷ y ∷ r) = x ++ ("/" ++ plain_join (y ∷ r))

plain_join-cons_head :
    (c : Char) (x : String) (xs : List String)
    → plain_join (cons_head c (x ∷ xs)) ≡ String.◌∷◌ c (plain_join (x ∷ xs))
plain_join-cons_head c x [] = refl
plain_join-cons_head c x (y ∷ r) = cons-append c x _

plain_join-split_dots : (s : String) → plain_join (split_dots s) ≡ dots_to_slashes s
unfolding split_dots dots_to_slashes
plain_join-split_dots String.[] = refl
plain_join-split_dots (String.◌∷◌ c s) =
    let (x, xs, e) = split_dots_cons s in
    let rest = ap plain_join (sym e) ∙ plain_join-split_dots s in
    elim (Bool-cases (nat_beq (code c) dot)) [
      | inl cut ↦
          rw
            (
              cut,
              e,
              nil-append ("/" ++ plain_join (x ∷ xs)),
              cons-append "/" "" (plain_join (x ∷ xs)),
              nil-append (plain_join (x ∷ xs)),
            )
            (ap (String.◌∷◌ "/") rest)
      | inr kept ↦ rw (kept, e, plain_join-cons_head c x xs) (ap (String.◌∷◌ c) rest)
    ]

is_dot : (c : Char) → code c ≡ dot → c ≡ "."
is_dot (Char.char n p) e = subst (λ k. (q : IsScalar k) → Char.char k q ≡ ".") (sym e) (λ q. refl) p

swap_back :
    (c : Char)
    → nat_beq (code c) slash ≡ false
    → (let d : Char = if nat_beq (code c) dot then "/" else c in
        (if nat_beq (code d) slash then "." else d))
      ≡ c
swap_back c h = elim (Bool-cases (nat_beq (code c) dot)) [
  | inl cut ↦ rw cut (sym (is_dot c ((nat_beq_iff (code c) dot).0 cut)))
  | inr kept ↦ rw (kept, h) refl
]

slashes_to_dots-dots_to_slashes :
    (s : String) → has_slash s ≡ false → slashes_to_dots (dots_to_slashes s) ≡ s
unfolding slashes_to_dots dots_to_slashes has_slash
slashes_to_dots-dots_to_slashes String.[] h = refl
slashes_to_dots-dots_to_slashes (String.◌∷◌ c s) h =
    let rest = slashes_to_dots-dots_to_slashes s (ground arith) in
    rw (swap_back c (ground arith), rest) refl

-- The feature that a path names.
abbrev pub feature_of : String → ℤ → Target
feature_of feature uid = if feature == "" then by_uid uid else by_name feature

module _ (sh : SmartHome) where
  join-plain :
      (xs : List String) → xs ≢ [] → All (λ x. sh.safe x ≡ x) xs → sh.join xs ≡ plain_join xs
  join-plain [] n h = elim (n refl) [ ]
  join-plain (x ∷ []) n h = sh.join_one x ∙ h.0
  join-plain (x ∷ y ∷ r) n h = sh.join_more x y r ∙ rw (h.0, join-plain (y ∷ r) (λ e. cc) h.1) refl

  -- Every segment is one that the layout part leaves as it is.
  abbrev pub IsSafe : String → ℤ → Type 0
  IsSafe feature uid = All (λ x. sh.safe x ≡ x) (feature_item sh feature uid)

  path_named :
      (feature : String) (uid : ℤ)
      → feature == "" ≡ false
      → IsSafe feature uid
      → feature_path sh feature uid ≡ dots_to_slashes feature
  unfolding feature_path feature_item
  path_named feature uid named safe =
      let (x, xs, e) = split_dots_cons feature in
      let safe' : All (λ s. sh.safe s ≡ s) (split_dots feature) = ground arith in
      rw (feature_path, feature_item, named)
        (join-plain (split_dots feature) (λ n. cc) safe' ∙ plain_join-split_dots feature)

  path_unnamed :
      (feature : String) (uid : ℤ)
      → feature == "" ≡ true
      → IsSafe feature uid
      → feature_path sh feature uid ≡ "_uid/" ++ sh.itoa uid
  unfolding feature_path feature_item
  path_unnamed feature uid unnamed safe =
      let safe' : All (λ s. sh.safe s ≡ s) ("_uid" ∷ sh.itoa uid ∷ []) = ground arith in
      rw (feature_path, feature_item, unnamed)
        (join-plain ("_uid" ∷ sh.itoa uid ∷ []) (λ n. cc) safe'
          ∙ sym (append_assoc "_uid" "/" (sh.itoa uid)))

  -- For a name with no slash whose path does not begin as that of an unnamed feature, and for an
  -- unnamed feature whose uid reads back from its decimal form, where no segment is altered by the
  -- topic rules: the name (or uid) read off the path is the one the path was made of.
  pub feature_name-feature_path :
      (feature : String) (uid : ℤ)
      → IsSafe feature uid
      → has_slash feature ≡ false
      → cut_prefix "_uid/" (dots_to_slashes feature) ≡ none
      → sh.atoi (sh.itoa uid) ≡ some uid
      → feature_name sh (feature_path sh feature uid) ≡ feature_of feature uid
  unfolding feature_name numbered feature_path feature_item
  feature_name-feature_path feature uid safe plain other number =
      elim (Bool-cases (feature == "")) [
        | inl unnamed ↦
            rw
              (
                feature_name,
                path_unnamed feature uid unnamed safe,
                cut_prefix-append "_uid/" (sh.itoa uid),
                number,
                unnamed,
              )
              refl
        | inr named ↦
            rw
              (
                feature_name,
                path_named feature uid named safe,
                other,
                path_named feature uid named safe,
                slashes_to_dots-dots_to_slashes feature plain,
                named,
              )
              refl
      ]
