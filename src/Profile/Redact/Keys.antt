-- ===== src/Profile/Redact/Keys.antt =====
-- The fast path of IsSecretKey of internal/profile/redact.go.
use Prim.Native.Char.{Char, code}
use go_homeconnect2mqtt.Base.{absurd_bool}
use go_homeconnect2mqtt.Base.{
  String, ◌≡◌, refl, sym, ap, ◌∙◌, inl, inr, Bool, true, false, ◌&&◌, ◌||◌, Bool-cases, List, [],
  ◌∷◌, All, arith, ltb, if◌then◌else◌,
}
use go_homeconnect2mqtt.Base.Keys.{◌==◌, ==_iff, text_key}
use go_homeconnect2mqtt.Migration.{has_topic}
use go_homeconnect2mqtt.Slug.Fixed.{is_capital}
use go_homeconnect2mqtt.Profile.Redact.{
  secret_keys, is_separator, needs_normalization, normalize_key, is_secret_key,
}

abbrev pub is_ascii : String → Bool
is_ascii String.[] = true
is_ascii (String.◌∷◌ c s) = ltb (code c) 128 && is_ascii s

canonical_member :
    (name : String) (keys : List String)
    → All (λ k. needs_normalization k ≡ false) keys
    → has_topic name keys ≡ true
    → needs_normalization name ≡ false
unfolding has_topic
canonical_member name [] all h = absurd_bool (sym h)
canonical_member name (k ∷ ks) (c, all) h = elim (Bool-cases (k == name)) [
  | inl e ↦ ap needs_normalization (sym ((==_iff k name).0 e)) ∙ c
  | inr e ↦ canonical_member name ks all (rw e at h)
]

canonical_keys : All (λ k. needs_normalization k ≡ false) secret_keys
unfolding needs_normalization
canonical_keys = (refl, (refl, (refl, (refl, (refl, (refl, (refl, (refl, (refl, (refl, tt))))))))))

module _ (lower_rune : Char → Char)
    (lower_ascii : (c : Char)
      → ltb (code c) 128 ≡ true
      → is_capital c ≡ false
      → lower_rune c ≡ c) where
  normalize_key_canonical :
      (name : String)
      → is_ascii name ≡ true
      → needs_normalization name ≡ false
      → normalize_key lower_rune name ≡ name
  unfolding normalize_key needs_normalization
  normalize_key_canonical String.[] a h = refl
  normalize_key_canonical (String.◌∷◌ c s) a h =
      let ascii : ltb (code c) 128 ≡ true = ground (arith, a) in
      let rest : is_ascii s ≡ true = ground (arith, a) in
      let (front, back) = both_false (is_capital c || is_separator c) (needs_normalization s) h in
      let (plain, apart) = both_false (is_capital c) (is_separator c) front in
      rw (lower_ascii c ascii plain, apart, normalize_key_canonical s rest back) refl
    where
      both_false : (a b : Bool) → (a || b) ≡ false → (a ≡ false) × (b ≡ false)
      both_false a b h = ground (arith, h)

  -- On a name of ASCII signs the shortcuts of IsSecretKey change nothing: its answer is that of the
  -- lookup of the normalized name.
  is_secret_key-normalize_key :
      (name : String)
      → is_ascii name ≡ true
      → is_secret_key lower_rune name ≡ has_topic (normalize_key lower_rune name) secret_keys
  unfolding is_secret_key
  is_secret_key-normalize_key name a = elim (Bool-cases (needs_normalization name)) [
    | inl e ↦ elim (Bool-cases (has_topic name secret_keys)) [
      | inl m ↦ absurd_bool (sym e ∙ canonical_member name secret_keys canonical_keys m)
      | inr m ↦ rw (m, e) refl
    ]
    | inr e ↦ rw (e, normalize_key_canonical name a e) (either (has_topic name secret_keys))
  ]
    where
      either : (b : Bool) → (if b then true else if true then false else b) ≡ b
      either true = refl
      either false = refl
