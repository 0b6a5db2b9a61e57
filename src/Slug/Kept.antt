-- ===== src/Slug/Kept.antt =====
-- internal/slug/slug.go does not lose the letters and digits of a name.
use Prim.Native.Char.{Char}
use Prim.Native.String.{◌++◌}
use text.Mathlib.TextLemmas.{nil-append, cons-append}
use go_homeconnect2mqtt.Base.{
  String, ◌≡◌, ◌≢◌, inl, inr, refl, Bool, true, false, ◌||◌, Bool-cases, arith,
}
use go_homeconnect2mqtt.Base.Keys.{◌==◌, ==_iff, text_key}
use go_homeconnect2mqtt.Slug.{
  is_alnum, is_underscore, replaced, shape, trim_right, trim_left, fold, slug,
}
use go_homeconnect2mqtt.Slug.Shape.{underscore_apart}
use go_homeconnect2mqtt.Slug.Fixed.{is_capital, LowersAscii, replaced_kept}

-- a sign of an identifier, and one that becomes one
unfoldable pub has_alnum : String → Bool
has_alnum String.[] = false
has_alnum (String.◌∷◌ c s) = is_alnum c || has_alnum s

rest_has :
    (c : Char) (s : String)
    → has_alnum (String.◌∷◌ c s) ≡ true
    → is_alnum c ≡ false
    → has_alnum s ≡ true
unfolding has_alnum
rest_has c s h cut = rw cut at h

has_alnum-append : (s t : String) → has_alnum (s ++ t) ≡ (has_alnum s || has_alnum t)
unfolding has_alnum
has_alnum-append String.[] t = rw (nil-append t) refl
has_alnum-append (String.◌∷◌ c s) t = rw (cons-append c s t, has_alnum-append s t) (ground arith)

has_alnum-shape :
    (after : Bool) (s : String) → has_alnum s ≡ true → has_alnum (shape after s) ≡ true
unfolding has_alnum shape
has_alnum-shape after String.[] h = h
has_alnum-shape after (String.◌∷◌ c s) h = elim (Bool-cases (is_alnum c)) [
  | inl kept ↦ rw (kept, kept) refl
  | inr cut ↦ elim (Bool-cases after) [
    | inl again ↦ rw (cut, again) (has_alnum-shape true s (rest_has c s h cut))
    | inr first ↦ rw (cut, first) (has_alnum-shape true s (rest_has c s h cut))
  ]
]

has_alnum-trim_right : (s : String) → has_alnum s ≡ true → has_alnum (trim_right s) ≡ true
unfolding has_alnum trim_right
has_alnum-trim_right String.[] h = h
has_alnum-trim_right (String.◌∷◌ c s) h = elim (Bool-cases (is_alnum c)) [
  | inl kept ↦ rw (underscore_apart c kept, kept) refl
  | inr cut ↦
      let rest = has_alnum-trim_right s (rest_has c s h cut) in
      elim (Bool-cases (trim_right s == "")) [
        | inl empty ↦
            let gone : trim_right s ≡ "" = (==_iff (trim_right s) "").0 empty in
            let no : has_alnum "" ≡ true = rw gone at rest in cc
        | inr full ↦ elim (Bool-cases (is_underscore c)) [
          | inl mark ↦ rw (mark, full, cut) rest
          | inr other ↦ rw (other, cut) rest
        ]
      ]
]

has_alnum-trim_left : (s : String) → has_alnum s ≡ true → has_alnum (trim_left s) ≡ true
unfolding has_alnum trim_left
has_alnum-trim_left String.[] h = h
has_alnum-trim_left (String.◌∷◌ c s) h = elim (Bool-cases (is_alnum c)) [
  | inl kept ↦ rw (underscore_apart c kept, kept) refl
  | inr cut ↦ elim (Bool-cases (is_underscore c)) [
    | inl mark ↦ rw mark (has_alnum-trim_left s (rest_has c s h cut))
    | inr other ↦ rw other h
  ]
]

-- Whether a name holds an ASCII letter or digit
unfoldable pub has_ascii_alnum : String → Bool
has_ascii_alnum String.[] = false
has_ascii_alnum (String.◌∷◌ c s) = is_alnum c || is_capital c || has_ascii_alnum s

has_alnum-replaced : (c : Char) → is_alnum c ≡ true → has_alnum (replaced c) ≡ true
unfolding has_alnum
has_alnum-replaced c h = rw (replaced_kept c (ground arith), h) refl

module _ (lower_rune : Char → Char) (ascii : LowersAscii lower_rune) where
  first_has :
      (c : Char) → (is_alnum c || is_capital c) ≡ true → has_alnum (replaced (lower_rune c)) ≡ true
  first_has c h = elim (Bool-cases (is_alnum c)) [
    | inl kept ↦ rw (ascii.keeps c (ground arith)) (has_alnum-replaced c kept)
    | inr cut ↦
        let small = ascii.lowers c (ground arith) in
        has_alnum-replaced (lower_rune c) (ground arith)
  ]

  has_alnum-fold : (s : String) → has_ascii_alnum s ≡ true → has_alnum (fold lower_rune s) ≡ true
  unfolding has_ascii_alnum fold
  has_alnum-fold String.[] h = cc
  has_alnum-fold (String.◌∷◌ c s) h =
      rw (has_alnum-append (replaced (lower_rune c)) (fold lower_rune s))
        (elim (Bool-cases (is_alnum c || is_capital c)) [
          | inl here ↦ rw (first_has c here) refl
          | inr later ↦
              let rest : has_ascii_alnum s ≡ true = ground arith in
              let found = has_alnum-fold s rest in ground arith
        ])

  -- A name with an ASCII letter or digit has an identifier, where ToLower maps capital letters to
  -- small ones and leaves small letters, digits and the underscore alone.
  pub slug_of_named : (s : String) → has_ascii_alnum s ≡ true → slug lower_rune s ≢ ""
  unfolding slug has_alnum
  slug_of_named s h e =
      let h1 = has_alnum-trim_left (trim_right (shape false (fold lower_rune s))) (
        has_alnum-trim_right (shape false (fold lower_rune s))
          (has_alnum-shape false (fold lower_rune s) (has_alnum-fold s h))) in
      let h2 : has_alnum "" ≡ true = rw e at h1 in cc
