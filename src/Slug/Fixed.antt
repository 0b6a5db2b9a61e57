-- ===== src/Slug/Fixed.antt =====
-- What internal/slug/slug.go leaves alone and what it never loses.
use Prim.Native.Char.{Char, code}
use text.Mathlib.TextLemmas.{nil-append, cons-append}
use go_homeconnect2mqtt.Base.{
  String, ◌≡◌, inl, inr, refl, ap, sym, Bool, true, false, ◌&&◌, ◌||◌, Bool-cases, nat_beq_iff, leb,
  arith,
}
use go_homeconnect2mqtt.Base.Keys.{◌==◌, ==_iff, text_key}
use go_homeconnect2mqtt.Translation.{is_small}
use go_homeconnect2mqtt.Slug.{
  is_alnum, is_underscore, replaced, shape, trim_right, trim_left, fold, slug,
}
use text.Mathlib.TextEquality.{Char-path}
use go_homeconnect2mqtt.Slug.Shape.{
  is_words, trim_left_fixed, words_cases, underscore_apart, slug-is_words,
}

abbrev pub is_capital : Char → Bool
is_capital c = leb b'A' (code c) && leb (code c) b'Z'

-- unicode.ToLower on ASCII
pub record LowersAscii (lower_rune : Char → Char) : Type 0 where
  pub keeps : (c : Char) → (is_alnum c || is_underscore c) ≡ true → lower_rune c ≡ c
  pub lowers : (c : Char) → is_capital c ≡ true → is_small (lower_rune c) ≡ true

pub replaced_kept :
    (c : Char) → (is_alnum c || is_underscore c) ≡ true → replaced c ≡ String.◌∷◌ c ""
unfolding replaced
replaced_kept c h = ground arith

shape_words : (after : Bool) (t : String) → is_words after t ≡ true → shape after t ≡ t
unfolding shape
shape_words after String.[] h = refl
shape_words after (String.◌∷◌ c t) h = elim (words_cases after c t h) [
  | inl (kept, w) ↦ rw (kept, shape_words false t w) refl
  | inr (cut, mark, first, w) ↦
      rw (cut, first, shape_words true t w)
        (ap (λ x. String.◌∷◌ x t) (Char-path "_" c (sym ((nat_beq_iff (code c) b'_').0 mark))))
]

-- more words, so no end
full_of_words : (t : String) → is_words true t ≡ true → (t == "") ≡ false
unfolding is_words
full_of_words String.[] h = cc
full_of_words (String.◌∷◌ c t) h = elim (Bool-cases (String.◌∷◌ c t == "")) [
  | inr full ↦ full
  | inl empty ↦ let no : String.◌∷◌ c t ≡ "" = (==_iff (String.◌∷◌ c t) "").0 empty in cc
]

trim_right_words : (after : Bool) (t : String) → is_words after t ≡ true → trim_right t ≡ t
unfolding trim_right
trim_right_words after String.[] h = refl
trim_right_words after (String.◌∷◌ c t) h = elim (words_cases after c t h) [
  | inl (kept, w) ↦ rw (trim_right_words false t w, underscore_apart c kept) refl
  | inr (cut, mark, first, w) ↦ rw (trim_right_words true t w, mark, full_of_words t w) refl
]

module _ (lower_rune : Char → Char) (ascii : LowersAscii lower_rune) where
  fold_cons :
      (c : Char) (t : String)
      → (is_alnum c || is_underscore c) ≡ true
      → fold lower_rune t ≡ t
      → fold lower_rune (String.◌∷◌ c t) ≡ String.◌∷◌ c t
  unfolding fold
  fold_cons c t h e =
      rw (ascii.keeps c h, replaced_kept c h, e, cons-append c "" t, nil-append t) refl

  fold_words : (after : Bool) (t : String) → is_words after t ≡ true → fold lower_rune t ≡ t
  unfolding fold
  fold_words after String.[] h = refl
  fold_words after (String.◌∷◌ c t) h = elim (words_cases after c t h) [
    | inl (kept, w) ↦ fold_cons c t (ground arith) (fold_words false t w)
    | inr (cut, mark, first, w) ↦ fold_cons c t (ground arith) (fold_words true t w)
  ]

  slug_words : (t : String) → is_words true t ≡ true → slug lower_rune t ≡ t
  unfolding slug shape is_words
  slug_words String.[] w = refl
  slug_words (String.◌∷◌ c t) w = elim (words_cases true c t w) [
    | inr (cut, mark, first, _) ↦ cc
    | inl (kept, rest) ↦
        let inside : is_words false (String.◌∷◌ c t) ≡ true = rw (is_words, kept) rest in
        rw
          (
            slug,
            fold_words true (String.◌∷◌ c t) w,
            shape_words false (String.◌∷◌ c t) inside,
            trim_right_words true (String.◌∷◌ c t) w,
          )
          (trim_left_fixed (String.◌∷◌ c t) w)
  ]

  slug_empty : slug lower_rune "" ≡ ""
  unfolding slug fold shape trim_right trim_left
  slug_empty = refl

  -- An identifier is its own identifier, where ToLower leaves small letters, digits and the
  -- underscore alone.
  pub slug-slug : (s : String) → slug lower_rune (slug lower_rune s) ≡ slug lower_rune s
  slug-slug s = elim (slug-is_words lower_rune s) [
    | inl empty ↦ rw empty slug_empty
    | inr words ↦ slug_words (slug lower_rune s) words
  ]
