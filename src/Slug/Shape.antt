-- ===== src/Slug/Shape.antt =====
-- The shape of what internal/slug/slug.go yields.
use Prim.Native.Char.{Char}
use go_homeconnect2mqtt.Base.{
  String, ◌≡◌, ◌⊎◌, inl, inr, refl, Bool, true, false, not, ◌&&◌, Bool-cases, arith, if◌then◌else◌,
}
use go_homeconnect2mqtt.Base.Keys.{◌==◌, text_key}
use go_homeconnect2mqtt.Slug.{is_alnum, is_underscore, shape, trim_right, trim_left, fold, slug}

-- The rest of an identifier behind an underscore or the start (`after`), or behind a letter or digit:
-- words of letters and digits with one underscore between two of them.
unfoldable pub is_words : Bool → String → Bool
is_words after String.[] = not after
is_words after (String.◌∷◌ c s) =
    let in_word = is_words false s in
    let apart = is_words true s in
    if is_alnum c then in_word else is_underscore c && not after && apart

-- An underscore is no letter or digit.
pub underscore_apart : (c : Char) → is_alnum c ≡ true → is_underscore c ≡ false
underscore_apart c h = ground arith

-- one sign of an identifier
pub words_cases :
    (after : Bool) (c : Char) (t : String)
    → is_words after (String.◌∷◌ c t) ≡ true
    → ((is_alnum c ≡ true) × (is_words false t ≡ true))
      ⊎ ((is_alnum c ≡ false)
          × (is_underscore c ≡ true)
          × (after ≡ false)
          × (is_words true t ≡ true))
unfolding is_words
words_cases after c t h = elim (Bool-cases (is_alnum c)) [
  | inl kept ↦ inl (kept, rw kept at h)
  | inr cut ↦
      let all : (is_underscore c && not after && is_words true t) ≡ true = rw cut at h in
      inr (cut, ground arith, ground arith, ground arith)
]

word_cons :
    (after : Bool) (c : Char) (t : String)
    → is_alnum c ≡ true
    → (t ≡ "") ⊎ (is_words false t ≡ true)
    → is_words after (String.◌∷◌ c t) ≡ true
unfolding is_words
word_cons after c t a (inl empty) = rw (empty, a) refl
word_cons after c t a (inr words) = rw (a, words) refl

underscore_cons :
    (t : String)
    → (t ≡ "") ⊎ (is_words true t ≡ true)
    → let u = if t == "" then "" else String.◌∷◌ "_" t in (u ≡ "") ⊎ (is_words false u ≡ true)
unfolding is_words
underscore_cons t (inl empty) = rw empty (inl refl)
underscore_cons t (inr words) = elim (Bool-cases (t == "")) [
  | inl empty ↦ rw empty (inl refl)
  | inr full ↦ rw (full, words) (inr refl)
]

-- what is left behind the trim on the right
trimmed :
    (after : Bool) (s : String)
    → let t = trim_right (shape after s) in (t ≡ "") ⊎ (is_words after t ≡ true)
unfolding shape trim_right
trimmed after String.[] = inl refl
trimmed after (String.◌∷◌ c s) = elim (Bool-cases (is_alnum c)) [
  | inl kept ↦
      rw (kept, underscore_apart c kept)
        (inr (word_cons after c (trim_right (shape false s)) kept (trimmed false s)))
  | inr cut ↦ rw cut (behind_cut after s (trimmed true s))
]
  where
    behind_cut :
        (after : Bool) (s : String)
        → (let t = trim_right (shape true s) in (t ≡ "") ⊎ (is_words true t ≡ true))
        → let t = trim_right (if after then shape true s else String.◌∷◌ "_" (shape true s)) in
          (t ≡ "") ⊎ (is_words after t ≡ true)
    behind_cut true s h = h
    behind_cut false s h = underscore_cons (trim_right (shape true s)) h

pub trim_left_fixed : (t : String) → is_words true t ≡ true → trim_left t ≡ t
unfolding trim_left
trim_left_fixed String.[] h = refl
trim_left_fixed (String.◌∷◌ c t) h = elim (words_cases true c t h) [
  | inl (kept, w) ↦ rw (underscore_apart c kept) refl
  | inr (cut, mark, first, w) ↦ cc
]

-- The trim on the left takes at most the one underscore that there is.
pub trim_left_words :
    (t : String)
    → is_words false t ≡ true
    → (trim_left t ≡ "") ⊎ (is_words true (trim_left t) ≡ true)
unfolding is_words trim_left
trim_left_words String.[] h = inl refl
trim_left_words (String.◌∷◌ c t) h = elim (words_cases false c t h) [
  | inl (kept, words) ↦ rw (underscore_apart c kept, kept, words) (inr refl)
  | inr (cut, mark, _, words) ↦ rw (mark, trim_left_fixed t words) (inr words)
]

-- An identifier is empty, or words of small letters and digits with one underscore between two.
pub slug-is_words :
    (lower_rune : Char → Char) (s : String)
    → (slug lower_rune s ≡ "") ⊎ (is_words true (slug lower_rune s) ≡ true)
unfolding slug trim_left
slug-is_words lower_rune s = elim (trimmed false (fold lower_rune s)) [
  | inl empty ↦ rw (slug, empty) (inl refl)
  | inr words ↦ trim_left_words (trim_right (shape false (fold lower_rune s))) words
]
