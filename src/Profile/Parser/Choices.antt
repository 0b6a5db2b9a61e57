-- ===== src/Profile/Parser/Choices.antt =====
-- resolveProgramNames of internal/profile/parser.go: the names of the program choices.
use go_homeconnect2mqtt.Base.{
  absurd_bool, ◌≡◌, refl, sym, ap, ◌∙◌, ℕ, zero, suc, String, Bool, true, false, not, ◌&&◌,
  Bool-cases, inl, inr, some, List, [], ◌∷◌, map, from_option, get_elem?, if◌then◌else◌,
}
use go_homeconnect2mqtt.Base.Int.{ℤ}
use go_homeconnect2mqtt.Base.Keys.{◌==◌, text_key, int_key, insert}
use go_homeconnect2mqtt.Value.{Host}
use go_homeconnect2mqtt.Entity.{Entry, is_nil, is_enum}
use go_homeconnect2mqtt.Profile.{Description}
use go_homeconnect2mqtt.Profile.Xml.{MappingDocument, DeviceDocument}
use go_homeconnect2mqtt.Profile.Parser.{Digits}
use go_homeconnect2mqtt.Profile.Parser.Document.{
  is_choice_kind, is_program_kind, give_programs, on_entries, program_leaf, resolve_program_names,
  read_device, describe_device, program_enum,
}

insert-is_nil : (k : ℤ) (v : String) (es : List (ℤ × String)) → is_nil (insert k v es) ≡ false
unfolding insert
insert-is_nil k v [] = refl
insert-is_nil k v ((j, w) ∷ es) = elim (Bool-cases (j == k)) [
  | inl t ↦ rw t refl
  | inr t ↦ rw t refl
]

get_elem?-map :
    {A B : Type 0} (f : A → B) (xs : List A) (i : ℕ) (y : B)
    → get_elem? (map f xs) i ≡ some y
    → (x : A) × ((get_elem? xs i ≡ some x) × (f x ≡ y))
get_elem?-map f [] i y h = cc
get_elem?-map f (x ∷ xs) zero y h = (x, (refl, ap (from_option (f x)) h))
get_elem?-map f (x ∷ xs) (suc i) y h = get_elem?-map f xs i y h

-- A program with a name.
abbrev pub is_named_program : {F : Type 0} → Entry F → Bool
is_named_program e = is_program_kind e.kind && not (e.name == "")

module _ (host : Host) (digits : Digits) where
  open host use {Float}

  program_enum_grows :
      (es : List (Entry Float)) (table : List (ℤ × String))
      → is_nil table ≡ false
      → is_nil (program_enum host digits es table) ≡ false
  unfolding program_enum
  program_enum_grows [] table h = h
  program_enum_grows (e ∷ es) table h = elim (Bool-cases (is_named_program e)) [
    | inl t ↦ rw t (
        program_enum_grows es (insert e.uid (program_leaf host digits e.name) table)
          (insert-is_nil e.uid (program_leaf host digits e.name) table))
    | inr t ↦ rw t (program_enum_grows es table h)
  ]

  program_enum-is_nil :
      (es : List (Entry Float)) (table : List (ℤ × String)) (i : ℕ) (p : Entry Float)
      → get_elem? es i ≡ some p
      → is_named_program p ≡ true
      → is_nil (program_enum host digits es table) ≡ false
  unfolding program_enum
  program_enum-is_nil [] table i p h n = cc
  program_enum-is_nil (e ∷ es) table zero p h n =
      rw (ap (λ o. is_named_program (from_option e o)) h ∙ n) (
        program_enum_grows es (insert e.uid (program_leaf host digits e.name) table)
          (insert-is_nil e.uid (program_leaf host digits e.name) table))
  program_enum-is_nil (e ∷ es) table (suc i) p h n =
      program_enum-is_nil es
        (if is_named_program e then insert e.uid (program_leaf host digits e.name) table else table)
        i p h n

  give_programs-kind :
      (table : List (ℤ × String)) (e : Entry Float)
      → is_named_program (give_programs host digits table e) ≡ is_named_program e
  unfolding give_programs
  give_programs-kind table e = elim (Bool-cases (is_choice_kind e.kind && is_nil e.enumeration)) [
    | inl t ↦ rw t refl
    | inr t ↦ rw t refl
  ]

  give_programs_choice :
      (table : List (ℤ × String)) (e : Entry Float)
      → is_choice_kind (give_programs host digits table e).kind ≡ is_choice_kind e.kind
  unfolding give_programs
  give_programs_choice table e = elim (Bool-cases (is_choice_kind e.kind && is_nil e.enumeration)) [
    | inl t ↦ rw t refl
    | inr t ↦ rw t refl
  ]

  give_programs-is_enum :
      (table : List (ℤ × String)) (e : Entry Float)
      → is_nil table ≡ false
      → is_choice_kind (give_programs host digits table e).kind ≡ true
      → is_enum (give_programs host digits table e) ≡ true
  unfolding give_programs
  give_programs-is_enum table e h c = elim (Bool-cases (is_choice_kind e.kind)) [
    | inl k ↦ elim (Bool-cases (is_nil e.enumeration)) [
      | inl t ↦ rw (k, t, h) refl
      | inr t ↦ rw (k, t, t) refl
    ]
    | inr k ↦ absurd_bool (sym (sym (give_programs_choice table e) ∙ c) ∙ k)
  ]

  entries_unchanged :
      (d : Description Float)
      → is_nil (program_enum host digits d.entries []) ≡ true
      → (resolve_program_names host digits d).entries ≡ d.entries
  unfolding resolve_program_names
  entries_unchanged d t = rw t refl

  entries_given :
      (d : Description Float)
      → is_nil (program_enum host digits d.entries []) ≡ false
      → (resolve_program_names host digits d).entries
        ≡ map (give_programs host digits (program_enum host digits d.entries [])) d.entries
  unfolding resolve_program_names on_entries
  entries_given d t = rw t refl

  resolve_program_names-is_enum :
      (d : Description Float) (i j : ℕ) (p e : Entry Float)
      → get_elem? (resolve_program_names host digits d).entries i ≡ some p
      → is_named_program p ≡ true
      → get_elem? (resolve_program_names host digits d).entries j ≡ some e
      → is_choice_kind e.kind ≡ true
      → is_enum e ≡ true
  resolve_program_names-is_enum d i j p e h n k c =
      let table = program_enum host digits d.entries [] in
      elim (Bool-cases (is_nil table)) [
        | inl t ↦ absurd_bool (
            sym t
            ∙ program_enum-is_nil d.entries [] i p
                (sym (ap (λ es. get_elem? es i) (entries_unchanged d t)) ∙ h) n)
        | inr t ↦
            let give = give_programs host digits table in
            let same = entries_given d t in
            let (q, (_, g)) =
              get_elem?-map give d.entries j e (sym (ap (λ es. get_elem? es j) same) ∙ k) in
            sym (ap is_enum g)
            ∙ give_programs-is_enum table q t (sym (sym (ap (λ x. is_choice_kind x.kind) g)) ∙ c)
      ]

  -- The active and the selected program of a parsed description are enumerations as soon as one
  -- program of it has a name, whatever the document says of them.
  pub describe_device-is_enum :
      (mapping : MappingDocument) (dev : DeviceDocument) (i j : ℕ) (p e : Entry Float)
      → get_elem? (describe_device host digits mapping dev).entries i ≡ some p
      → is_named_program p ≡ true
      → get_elem? (describe_device host digits mapping dev).entries j ≡ some e
      → is_choice_kind e.kind ≡ true
      → is_enum e ≡ true
  unfolding describe_device
  describe_device-is_enum mapping dev i j p e h n k c =
      resolve_program_names-is_enum (read_device host digits mapping dev) i j p e h n k c
