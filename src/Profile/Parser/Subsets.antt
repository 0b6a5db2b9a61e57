-- ===== src/Profile/Parser/Subsets.antt =====
-- resolveEnumSubsets of internal/profile/parser.go.
use go_homeconnect2mqtt.Base.{
  ◌≡◌, refl, sym, ap, ◌∙◌, String, Bool-cases, Option-cases, inl, inr, some, List, [], ◌∷◌, arith,
  ◌⊎◌, from_option, if◌then◌else◌,
}
use go_homeconnect2mqtt.Base.Int.{ℤ}
use go_homeconnect2mqtt.Base.Keys.{◌==◌, ==_iff, text_key, int_key, lookup, insert, lookup-insert}
use go_homeconnect2mqtt.Value.{Host}
use go_homeconnect2mqtt.Profile.Xml.{EnumType}
use go_homeconnect2mqtt.Profile.Parser.{
  Digits, parse_hex, subset_of_parent, resolve_subset, resolve_enum_subsets,
}

-- A value has a name in one of the enumerations.
abbrev pub IsNamed : List (ℤ × List (ℤ × String)) → ℤ → String → Type 0
IsNamed enums v name =
    (origin : ℤ) × ((members : List (ℤ × String)) × ((lookup origin enums ≡ some members)
        × (lookup v members ≡ some name)))

module _ (host : Host) (digits : Digits) where
  open host use {atoi, trim_space}

  abbrev IsWithin : List (ℤ × String) → List (ℤ × String) → Type 0
  IsWithin subset parent =
      (v : ℤ) (name : String) → lookup v subset ≡ some name → lookup v parent ≡ some name

  nil-IsWithin : (parent : List (ℤ × String)) → IsWithin [] parent
  unfolding lookup
  nil-IsWithin parent v name h = cc

  insert-IsWithin :
      (parent subset : List (ℤ × String)) (v : ℤ) (name : String)
      → lookup v parent ≡ some name
      → IsWithin subset parent
      → IsWithin (insert v name subset) parent
  insert-IsWithin parent subset v name h k w text m =
      ground (arith, h, k w text, m, lookup-insert v w name subset, ==_iff v w)

  subset_of_parent-IsWithin :
      (parent : List (ℤ × String)) (texts : List String) (subset : List (ℤ × String))
      → IsWithin subset parent
      → IsWithin (subset_of_parent host digits parent texts subset) parent
  unfolding subset_of_parent
  subset_of_parent-IsWithin parent [] subset k = k
  subset_of_parent-IsWithin parent (text ∷ texts) subset k =
      elim (Option-cases (atoi (trim_space text))) [
        | inl e ↦ rw e (subset_of_parent-IsWithin parent texts subset k)
        | inr (v, e) ↦ elim (Option-cases (lookup v parent)) [
          | inl f ↦ rw (e, f) (subset_of_parent-IsWithin parent texts subset k)
          | inr (name, f) ↦
              rw (e, f)
                (subset_of_parent-IsWithin parent texts (insert v name subset)
                  (insert-IsWithin parent subset v name f k))
        ]
      ]

  resolve_subset_cases :
      (et : EnumType) (enums : List (ℤ × List (ℤ × String)))
      → (resolve_subset host digits et enums ≡ enums)
        ⊎ ((enid : ℤ) × ((parent : ℤ) × ((members : List (ℤ × String)) × ((lookup parent enums
                    ≡ some members)
                  × (resolve_subset host digits et enums
                      ≡ insert enid
                          (subset_of_parent host digits members et.enumeration [])
                          enums)))))
  unfolding resolve_subset
  resolve_subset_cases et enums = elim (Bool-cases (et.subset_of == "")) [
    | inl s ↦ inl (rw s refl)
    | inr s ↦ elim (Option-cases (parse_hex host digits et.enid)) [
      | inl e ↦ inl (rw (s, e) refl)
      | inr (enid, e) ↦ elim (Option-cases (parse_hex host digits et.subset_of)) [
        | inl q ↦ inl (rw (s, e, q) refl)
        | inr (parent, q) ↦ elim (Option-cases (lookup parent enums)) [
          | inl l ↦ inl (rw (s, e, q, l) refl)
          | inr (members, l) ↦ inr (enid, (parent, (members, (l, rw (s, e, q, l) refl))))
        ]
      ]
    ]
  ]

  -- One subset names no value that the enumerations did not name.
  resolve_subset-IsNamed :
      (et : EnumType) (enums : List (ℤ × List (ℤ × String))) (enid : ℤ)
      (members : List (ℤ × String)) (v : ℤ) (name : String)
      → lookup enid (resolve_subset host digits et enums) ≡ some members
      → lookup v members ≡ some name
      → IsNamed enums v name
  resolve_subset-IsNamed et enums enid members v name h m = elim (resolve_subset_cases et enums) [
    | inl same ↦ (enid, (members, (ap (lookup enid) (sym same) ∙ h, m)))
    | inr found ↦
        let (own, (parent, (names, (l, e)))) = found in
        let subset = subset_of_parent host digits names et.enumeration [] in
        let g = sym (lookup-insert own enid subset enums) ∙ ap (lookup enid) (sym e) ∙ h in
        elim (Bool-cases (own == enid)) [
          | inl t ↦ (
            parent,
            (
              names,
              (
                l,
                subset_of_parent-IsWithin names et.enumeration [] (nil-IsWithin names) v name (
                    ap (λ o. lookup v (from_option [] o))
                      (sym (ap (λ b. if b then some subset else lookup enid enums) t) ∙ g)
                    ∙ m),
              ),
            ),
          )
          | inr t ↦ (
            enid,
            (members, (sym (ap (λ b. if b then some subset else lookup enid enums) t) ∙ g, m)),
          )
        ]
  ]

  -- Whatever subsets the description declares, in whatever order and over whatever parents: a value
  -- that an enumeration names afterwards had that name in an enumeration of the feature mapping.
  pub resolve_enum_subsets-IsNamed :
      (ets : List EnumType) (enums : List (ℤ × List (ℤ × String))) (enid : ℤ)
      (members : List (ℤ × String)) (v : ℤ) (name : String)
      → lookup enid (resolve_enum_subsets host digits ets enums) ≡ some members
      → lookup v members ≡ some name
      → IsNamed enums v name
  unfolding resolve_enum_subsets
  resolve_enum_subsets-IsNamed [] enums enid members v name h m = (enid, (members, (h, m)))
  resolve_enum_subsets-IsNamed (et ∷ ets) enums enid members v name h m =
      let (origin, (found, (k, l))) =
        resolve_enum_subsets-IsNamed ets (resolve_subset host digits et enums) enid members v name h
          m in
      resolve_subset-IsNamed et enums origin found v name k l
