-- ===== src/Profile/Archive/Accepted.antt =====
-- The profiles that ParseArchiveDir of internal/profile/archive.go returns.
use mathlib.Core.Path.{subst}
use go_homeconnect2mqtt.Base.{
  ℕ, String, ◌≡◌, refl, inl, inr, true, false, Bool-cases, Option-cases, Option, none, some, List,
  [], ◌∷◌, ◌++◌, All, All-append, Result, ok, err, err_ok, ok_ok, Result-cases, if◌then◌else◌,
}
use go_homeconnect2mqtt.Value.{Host}
use go_homeconnect2mqtt.Entity.{is_nil}
use go_homeconnect2mqtt.Devices.{valid_ha_id}
use go_homeconnect2mqtt.Profile.{Description}
use go_homeconnect2mqtt.Profile.Parser.{Digits}
use go_homeconnect2mqtt.Profile.Parser.Document.{ParseError, parse_description}
use go_homeconnect2mqtt.Profile.Archive.{
  ArchiveError, parser_failed, invalid_profile, DeviceIndex, DeviceProfile, ZipEntry, Reader,
  archive_files, lookup_file, profile_of, parse_index, parse_indexes, json_files, parse_file_set,
  parse_archive_bytes, parse_archives, parse_archive_dir,
}

-- Its haId is safe as a file name, and its description carries the same haId.
abbrev pub IsAccepted : {F : Type 0} → DeviceProfile F → Type 0
IsAccepted p = (valid_ha_id p.ha_id ≡ true) × (p.description.ha_id ≡ p.ha_id)

module _ (host : Host) (digits : Digits) (reader : Reader) where
  open host use {Float}
  open reader use {read_index, read_mapping, read_device, range}

  -- An index gives no profile, or an accepted one.
  abbrev Gives : Result ArchiveError (Option (DeviceProfile Float)) → Type 0
  Gives (err e) = Unit
  Gives (ok none) = Unit
  Gives (ok (some p)) = IsAccepted p

  parse_index-Gives :
      (files : List (String × List ℕ)) (name : String) (ix : DeviceIndex)
      → Gives (parse_index host digits reader files name ix)
  unfolding parse_index profile_of
  parse_index-Gives files name ix = elim (Bool-cases (valid_ha_id ix.ha_id)) [
    | inr v ↦ rw v tt
    | inl v ↦ elim (Option-cases (lookup_file host digits reader files ix.description_file name)) [
      | inl a ↦ rw (v, a) tt
      | inr (x, a) ↦
          elim (Option-cases (lookup_file host digits reader files ix.mapping_file name)) [
            | inl b ↦ rw (v, a, b) tt
            | inr (y, b) ↦
                rw (v, a, b)
                  (described (parse_description host digits read_mapping read_device x y) v)
          ]
    ]
  ]
    where
      described :
          (r : Result ParseError (Description Float))
          → valid_ha_id ix.ha_id ≡ true
          → Gives (elim r [
            | err e ↦ err parser_failed
            | ok d ↦ ok (some (profile_of host digits reader ix d))
          ])
      described (err e) v = tt
      described (ok d) v = (v, refl)

  parse_indexes-IsAccepted :
      (files rest : List (String × List ℕ)) (before after : List (DeviceProfile Float))
      → All IsAccepted before
      → parse_indexes host digits reader files rest before ≡ ok after
      → All IsAccepted after
  unfolding parse_indexes
  parse_indexes-IsAccepted files [] before after all h = subst (All IsAccepted) (ok_ok h) all
  parse_indexes-IsAccepted files ((name, bytes) ∷ rest) before after all h =
      elim (Option-cases (read_index bytes)) [
        | inl e ↦ err_ok (rw (e, parse_indexes) at h)
        | inr (ix, e) ↦
            step (λ b. parse_indexes-IsAccepted files rest b after)
              (parse_index host digits reader files name ix) (parse_index-Gives files name ix)
              (rw (e, parse_indexes) at h)
      ]
    where
      step :
          ((b : List (DeviceProfile Float))
            → All IsAccepted b
            → parse_indexes host digits reader files rest b ≡ ok after
            → All IsAccepted after)
          → (r : Result ArchiveError (Option (DeviceProfile Float))) → Gives r
          → elim r [
            | err e ↦ err e
            | ok none ↦ parse_indexes host digits reader files rest before
            | ok (some p) ↦ parse_indexes host digits reader files rest (before ++ p ∷ [])
          ]
            ≡ ok after
          → All IsAccepted after
      step recur (err e) g h = err_ok h
      step recur (ok none) g h = recur before all h
      step recur (ok (some p)) g h =
          recur (before ++ p ∷ []) (All-append IsAccepted before (p ∷ []) all (g, tt)) h

  -- What one archive yields is accepted, and is something.
  parse_file_set-IsAccepted :
      (files : List (String × List ℕ)) (ps : List (DeviceProfile Float))
      → parse_file_set host digits reader files ≡ ok ps
      → (is_nil ps ≡ false) × All IsAccepted ps
  unfolding parse_file_set
  parse_file_set-IsAccepted files ps h =
      elim (Bool-cases (is_nil (json_files host digits reader (range files)))) [
        | inl e ↦ err_ok (rw (e, parse_file_set) at h)
        | inr e ↦
            set_result
              (parse_indexes host digits reader files (json_files host digits reader (range files))
                [])
              (λ qs.
                parse_indexes-IsAccepted files (json_files host digits reader (range files)) [] qs
                  tt)
              (rw (e, parse_file_set) at h)
      ]
    where
      set_result :
          (r : Result ArchiveError (List (DeviceProfile Float)))
          → ((qs : List (DeviceProfile Float)) → r ≡ ok qs → All IsAccepted qs)
          → elim r [ err e ↦ err e | ok qs ↦ if is_nil qs then err invalid_profile else ok qs ]
            ≡ ok ps
          → (is_nil ps ≡ false) × All IsAccepted ps
      set_result (err e) k h = err_ok h
      set_result (ok qs) k h = elim (Bool-cases (is_nil qs)) [
        | inl e ↦ err_ok (rw e at h)
        | inr e ↦
            subst (λ l. (is_nil l ≡ false) × All IsAccepted l) (ok_ok (rw e at h)) (e, k qs refl)
      ]

  parse_archive_bytes-IsAccepted :
      (zip : Option (List ZipEntry)) (ps : List (DeviceProfile Float))
      → parse_archive_bytes host digits reader zip ≡ ok ps
      → (is_nil ps ≡ false) × All IsAccepted ps
  unfolding parse_archive_bytes
  parse_archive_bytes-IsAccepted zip ps h = elim (Result-cases (archive_files zip)) [
    | inl (e, k) ↦ err_ok (rw (k, parse_archive_bytes) at h)
    | inr (files, k) ↦ parse_file_set-IsAccepted files ps (rw (k, parse_archive_bytes) at h)
  ]

  parse_archives-IsAccepted :
      (zips : List (Option (Option (List ZipEntry))))
      → All IsAccepted (parse_archives host digits reader zips)
  unfolding parse_archives
  parse_archives-IsAccepted [] = tt
  parse_archives-IsAccepted (none ∷ zips) = parse_archives-IsAccepted zips
  parse_archives-IsAccepted (some zip ∷ zips) =
      let rest = parse_archives-IsAccepted zips in
      elim (Result-cases (parse_archive_bytes host digits reader zip)) [
        | inl (e, k) ↦ rw (k, parse_archives) rest
        | inr (qs, k) ↦
            rw (k, parse_archives)
              (All-append IsAccepted qs (parse_archives host digits reader zips)
                (parse_archive_bytes-IsAccepted zip qs k).1 rest)
      ]

  -- Whatever the archives of a directory hold, the ones that cannot be read or parsed among them: every
  -- profile that is returned has a haId that is safe as a file name, and its description carries the
  -- same haId.
  pub parse_archive_dir-IsAccepted :
      (dir : Option (List (Option (Option (List ZipEntry))))) (ps : List (DeviceProfile Float))
      → parse_archive_dir host digits reader dir ≡ ok ps
      → All IsAccepted ps
  unfolding parse_archive_dir
  parse_archive_dir-IsAccepted none ps h = err_ok h
  parse_archive_dir-IsAccepted (some zips) ps h = elim (Bool-cases (is_nil zips)) [
    | inl e ↦ err_ok (rw (e, parse_archive_dir) at h)
    | inr e ↦
        subst (All IsAccepted) (ok_ok (rw (e, parse_archive_dir) at h))
          (parse_archives-IsAccepted zips)
  ]
