-- ===== src/Profile/Archive/Sizes.antt =====
-- The guards of ParseArchiveBytes of internal/profile/archive.go against archives that inflate too far.
use mathlib.Core.Path.{subst}
use go_homeconnect2mqtt.Base.{
  ℕ, ◌+◌, ◌≤◌, String, ◌≡◌, inl, inr, Bool-cases, Option-cases, Option, none, some, List, [], ◌∷◌,
  All, length, ltb, arith, ok, err_ok, ok_ok,
}
use go_homeconnect2mqtt.Base.Keys.{◌==◌, text_key, insert}
use go_homeconnect2mqtt.Profile.Archive.{
  max_entry_size, max_archive_size, ZipEntry, declared_size, read_files, archive_files,
}

abbrev pub total_size : List (String × List ℕ) → ℕ
total_size [] = 0
total_size ((file, bytes) ∷ files) = length bytes + total_size files

-- Files within both limits.
abbrev pub IsBounded : List (String × List ℕ) → Type 0
IsBounded files =
    (total_size files ≤ max_archive_size) × All (λ file. length file.1 ≤ max_entry_size) files

insert-total_size :
    (file : String) (bytes : List ℕ) (files : List (String × List ℕ))
    → total_size (insert file bytes files) ≤ total_size files + length bytes
unfolding insert
insert-total_size file bytes [] = omega arith
insert-total_size file bytes ((name, other) ∷ files) = elim (Bool-cases (name == file)) [
  | inl e ↦ rw e (omega arith)
  | inr e ↦ rw e (omega (arith, insert-total_size file bytes files))
]

insert-All :
    (file : String) (bytes : List ℕ) (files : List (String × List ℕ))
    → length bytes ≤ max_entry_size
    → All (λ f. length f.1 ≤ max_entry_size) files
    → All (λ f. length f.1 ≤ max_entry_size) (insert file bytes files)
unfolding insert
insert-All file bytes [] h all = (h, tt)
insert-All file bytes ((name, other) ∷ files) h (k, all) = elim (Bool-cases (name == file)) [
  | inl e ↦ rw e (h, all)
  | inr e ↦ rw e (k, insert-All file bytes files h all)
]

read_files-IsBounded :
    (fs : List ZipEntry) (total : ℕ) (before after : List (String × List ℕ))
    → total_size before ≤ total
    → total ≤ max_archive_size
    → All (λ f. length f.1 ≤ max_entry_size) before
    → read_files fs total before ≡ ok after
    → IsBounded after
unfolding read_files
read_files-IsBounded [] total before after le bound all h =
    subst IsBounded (ok_ok h) (omega arith, all)
read_files-IsBounded (f ∷ fs) total before after le bound all h = elim (Bool-cases f.opens) [
  | inr e ↦ err_ok (rw e at h)
  | inl e ↦ elim (Option-cases (f.read_up_to 16777217)) [
    | inl n ↦ err_ok (rw (e, n) at h)
    | inr (b, n) ↦ elim (Bool-cases (ltb max_entry_size (length b))) [
      | inl l ↦ err_ok (rw (e, n, l) at h)
      | inr l ↦ elim (Bool-cases (ltb max_archive_size (total + length b))) [
        | inl m ↦ err_ok (rw (e, n, l, m) at h)
        | inr m ↦
            read_files-IsBounded fs (total + length b) (insert f.file_name b before) after
              (omega (arith, insert-total_size f.file_name b before, le)) (ground arith)
              (insert-All f.file_name b before (ground arith) all) (rw (e, n, l, m) at h)
      ]
    ]
  ]
]

-- Whatever an archive declares of itself, and however its entries repeat a name: the files that are
-- accepted hold no more than 64 MiB together and no more than 16 MiB each.
pub archive_files-IsBounded :
    (zip : Option (List ZipEntry)) (files : List (String × List ℕ))
    → archive_files zip ≡ ok files
    → IsBounded files
unfolding archive_files
archive_files-IsBounded none files h = err_ok h
archive_files-IsBounded (some fs) files h = elim (Option-cases (declared_size fs 0)) [
  | inl e ↦ err_ok (rw (e, archive_files) at h)
  | inr (declared, e) ↦ elim (Bool-cases (ltb max_archive_size declared)) [
    | inl l ↦ err_ok (rw (e, l, archive_files) at h)
    | inr l ↦
        read_files-IsBounded fs 0 [] files (omega arith) (omega arith) tt
          (rw (e, l, archive_files) at h)
  ]
]
