-- ===== src/Profile/Rebuilt.antt =====
-- rebuildIndex of internal/profile/description.go on a description loaded from its cache.
use go_homeconnect2mqtt.Base.{◌≡◌, refl, ap, ◌∙◌, List, [], ◌∷◌, ◌++◌}
use go_homeconnect2mqtt.Entity.{Entry}
use go_homeconnect2mqtt.Profile.{
  Indexes, Description, no_indexes, new_description, index_entry, index_all, add, rebuild_index,
}

module _ {F : Type 0} where
  index_all-append :
      (es : List (Entry F)) (e : Entry F) (ix : Indexes F)
      → index_all (es ++ e ∷ []) ix ≡ index_entry e (index_all es ix)
  unfolding index_all
  index_all-append [] e ix = refl
  index_all-append (x ∷ es) e ix = index_all-append es e (index_entry x ix)

  -- The parser's calls of add, one for each entry.
  unfoldable pub add_all : List (Entry F) → Description F → Description F
  add_all [] d = d
  add_all (e ∷ es) d = add_all es (add e d)

  pub rebuild_index-add :
      (e : Entry F) (d : Description F) → rebuild_index d ≡ d → rebuild_index (add e d) ≡ add e d
  unfolding rebuild_index add index_entry
  rebuild_index-add e d h =
      ap (λ ix. record d { entries = d.entries ++ e ∷ []; indexes = ix })
        (index_all-append d.entries e no_indexes ∙ ap (λ b. index_entry e b.indexes) h)

  rebuild_index-add_all :
      (es : List (Entry F)) (d : Description F)
      → rebuild_index d ≡ d
      → rebuild_index (add_all es d) ≡ add_all es d
  unfolding add_all
  rebuild_index-add_all [] d h = h
  rebuild_index-add_all (e ∷ es) d h = rebuild_index-add_all es (add e d) (rebuild_index-add e d h)

  -- Whatever entries the parser adds, repeated uids and names included: the indexes that are rebuilt
  -- from the list of entries alone are the ones that were built entry by entry.
  pub rebuild_index-parsed :
      (es : List (Entry F))
      → rebuild_index (add_all es new_description) ≡ add_all es new_description
  rebuild_index-parsed es =
      rebuild_index-add_all es new_description (unfold rebuild_index index_all in refl)
