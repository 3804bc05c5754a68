-- ===== src/Authority/Discovery/Complete.antt =====
-- No included file is dropped: it is an artifact or it is diagnosed.
use lang_sop.Base.{
  ◌≡◌, refl, ◌∙◌, ap, ℕ, suc, ◌+◌, String, Bool, true, ◌&&◌, List, [], ◌∷◌, keep, length, arith,
  Bool-cases, inl, inr,
}
use lang_sop.Authority.Discovery.{
  DiscoveryConfig, DiscoveredArtifact, Entry, Tree, Content, Found, hashed, unreadable, matches_any,
  is_yielded, find_artifacts, read_into, insert_artifact, sort_artifacts, discover_sop_artifacts,
}

length-insert_artifact :
    (a : DiscoveredArtifact) (more : List DiscoveredArtifact)
    → length (insert_artifact a more) ≡ suc (length more)
unfolding insert_artifact
length-insert_artifact a [] = refl
length-insert_artifact a (b ∷ bs) = ground (arith, length-insert_artifact a bs)

length-sort_artifacts :
    (more : List DiscoveredArtifact) → length (sort_artifacts more) ≡ length more
unfolding sort_artifacts
length-sort_artifacts [] = refl
length-sort_artifacts (a ∷ more) =
    length-insert_artifact a (sort_artifacts more) ∙ ap suc (length-sort_artifacts more)

module _ (fnmatchcase : String → String → Bool) (config : DiscoveryConfig) where
  -- The entries that must be accounted for.
  abbrev pub is_included : Entry → Bool
  is_included e =
      is_yielded fnmatchcase config e
      && matches_any fnmatchcase config e.relative_path config.include_globs

  abbrev count_of : Found → ℕ
  count_of f = length f.artifacts + length f.diagnostics

  count_of_read :
      (root path : String) (content : Content) (found : Found)
      → count_of (read_into root path content found) ≡ suc (count_of found)
  count_of_read root path (hashed h) found = omega arith
  count_of_read root path (unreadable message) found = omega arith

  count_of_found :
      (root : String) (es : List Entry)
      → count_of (find_artifacts fnmatchcase config root es) ≡ length (keep is_included es)
  unfolding find_artifacts keep
  count_of_found root [] = refl
  count_of_found root (e ∷ es) = elim (Bool-cases (is_yielded fnmatchcase config e)) [
    | inr y ↦ rw y (count_of_found root es)
    | inl y ↦
        elim (Bool-cases (matches_any fnmatchcase config e.relative_path config.include_globs)) [
          | inr i ↦ rw (y, i) (count_of_found root es)
          | inl i ↦
              elim (Bool-cases
                (matches_any fnmatchcase config e.relative_path config.exclude_globs)) [
                  | inl x ↦ rw (y, i, x) (omega (arith, count_of_found root es))
                  | inr x ↦
                      rw (y, i, x)
                        (count_of_read root e.relative_path e.content
                            (find_artifacts fnmatchcase config root es)
                          ∙ ap suc (count_of_found root es))
                ]
        ]
  ]

  -- Where the root exists, every file of the tree that is yielded and matches an inclusion rule is
  -- counted exactly once: as an artifact or as a diagnostic, of an exclusion or of a read failure.
  pub length-discover_sop_artifacts :
      (tree : Tree)
      → tree.root_exists ≡ true
      → length (discover_sop_artifacts fnmatchcase config tree).artifacts
          + length (discover_sop_artifacts fnmatchcase config tree).diagnostics
        ≡ length (keep is_included tree.entries)
  unfolding discover_sop_artifacts
  length-discover_sop_artifacts tree h =
      let found = find_artifacts fnmatchcase config tree.root tree.entries in
      rw h (
        ap (λ n. n + length found.diagnostics) (length-sort_artifacts found.artifacts)
        ∙ count_of_found tree.root tree.entries)
