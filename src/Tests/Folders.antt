-- ===== src/Tests/Folders.antt =====
-- Directories on a file system that is the list of its directories.
use ember_core.Common.{
  ℕ, ◌≡◌, refl, inl, inr, Bool, true, false, List, [], ◌∷◌, ◌++◌, ◌||◌, arith, Bool-cases, codes,
  same_text, same_text_refl,
}
use ember_core.Packages.Directories.{IsPosix, ends_named, create_directory-made}
use ember_core.Packages.Names.{
  FileSystem, make_each, make_path, ember_package_create_directory_recursive,
}

abbrev holds : List ℕ → List (List ℕ) → Bool
holds path [] = false
holds path (d ∷ ds) = same_text d path || holds path ds

-- `mkdir` makes a directory that is not there yet.
abbrev listed : FileSystem (List (List ℕ))
listed = record {
  mkdir = λ path w. elim (holds path w) [ true ↦ (false, w) | false ↦ (true, path ∷ w) ];
  is_directory = holds;
}

listed-IsPosix : IsPosix listed
listed-IsPosix = record { makes = made; keeps = kept }
  where
    made :
        (path : List ℕ) (w : List (List ℕ))
        → (listed.mkdir path w).0 ≡ true
        → holds path (listed.mkdir path w).1 ≡ true
    made path w h = elim (Bool-cases (holds path w)) [
      | inl e ↦ cc (rw (listed, e) at h)
      | inr e ↦ rw (listed, e, same_text_refl path)
    ]

    kept :
        (path q : List ℕ) (w : List (List ℕ))
        → holds q w ≡ true
        → holds q (listed.mkdir path w).1 ≡ true
    kept path q w h = elim (Bool-cases (holds path w)) [
      | inl e ↦ rw (listed, e) h
      | inr e ↦ rw (listed, e) (ground (arith, h))
    ]

granted :
    (ember_package_create_directory_recursive listed (codes "/pkg/a/b") (codes "/pkg" ∷ [])).0
    ≡ true
unfolding ember_package_create_directory_recursive make_path make_each same_text
granted = refl

create_directory-made_example :
    ((a b : List ℕ) (c : ℕ)
      → codes "/pkg/a/b" ≡ c ∷ a ++ (47 ∷ b)
      → holds
          (c ∷ a)
          (ember_package_create_directory_recursive listed (codes "/pkg/a/b") (codes "/pkg" ∷ [])).1
        ≡ true)
    × (ends_named false (codes "/pkg/a/b") ≡ true
        → holds
            (codes "/pkg/a/b")
            (ember_package_create_directory_recursive listed
              (codes "/pkg/a/b")
              (codes "/pkg" ∷ [])).1
          ≡ true)
create_directory-made_example =
    create_directory-made listed listed-IsPosix (codes "/pkg/a/b") (codes "/pkg" ∷ []) granted
