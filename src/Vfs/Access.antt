-- ===== src/Vfs/Access.antt =====
-- The mount points that `ember_vfs_check_access` and `ember_vfs_resolve` of src/runtime/vfs/vfs.c choose.
use ember_core.Common.{
  Bool, not, ◌&&◌, ◌++◌, append_assoc, ◌⊎◌, inl, inr, ◌≤◌, refl, ap, ◌∙◌, Option, Bool-cases, ℕ,
  ◌<◌, ◌≡◌, true, false, none, some, List, [], ◌∷◌, length, ltb, leb, ◌==◌, arith,
}
use ember_core.Vfs.Paths.{
  matched, better, best_match, is_read_only, first_allows, ember_vfs_check_access,
}
use ember_core.Vfs.{MountPoint, Mounts, path_max, max_mounts}

-- No mount point matches the path.
abbrev pub NoneMatch : List ℕ → List MountPoint → Type 0
NoneMatch path [] = Unit {0}
NoneMatch path (m ∷ ms) = (matched path m ≡ none) × NoneMatch path ms

-- The mount points that match have virtual paths below a length.
abbrev pub AllBelow : List ℕ → ℕ → List MountPoint → Type 0
AllBelow path n [] = Unit {0}
AllBelow path n (m ∷ ms) =
    ((matched path m ≡ none) ⊎ (length m.virtual_path < n)) × AllBelow path n ms

first_allows-first :
    (path : List ℕ) (write_access : Bool) (before : List MountPoint) (m : MountPoint)
    (after : List MountPoint) (r : List ℕ)
    → NoneMatch path before
    → matched path m ≡ some r
    → first_allows path write_access (before ++ (m ∷ after)) ≡ not (write_access && is_read_only m)
unfolding first_allows
first_allows-first path write_access [] m after r none_before e = rw e refl
first_allows-first path write_access (x ∷ xs) m after r (absent, later) e =
    rw absent (first_allows-first path write_access xs m after r later e)

weight : Option (MountPoint × List ℕ) → ℕ
weight none = 0
weight (some (m, r)) = length m.virtual_path

better-below :
    (n : ℕ) (m : MountPoint) (o : Option (List ℕ)) (best : Option (MountPoint × List ℕ))
    → weight best < n
    → (o ≡ none) ⊎ (length m.virtual_path < n)
    → weight (better m o best) < n
unfolding better weight
better-below n m none best small below = small
better-below n m (some r) best small (inl e) = cc e
better-below n m (some r) none small (inr lt) = lt
better-below n m (some r) (some (b, t)) small (inr lt) =
    elim (Bool-cases (ltb (length b.virtual_path) (length m.virtual_path))) [
      | inl e ↦ rw e lt
      | inr e ↦ rw e small
    ]

-- The best so far stays below a length, where all that match do.
best_match-below :
    (path : List ℕ) (n : ℕ) (best : Option (MountPoint × List ℕ)) (ms more : List MountPoint)
    → weight best < n
    → AllBelow path n ms
    → (b : Option (MountPoint × List ℕ)) × (weight b < n)
      × (best_match path best (ms ++ more) ≡ best_match path b more)
unfolding best_match
best_match-below path n best [] more small below = (best, small, refl)
best_match-below path n best (m ∷ ms) more small (here, below) =
    best_match-below path n (better m (matched path m) best) ms more
      (better-below n m (matched path m) best small here) below

better_longer :
    (m : MountPoint) (r : List ℕ) (best : Option (MountPoint × List ℕ))
    → weight best < length m.virtual_path
    → better m (some r) best ≡ some (m, r)
unfolding better weight
better_longer m r none longer = refl
better_longer m r (some (b, t)) longer =
    let more : ltb (length b.virtual_path) (length m.virtual_path) ≡ true = ground arith in
    rw more refl

better_shorter :
    (m : MountPoint) (o : Option (List ℕ)) (b : MountPoint) (t : List ℕ)
    → (o ≡ none) ⊎ (length m.virtual_path < length b.virtual_path)
    → better m o (some (b, t)) ≡ some (b, t)
unfolding better
better_shorter m none b t below = refl
better_shorter m (some r) b t (inl e) = cc e
better_shorter m (some r) b t (inr lt) =
    let less : ltb (length b.virtual_path) (length m.virtual_path) ≡ false = ground arith in
    rw less refl

best_match-kept :
    (path : List ℕ) (b : MountPoint) (t : List ℕ) (ms : List MountPoint)
    → AllBelow path (length b.virtual_path) ms
    → best_match path (some (b, t)) ms ≡ some (b, t)
unfolding best_match
best_match-kept path b t [] below = refl
best_match-kept path b t (m ∷ ms) (here, below) =
    ap (λ o. best_match path o ms) (better_shorter m (matched path m) b t here)
    ∙ best_match-kept path b t ms below

-- The best match is the one mount point that is longer than all others that match.
best_match-longest_one :
    (path : List ℕ) (n : MountPoint) (s : List ℕ) (front back : List MountPoint)
    → matched path n ≡ some s
    → 0 < length n.virtual_path
    → AllBelow path (length n.virtual_path) front
    → AllBelow path (length n.virtual_path) back
    → best_match path none (front ++ (n ∷ back)) ≡ some (n, s)
unfolding best_match weight
best_match-longest_one path n s front back e named before after =
    let (b, small, reach) =
      best_match-below path (length n.virtual_path) none front (n ∷ back) named before in
    reach
    ∙ ap (λ o. best_match path (better n o b) back) e
    ∙ ap (λ o. best_match path o back) (better_longer n s b small)
    ∙ best_match-kept path n s back after

NoneMatch-AllBelow :
    (path : List ℕ) (n : ℕ) (xs ys : List MountPoint)
    → NoneMatch path xs
    → AllBelow path n ys
    → AllBelow path n (xs ++ ys)
NoneMatch-AllBelow path n [] ys clear below = below
NoneMatch-AllBelow path n (x ∷ xs) ys (absent, clear) below =
    (inl absent, NoneMatch-AllBelow path n xs ys clear below)

allowed :
    (path : List ℕ) (write_access : Bool) (v : Mounts)
    → 0 < length path
    → length path < path_max
    → length v.mounts ≤ max_mounts
    → ember_vfs_check_access path write_access v ≡ first_allows path write_access v.mounts
unfolding ember_vfs_check_access
allowed path write_access v some_path short few =
    let a : length path == 0 ≡ false = ground arith in
    let b : leb path_max (length path) ≡ false = ground arith in
    let c : ltb max_mounts (length v.mounts) ≡ false = ground arith in rw (a, b, c) refl

-- In any table of mount points within the limits: where a first mount point matches a path and a
-- later one, with a longer virtual path than every other match, matches it too,
-- `ember_vfs_check_access` answers a write by the flags of the first, and the loop of
-- `ember_vfs_resolve` chooses the later one.
pub access_diverges :
    (path : List ℕ) (v : Mounts) (before between back : List MountPoint) (m n : MountPoint)
    (r s : List ℕ)
    → 0 < length path
    → length path < path_max
    → length v.mounts ≤ max_mounts
    → v.mounts ≡ before ++ (m ∷ between) ++ (n ∷ back)
    → NoneMatch path before
    → matched path m ≡ some r
    → matched path n ≡ some s
    → length m.virtual_path < length n.virtual_path
    → AllBelow path (length n.virtual_path) between
    → AllBelow path (length n.virtual_path) back
    → (ember_vfs_check_access path true v ≡ not (is_read_only m))
      × (best_match path none v.mounts ≡ some (n, s))
access_diverges path v before between back m n r s some_path short few split clear at_m at_n longer
      mid after =
    let front =
      NoneMatch-AllBelow path (length n.virtual_path) before (m ∷ between) clear
        (inr longer, mid) in
    (
      allowed path true v some_path short few
          ∙ ap (first_allows path true) (split ∙ append_assoc before (m ∷ between) (n ∷ back))
          ∙ first_allows-first path true before m (between ++ (n ∷ back)) r clear at_m,
      ap (best_match path none) split
          ∙ best_match-longest_one path n s (before ++ (m ∷ between)) back at_n (omega arith) front
              after,
    )
