-- ===== src/Vfs/Complete.antt =====
-- The buffer of `ember_vfs_resolve` of src/runtime/vfs/vfs.c, and the paths that it resolves.
use ember_core.Common.{
  ℕ, ◌+◌, ◌-◌, ◌≤◌, ◌≡◌, inl, inr, true, false, not, ◌&&◌, ◌||◌, none, some, List, [], ◌∷◌, ◌++◌,
  append_assoc, append-nil, length, length-append, ltb, arith, Bool-cases, if◌then◌else◌,
  after_prefix_self,
}
use ember_core.Vfs.Paths.{
  is_valid_path, best_match, skip_slash, build, with_slash, confirm, confirm_built, resolve_best,
  resolve_under, ember_vfs_resolve, ends_in_slash,
}
use ember_core.Vfs.{MountPoint, Mounts, Host, path_max, max_mounts, size_limit, slash}

-- The host path and the relative part, with a slash between them where one is due.
abbrev pub separator : List ℕ → List ℕ → List ℕ
separator host_path [] = []
separator host_path relative =
    if ltb 0 (length host_path) && not (ends_in_slash host_path) then slash ∷ [] else []

abbrev pub joined : List ℕ → List ℕ → List ℕ
joined host_path relative = host_path ++ (separator host_path relative ++ relative)

-- The buffer holds it: no guard on the buffer fails.
build-joined :
    (host_path relative : List ℕ)
    → build (length host_path + length relative + 2) host_path relative
      ≡ some (joined host_path relative)
unfolding build with_slash
build-joined host_path [] = ground (arith, append-nil host_path)
build-joined host_path (c ∷ cs) =
    elim (Bool-cases (ltb 0 (length host_path) && not (ends_in_slash host_path))) [
      | inr e ↦ rw e (ground arith)
      | inl e ↦ ground (
        arith,
        length-append host_path (slash ∷ []),
        append_assoc host_path (slash ∷ []) (c ∷ cs),
      )
    ]

-- A path that `realpath` does not find keeps the host path in front.
confirm_joined :
    (host : Host) (m : MountPoint) (relative : List ℕ)
    → host.realpath (joined m.host_path relative) ≡ none
    → confirm_built host m (some (joined m.host_path relative)) ≡ some (joined m.host_path relative)
unfolding confirm_built confirm
confirm_joined host m relative missing =
    rw (missing, after_prefix_self m.host_path (separator m.host_path relative ++ relative))

-- Where the path is valid, the best match has a host path that leaves room for the rest of the
-- path, memory is granted, and `realpath` does not find the joined path, `ember_vfs_resolve` yields
-- the host path and the rest with one slash between them.
pub resolve-joined :
    (host : Host) (path : List ℕ) (v : Mounts) (m : MountPoint) (rest : List ℕ)
    → is_valid_path path ≡ true
    → length v.mounts ≤ max_mounts
    → best_match path none v.mounts ≡ some (m, rest)
    → length m.host_path + length (skip_slash rest) + 2 ≤ path_max
    → host.malloc (length m.host_path + length (skip_slash rest) + 2) ≡ true
    → host.realpath (joined m.host_path (skip_slash rest)) ≡ none
    → ember_vfs_resolve host path v ≡ some (joined m.host_path (skip_slash rest))
unfolding ember_vfs_resolve resolve_best resolve_under
resolve-joined host path v m rest valid few best fits granted missing =
    let relative = skip_slash rest in
    let many : ltb max_mounts (length v.mounts) ≡ false = ground arith in
    let a : ltb path_max (length m.host_path) || ltb path_max (length relative) ≡ false =
      ground arith in
    let b : ltb (size_limit - length relative - 2) (length m.host_path) ≡ false = ground arith in
    let c : ltb path_max (length m.host_path + length relative + 2) ≡ false = ground arith in
    rw
      (
        valid,
        many,
        best,
        resolve_best,
        resolve_under,
        a,
        b,
        c,
        granted,
        build-joined m.host_path relative,
      )
      (confirm_joined host m relative missing)
