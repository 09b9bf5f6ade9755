-- ===== src/Vfs/Paths.antt =====
-- The paths of src/runtime/vfs/vfs.c: `is_safe_path_component`, `ember_vfs_resolve` and
-- `ember_vfs_check_access`. A path that passes the first guard is shorter than PATH_MAX, so the guards
-- on the differences of pointers into it cannot fail and are left out.
use ember_core.Common.{
  ℕ, ◌+◌, ◌-◌, ◌/◌, ◌%◌, Bool, true, false, not, ◌&&◌, ◌||◌, Option, none, some, List, [], ◌∷◌,
  ◌++◌, ltb, leb, ◌==◌, length, is_some, if◌then◌else◌, same_text, after_prefix,
}
use ember_core.Vfs.{MountPoint, Mounts, Host, path_max, size_limit, max_mounts, slash}

-- the loop over the characters of a component
unfoldable pub no_control : List ℕ → Bool
no_control [] = true
no_control (c ∷ cs) = not (ltb c 32 && not (c == 9)) && no_control cs

unfoldable pub is_safe_path_component : List ℕ → Bool
unfolding no_control
is_safe_path_component [] = false
is_safe_path_component component =
    not (ltb path_max (length component))
    && not (same_text component (46 ∷ []))
    && not (same_text component (46 ∷ 46 ∷ []))
    && no_control component

-- The loop of `ember_vfs_resolve` over the components, with the part of a component that is read. It
-- ends where a component would start at the NUL.
unfoldable pub components_safe : List ℕ → List ℕ → Bool
unfolding is_safe_path_component
components_safe [] [] = true
components_safe component [] = is_safe_path_component component
components_safe component (c ∷ cs) =
    let onward = components_safe (component ++ (c ∷ [])) cs in
    let next = components_safe [] cs in
    if c == slash then is_safe_path_component component && next else onward

-- the last character is a slash
abbrev pub ends_in_slash : List ℕ → Bool
ends_in_slash [] = false
ends_in_slash (c ∷ []) = c == slash
ends_in_slash (c ∷ d ∷ cs) = ends_in_slash (d ∷ cs)

-- the end of a component, or of the path
abbrev pub at_boundary : List ℕ → Bool
at_boundary [] = true
at_boundary (c ∷ cs) = c == slash

-- `flags & EMBER_MOUNT_RO`
abbrev pub is_read_only : MountPoint → Bool
is_read_only m = (m.flags / 2) % 2 == 1

-- what follows the virtual path of a mount point, at the end of a component
unfoldable pub matched : List ℕ → MountPoint → Option (List ℕ)
matched path m =
    if length m.virtual_path == 0 then none else (elim (after_prefix m.virtual_path path) [
      | none ↦ none
      | some rest ↦ if at_boundary rest || ends_in_slash m.virtual_path then some rest else none
    ])

-- `mount_len > best_len`, on a match with what follows it
unfoldable pub better :
    MountPoint → Option (List ℕ) → Option (MountPoint × List ℕ) → Option (MountPoint × List ℕ)
better m none best = best
better m (some rest) none = some (m, rest)
better m (some rest) (some (b, r)) =
    if ltb (length b.virtual_path) (length m.virtual_path) then some (m, rest) else some (b, r)

-- the loop for the longest match, with the best so far and what follows it
unfoldable pub best_match :
    List ℕ → Option (MountPoint × List ℕ) → List MountPoint → Option (MountPoint × List ℕ)
unfolding matched better
best_match path best [] = best
best_match path best (m ∷ ms) = best_match path (better m (matched path m) best) ms

-- one leading slash of the relative part is skipped
abbrev pub skip_slash : List ℕ → List ℕ
skip_slash [] = []
skip_slash (c ∷ cs) = if c == slash then cs else c ∷ cs

-- the host path with a slash after it, where it needs one, in a buffer of a given size
unfoldable pub with_slash : ℕ → List ℕ → Option (List ℕ)
with_slash total host_path =
    if ltb 0 (length host_path) && not (ends_in_slash host_path)
    then (if leb (total - 1) (length host_path) then none else some (host_path ++ (slash ∷ [])))
    else some host_path

-- the path built in the buffer; `none` where a guard on the buffer fails
unfoldable pub build : ℕ → List ℕ → List ℕ → Option (List ℕ)
unfolding with_slash
build total host_path [] = if leb total (length host_path) then none else some host_path
build total host_path relative = elim (with_slash total host_path) [
  | none ↦ none
  | some base ↦ if leb total (length base + length relative) then none else some (base ++ relative)
]

-- `strncmp(path, host_path, strlen(host_path)) == 0`
abbrev pub is_within : List ℕ → List ℕ → Bool
is_within host_path path = is_some (after_prefix host_path path)

-- the final validation, on the answer of `realpath`
unfoldable pub confirm : Host → MountPoint → List ℕ → Option (List ℕ) → Option (List ℕ)
confirm host m resolved none = if is_within m.host_path resolved then some resolved else none
confirm host m resolved (some final) =
    if not (is_within m.host_path final)
    then none
    else if host.malloc (length final + 1)
    then some final
    else none

-- on the path built
unfoldable pub confirm_built : Host → MountPoint → Option (List ℕ) → Option (List ℕ)
unfolding confirm
confirm_built host m none = none
confirm_built host m (some resolved) = confirm host m resolved (host.realpath resolved)

-- the rest of `ember_vfs_resolve`, under the mount point chosen
unfoldable pub resolve_under : Host → MountPoint → List ℕ → Option (List ℕ)
unfolding build confirm_built
resolve_under host m relative =
    let host_len = length m.host_path in
    let relative_len = length relative in
    let total_len = host_len + relative_len + 2 in
    if ltb path_max host_len || ltb path_max relative_len
    then none
    else if ltb (size_limit - relative_len - 2) host_len
    then none
    else if ltb path_max total_len
    then none
    else if not (host.malloc total_len)
    then none
    else confirm_built host m (build total_len m.host_path relative)

-- the path is validated before a mount point is looked for
unfoldable pub is_valid_path : List ℕ → Bool
unfolding components_safe
is_valid_path [] = false
is_valid_path (c ∷ cs) = not (leb path_max (length (c ∷ cs))) && c == slash && components_safe [] cs

-- on the best match
unfoldable pub resolve_best : Host → Option (MountPoint × List ℕ) → Option (List ℕ)
unfolding resolve_under
resolve_best host none = none
resolve_best host (some (m, rest)) = resolve_under host m (skip_slash rest)

unfoldable pub ember_vfs_resolve : Host → List ℕ → Mounts → Option (List ℕ)
unfolding is_valid_path best_match resolve_best
ember_vfs_resolve host path v =
    if not (is_valid_path path) || ltb max_mounts (length v.mounts)
    then none
    else resolve_best host (best_match path none v.mounts)

-- the loop of `ember_vfs_check_access`: the first match answers
unfoldable pub first_allows : List ℕ → Bool → List MountPoint → Bool
unfolding matched
first_allows path write_access [] = false
first_allows path write_access (m ∷ ms) =
    let rest = first_allows path write_access ms in
    if is_some (matched path m) then not (write_access && is_read_only m) else rest

unfoldable pub ember_vfs_check_access : List ℕ → Bool → Mounts → Bool
unfolding first_allows
ember_vfs_check_access path write_access v =
    if length path == 0 || leb path_max (length path)
    then false
    else if ltb max_mounts (length v.mounts)
    then false
    else first_allows path write_access v.mounts
