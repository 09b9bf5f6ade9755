-- ===== src/Vfs/Startup.antt =====
-- `ember_vfs_init` of src/runtime/vfs/vfs.c: the default mounts and those of EMBER_MOUNTS. The answers
-- of `getcwd` and `getenv` are inputs.
use ember_core.Common.{
  ℕ, ◌+◌, Bool, not, Option, none, some, List, [], ◌∷◌, ◌++◌, length, codes, ◌==◌, inl, inr,
  Bool-cases, Option-cases, if◌then◌else◌, same_text, arith,
}
use ember_core.Vfs.Mounting.{IsMounts, Mounted, refused, done, mount-Mounted}
use ember_core.Vfs.{Mounts, Host, mount_rw, mount_ro, ember_vfs_mount}

pub record Environment : Type 0 where
  pub cwd : Option (List ℕ)
  pub tmpdir : Option (List ℕ)
  pub ember_mounts : Option (List ℕ)

-- `strtok` with ",", with the part of a token that is read: empty tokens are passed over
unfoldable pub tokens : List ℕ → List ℕ → List (List ℕ)
tokens [] [] = []
tokens token [] = token ∷ []
tokens [] (c ∷ cs) =
    let skipped = tokens [] cs in
    let started = tokens (c ∷ []) cs in if c == 44 then skipped else started
tokens (t ∷ token) (c ∷ cs) =
    let ended = tokens [] cs in
    let onward = tokens ((t ∷ token) ++ (c ∷ [])) cs in
    if c == 44 then (t ∷ token) ∷ ended else onward

-- `strchr` with a NUL written over the character: what is before it and after it
unfoldable pub split_at : ℕ → List ℕ → Option (List ℕ × List ℕ)
split_at c [] = none
split_at c (d ∷ cs) =
    let rest = split_at c cs in
    if d == c
    then some ([], cs)
    else (elim rest [ none ↦ none | some (before, after) ↦ some (d ∷ before, after) ])

-- one token, "/virtual:/host" or "/virtual:/host:ro"
unfoldable pub mount_token : Host → List ℕ → Mounts → Mounts
unfolding split_at
mount_token host token v = elim (split_at 58 token) [
  | none ↦ v
  | some (virtual_path, host_part) ↦ elim (split_at 58 host_part) [
    | none ↦ (ember_vfs_mount host virtual_path host_part mount_rw v).1
    | some (host_path, mode) ↦
        (ember_vfs_mount host virtual_path host_path
          (if same_text mode (codes "ro") then mount_ro else mount_rw) v).1
  ]
]

unfoldable pub mount_tokens : Host → List (List ℕ) → Mounts → Mounts
unfolding mount_token
mount_tokens host [] v = v
mount_tokens host (t ∷ ts) v = mount_tokens host ts (mount_token host t v)

abbrev pub no_mounts : Mounts
no_mounts = record { mounts = []; mount_capacity = 0 }

-- the working directory at /app
unfoldable pub mount_app : Host → Option (List ℕ) → Mounts
mount_app host none = no_mounts
mount_app host (some cwd) = (ember_vfs_mount host (codes "/app") cwd mount_rw no_mounts).1

-- TMPDIR, or the default
abbrev pub tmp_path : Option (List ℕ) → List ℕ
tmp_path none = codes "/tmp"
tmp_path (some dir) = dir

-- the mounts that EMBER_MOUNTS lists
unfoldable pub mount_listed : Host → Option (List ℕ) → Mounts → Mounts
unfolding tokens mount_tokens
mount_listed host none v = v
mount_listed host (some list) v =
    if not (host.malloc (length list + 1)) then v else mount_tokens host (tokens [] list) v

unfoldable pub ember_vfs_init : Host → Environment → Mounts
unfolding mount_app mount_listed
ember_vfs_init host env =
    mount_listed host env.ember_mounts
      (ember_vfs_mount host (codes "/tmp") (tmp_path env.tmpdir) mount_rw
        (mount_app host env.cwd)).1

mounted-IsMounts :
    (host : Host) (path host_path : List ℕ) (flags : ℕ) (v : Mounts)
    → IsMounts v
    → IsMounts (ember_vfs_mount host path host_path flags v).1
mounted-IsMounts host path host_path flags v valid =
    table_of _ (mount-Mounted host path host_path flags v valid)
  where
    table_of : (r : Bool × Mounts) → Mounted host path host_path flags v r → IsMounts r.1
    table_of _ (refused valid' same) = valid'
    table_of _ (done e absolute valid' look) = valid'

mount_token-IsMounts :
    (host : Host) (token : List ℕ) (v : Mounts) → IsMounts v → IsMounts (mount_token host token v)
unfolding mount_token
mount_token-IsMounts host token v valid = elim (Option-cases (split_at 58 token)) [
  | inl e ↦ rw (e, mount_token) valid
  | inr ((path, part), e) ↦ elim (Option-cases (split_at 58 part)) [
    | inl f ↦ rw (e, f, mount_token) (mounted-IsMounts host path part mount_rw v valid)
    | inr ((host_path, mode), f) ↦
        rw (e, f, mount_token) (mounted-IsMounts host path host_path _ v valid)
  ]
]

mount_tokens-IsMounts :
    (host : Host) (ts : List (List ℕ)) (v : Mounts) → IsMounts v → IsMounts (mount_tokens host ts v)
unfolding mount_tokens
mount_tokens-IsMounts host [] v valid = valid
mount_tokens-IsMounts host (t ∷ ts) v valid =
    mount_tokens-IsMounts host ts (mount_token host t v) (mount_token-IsMounts host t v valid)

no_mounts-IsMounts : IsMounts no_mounts
no_mounts-IsMounts = record { distinct = tt; within = omega arith; bounded = omega arith }

mount_app-IsMounts : (host : Host) (cwd : Option (List ℕ)) → IsMounts (mount_app host cwd)
unfolding mount_app
mount_app-IsMounts host none = no_mounts-IsMounts
mount_app-IsMounts host (some cwd) =
    mounted-IsMounts host (codes "/app") cwd mount_rw no_mounts no_mounts-IsMounts

mount_listed-IsMounts :
    (host : Host) (list : Option (List ℕ)) (v : Mounts)
    → IsMounts v
    → IsMounts (mount_listed host list v)
unfolding mount_listed
mount_listed-IsMounts host none v valid = valid
mount_listed-IsMounts host (some list) v valid = elim (Bool-cases (host.malloc (length list + 1))) [
  | inr f ↦ rw f valid
  | inl f ↦ rw f (mount_tokens-IsMounts host (tokens [] list) v valid)
]

-- After `ember_vfs_init`, whatever the environment holds, no virtual path is mounted twice, and the
-- mount points are within the capacity and the capacity within EMBER_MAX_MOUNTS.
pub init-IsMounts : (host : Host) (env : Environment) → IsMounts (ember_vfs_init host env)
unfolding ember_vfs_init
init-IsMounts host env = mount_listed-IsMounts host env.ember_mounts _ (
    mounted-IsMounts host (codes "/tmp") (tmp_path env.tmpdir) mount_rw _
      (mount_app-IsMounts host env.cwd))
