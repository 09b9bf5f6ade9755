-- ===== src/Vfs.antt =====
-- The virtual file system of src/runtime/vfs/vfs.c, with `ember_mount_point` of include/ember.h. The
-- array of mount points is the list of its first `mount_count` entries. `stat`, `realpath`, `malloc`
-- and `realloc` are a parameter, and so are the environment and the working directory. A null machine
-- or path is outside the model, and the pointers of a mount point in the list are never null.
pub mod Paths
pub mod Startup
pub mod Table
pub mod Removal
pub mod Mounting
pub mod Confined
pub mod Complete
pub mod Access
use ember_core.Common.{
  ℕ, zero, suc, ◌+◌, ◌-◌, ◌*◌, ◌^◌, Bool, true, false, not, ◌&&◌, ◌||◌, Option, none, some, List,
  [], ◌∷◌, ◌++◌, ltb, leb, ◌==◌, length, if◌then◌else◌, same_text, after_prefix,
}

pub record MountPoint : Type 0 where
  pub virtual_path : List ℕ
  pub host_path : List ℕ
  pub flags : ℕ

pub record Mounts : Type 0 where
  pub mounts : List MountPoint
  pub mount_capacity : ℕ

-- what the code asks of the system
pub record Host : Type 0 where
  pub stat : List ℕ → Bool
  pub realpath : List ℕ → Option (List ℕ)
  pub malloc : ℕ → Bool
  pub realloc : ℕ → Bool

abbrev pub mount_rw : ℕ
mount_rw = 1

abbrev pub mount_ro : ℕ
mount_ro = 2

abbrev pub max_mounts : ℕ
max_mounts = 32

abbrev pub path_max : ℕ
path_max = 4096

abbrev pub size_limit : ℕ
size_limit = 2 ^ 64 - 1

-- sizeof(ember_mount_point)
abbrev pub mount_size : ℕ
mount_size = 24

abbrev pub slash : ℕ
slash = 47

-- `path[0] == '/'`
abbrev pub is_absolute : List ℕ → Bool
is_absolute [] = false
is_absolute (c ∷ cs) = c == slash

-- room for one more entry, or NULL
unfoldable pub expand : Host → Mounts → Option Mounts
expand host v =
    let new_capacity = if v.mount_capacity == 0 then 8 else v.mount_capacity * 2 in
    if ltb (length v.mounts) v.mount_capacity
    then some v
    else if ltb max_mounts new_capacity
    then none
    else if host.realloc (new_capacity * mount_size)
    then some (record v { mount_capacity = new_capacity })
    else none

-- the entry of a virtual path replaced, where there is one
unfoldable pub replace : MountPoint → List MountPoint → Option (List MountPoint)
replace new [] = none
replace new (m ∷ ms) =
    let rest = replace new ms in
    if same_text m.virtual_path new.virtual_path
    then some (new ∷ ms)
    else (elim rest [ none ↦ none | some replaced ↦ some (m ∷ replaced) ])

-- the two copies of `ember_vfs_mount` are allocated
abbrev pub copies : Host → MountPoint → Bool
copies host new =
    host.malloc (length new.virtual_path + 1) && host.malloc (length new.host_path + 1)

-- the rest of `ember_vfs_mount`, on an array with room; the result is whether it returns 0
unfoldable pub place : Host → MountPoint → Mounts → Bool × Mounts
unfolding replace
place host new v = elim (replace new v.mounts) [
  | some replaced ↦ if copies host new then (true, record v { mounts = replaced }) else (false, v)
  | none ↦
      if copies host new then (true, record v { mounts = v.mounts ++ (new ∷ []) }) else (false, v)
]

unfoldable pub ember_vfs_mount : Host → List ℕ → List ℕ → ℕ → Mounts → Bool × Mounts
unfolding expand place
ember_vfs_mount host virtual_path host_path flags v =
    if not (host.stat host_path) then (false, v) else (elim (host.realpath host_path) [
      | none ↦ (false, v)
      | some resolved ↦
          let new : MountPoint = record {
            virtual_path = virtual_path;
            host_path = resolved;
            flags = flags;
          } in
          if not (is_absolute virtual_path)
          then (false, v)
          else (elim (expand host v) [ none ↦ (false, v) | some w ↦ place host new w ])
    ])

-- the last entry of a list, with those before it
unfoldable pub last_mount : MountPoint → List MountPoint → List MountPoint × MountPoint
last_mount m [] = ([], m)
last_mount m (n ∷ ns) = let (before, last) = last_mount n ns in (m ∷ before, last)

-- the entries after a removed one, with the last of them moved to its place
unfoldable pub move_last : List MountPoint → List MountPoint
unfolding last_mount
move_last [] = []
move_last (n ∷ ns) = let (before, last) = last_mount n ns in last ∷ before

-- the entry of a virtual path removed
unfoldable pub remove : List ℕ → List MountPoint → Option (List MountPoint)
unfolding move_last
remove path [] = none
remove path (m ∷ ms) =
    let rest = remove path ms in
    if same_text m.virtual_path path
    then some (move_last ms)
    else (elim rest [ none ↦ none | some removed ↦ some (m ∷ removed) ])

unfoldable pub ember_vfs_unmount : List ℕ → Mounts → Bool × Mounts
unfolding remove
ember_vfs_unmount path v = elim (remove path v.mounts) [
  | none ↦ (false, v)
  | some removed ↦ (true, record v { mounts = removed })
]

abbrev pub ember_vfs_cleanup : Mounts → Mounts
ember_vfs_cleanup v = record { mounts = []; mount_capacity = 0 }
