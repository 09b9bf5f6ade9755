-- ===== src/Tests/Mounts.antt =====
-- The virtual file system with a few mount points.
use ember_core.Common.{
  not, inl, ℕ, ◌≡◌, refl, true, none, some, List, [], ◌∷◌, arith, codes, is_some, if◌then◌else◌,
  same_text, after_prefix,
}
use ember_core.Vfs.Access.{access_diverges}
use ember_core.Vfs.Complete.{joined, resolve-joined}
use ember_core.Vfs.Confined.{Resolved, resolve-Resolved}
use ember_core.Vfs.Mounting.{IsMounts, Mounted, mount-Mounted, unmount-mount_at}
use ember_core.Vfs.Paths.{
  matched, best_match, is_read_only, is_valid_path, ember_vfs_resolve, ember_vfs_check_access,
}
use ember_core.Vfs.Startup.{Environment, ember_vfs_init, init-IsMounts}
use ember_core.Vfs.Table.{mount_at}
use ember_core.Vfs.{Mounts, MountPoint, Host, ember_vfs_mount, ember_vfs_unmount, mount_ro}

-- A system on which every path is found, and only that of /srv is resolved.
abbrev host : Host
host = record {
  stat = λ p. true;
  realpath = λ p. if same_text p (codes "/srv") then some (codes "/srv") else none;
  malloc = λ n. true;
  realloc = λ n. true;
}

abbrev app : MountPoint
app = record { virtual_path = codes "/app"; host_path = codes "/srv"; flags = 1 }

abbrev app_lib : MountPoint
app_lib = record { virtual_path = codes "/app/lib"; host_path = codes "/lib"; flags = 2 }

abbrev two_mounts : MountPoint → MountPoint → Mounts
two_mounts m n = record { mounts = m ∷ n ∷ []; mount_capacity = 8 }

abbrev shared : MountPoint
shared = record { virtual_path = codes "/shared"; host_path = codes "/srv"; flags = 2 }

-- /shared does not match, /app matches first, and /app/lib is the longest
abbrev four_mounts : Mounts
four_mounts = record { mounts = shared ∷ app ∷ shared ∷ app_lib ∷ []; mount_capacity = 8 }

abbrev environment : Environment
environment = record {
  cwd = some (codes "/srv");
  tmpdir = none;
  ember_mounts = some (codes "/lib:/srv:ro,/x");
}

two_mounts-IsMounts : IsMounts (two_mounts app app_lib)
unfolding mount_at same_text
two_mounts-IsMounts = record {
  distinct = (refl, (refl, tt));
  within = omega arith;
  bounded = omega arith;
}

valid : is_valid_path (codes "/app/a") ≡ true
unfolding is_valid_path same_text
valid = refl

missing : host.realpath (joined (codes "/srv") (codes "a")) ≡ none
unfolding same_text
missing = refl

found : ember_vfs_resolve host (codes "/app/lib/a") (two_mounts app app_lib) ≡ some (codes "/lib/a")
unfolding ember_vfs_resolve same_text after_prefix
found = refl

at_app : matched (codes "/app/lib/a") app ≡ some (codes "/lib/a")
unfolding matched after_prefix
at_app = refl

at_lib : matched (codes "/app/lib/a") app_lib ≡ some (codes "/a")
unfolding matched after_prefix
at_lib = refl

startup : ember_vfs_init host environment ≡ record {
  mounts =
      record app { virtual_path = codes "/app" }
      ∷ record { virtual_path = codes "/lib"; host_path = codes "/srv"; flags = 2 }
      ∷ [];
  mount_capacity = 8;
}
unfolding ember_vfs_init ember_vfs_mount same_text
startup = refl

init-IsMounts_example : IsMounts (ember_vfs_init host environment)
init-IsMounts_example = init-IsMounts host environment

mount-Mounted_example :
    Mounted host
      (codes "/app")
      (codes "/srv")
      mount_ro
      (two_mounts app app_lib)
      (ember_vfs_mount host (codes "/app") (codes "/srv") mount_ro (two_mounts app app_lib))
mount-Mounted_example =
    mount-Mounted host (codes "/app") (codes "/srv") mount_ro (two_mounts app app_lib)
      two_mounts-IsMounts

unmount-mount_at_example :
    ((ember_vfs_unmount (codes "/app") (two_mounts app app_lib)).0
      ≡ is_some (mount_at (codes "/app") (two_mounts app app_lib).mounts))
    × IsMounts (ember_vfs_unmount (codes "/app") (two_mounts app app_lib)).1
    × ((q : List ℕ)
        → mount_at q (ember_vfs_unmount (codes "/app") (two_mounts app app_lib)).1.mounts ≡ (
            if same_text (codes "/app") q
            then none
            else mount_at q (two_mounts app app_lib).mounts))
unmount-mount_at_example =
    unmount-mount_at (codes "/app") (two_mounts app app_lib) two_mounts-IsMounts

resolve-Resolved_example : Resolved (codes "/app/lib/a") (two_mounts app app_lib) (codes "/lib/a")
resolve-Resolved_example =
    resolve-Resolved host (codes "/app/lib/a") (two_mounts app app_lib) (codes "/lib/a") found

best : best_match (codes "/app/a") none (two_mounts app app_lib).mounts ≡ some (app, codes "/a")
unfolding best_match after_prefix
best = refl

resolve-joined_example :
    ember_vfs_resolve host (codes "/app/a") (two_mounts app app_lib)
    ≡ some (joined (codes "/srv") (codes "a"))
resolve-joined_example =
    resolve-joined host (codes "/app/a") (two_mounts app app_lib) app (codes "/a") valid
      (omega arith) best (omega arith) refl missing

at_shared : matched (codes "/app/lib/a") shared ≡ none
unfolding matched after_prefix
at_shared = refl

access_diverges_example :
    (ember_vfs_check_access (codes "/app/lib/a") true four_mounts ≡ not (is_read_only app))
    × (best_match (codes "/app/lib/a") none four_mounts.mounts ≡ some (app_lib, codes "/a"))
access_diverges_example =
    access_diverges (codes "/app/lib/a") four_mounts (shared ∷ []) (shared ∷ []) [] app app_lib
      (codes "/lib/a") (codes "/a") (omega arith) (omega arith) (omega arith) refl (at_shared, tt)
      at_app at_lib (omega arith) (inl at_shared, tt) tt
