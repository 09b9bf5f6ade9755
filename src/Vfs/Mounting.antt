-- ===== src/Vfs/Mounting.antt =====
-- `ember_vfs_mount` and `ember_vfs_unmount` against the table from virtual paths.
use ember_core.Common.{
  ℕ, ◌*◌, ◌≤◌, ◌<◌, ◌≡◌, refl, sym, ap, ◌∙◌, inl, inr, Bool, true, false, none, some, List, [], ◌∷◌,
  length, length-append, ltb, ◌==◌, arith, Bool-cases, Option-cases, some_inj, is_some,
  if◌then◌else◌, same_text,
}
use ember_core.Vfs.Removal.{remove-none, remove-some, remove-Removed}
use ember_core.Vfs.Table.{
  mount_at, Distinct, replace-some, replace-none, Distinct-replace, mount_at-append,
  Distinct-append, mount_at_congr,
}
use ember_core.Vfs.{
  MountPoint, Mounts, Host, max_mounts, mount_size, expand, replace, place, copies, remove,
  is_absolute, ember_vfs_mount, ember_vfs_unmount,
}

-- No path is mounted twice, and the array is within its capacity.
pub record IsMounts (v : Mounts) : Type 0 where
  pub distinct : Distinct v.mounts
  pub within : length v.mounts ≤ v.mount_capacity
  pub bounded : v.mount_capacity ≤ max_mounts

-- Room for one more: the same entries in an array that may be larger.
expand-IsMounts :
    (host : Host) (v : Mounts) {w : Mounts}
    → IsMounts v
    → expand host v ≡ some w
    → (w.mounts ≡ v.mounts) × IsMounts w × (length w.mounts < w.mount_capacity)
unfolding expand
expand-IsMounts host v valid h =
    let next = if v.mount_capacity == 0 then 8 else v.mount_capacity * 2 in
    elim (Bool-cases (ltb (length v.mounts) v.mount_capacity)) [
      | inl room ↦ rw (← some_inj (rw room at h)) (refl, valid, ground arith)
      | inr full ↦ elim (Bool-cases (ltb max_mounts next)) [
        | inl many ↦ cc (rw (full, many) at h)
        | inr few ↦ elim (Bool-cases (host.realloc (next * mount_size))) [
          | inr denied ↦ cc (rw (full, few, denied) at h)
          | inl granted ↦ rw (← some_inj (rw (full, few, granted) at h)) (
            refl,
            record {
              distinct = valid.distinct;
              within = ground (arith, valid.within);
              bounded = ground arith;
            },
            ground (arith, valid.within),
          )
        ]
      ]
    ]

-- Either the table is as it was, or it has the new mount point at its path.
pub data Placed (new : MountPoint) (v : Mounts) : Bool × Mounts → Type 0 where
  kept : {w : Mounts} → IsMounts w → w.mounts ≡ v.mounts → Placed new v (false, w)
  mounted :
      {w : Mounts}
      → IsMounts w
      → ((q : List ℕ)
          → mount_at q w.mounts
            ≡ (if same_text new.virtual_path q then some new else mount_at q v.mounts))
      → Placed new v (true, w)

place-Placed :
    (host : Host) (new : MountPoint) (v : Mounts)
    → IsMounts v
    → length v.mounts < v.mount_capacity
    → Placed new v (place host new v)
unfolding place
place-Placed host new v valid room = elim (Option-cases (replace new v.mounts)) [
  | inr (rs, e) ↦
      let (len, look) = replace-some new v.mounts e in
      elim (Bool-cases (copies host new)) [
        | inr denied ↦ rw (e, denied, place) (kept valid refl)
        | inl granted ↦
            rw (e, granted, place)
              (mounted
                (record {
                  distinct = Distinct-replace new v.mounts e valid.distinct;
                  within = omega (arith, len, valid.within);
                  bounded = valid.bounded;
                })
                look)
      ]
  | inl e ↦
      let fresh = replace-none new v.mounts e in
      elim (Bool-cases (copies host new)) [
        | inr denied ↦ rw (e, denied, place) (kept valid refl)
        | inl granted ↦
            rw (e, granted, place)
              (mounted
                (record {
                  distinct = Distinct-append v.mounts new fresh valid.distinct;
                  within = omega (arith, length-append v.mounts (new ∷ []), room);
                  bounded = valid.bounded;
                })
                (λ q. mount_at-append q v.mounts new fresh))
      ]
]

-- What a mount makes of the table: with the resolved host path where it succeeds.
pub data Mounted (host : Host) (path host_path : List ℕ) (flags : ℕ) (v : Mounts)
    : Bool × Mounts → Type 0 where
  refused :
      {w : Mounts}
      → IsMounts w
      → w.mounts ≡ v.mounts
      → Mounted host path host_path flags v (false, w)
  done :
      {w : Mounts} {real : List ℕ}
      → host.realpath host_path ≡ some real
      → is_absolute path ≡ true
      → IsMounts w
      → ((q : List ℕ)
          → mount_at q w.mounts ≡ (
              if same_text path q
              then some (record { virtual_path = path; host_path = real; flags = flags })
              else mount_at q v.mounts))
      → Mounted host path host_path flags v (true, w)

-- On valid mounts, `ember_vfs_mount` either fails and leaves the mount points, or yields valid
-- mounts in which the virtual path, which is absolute, has the resolved host path with the flags
-- and every other path is as before.
pub mount-Mounted :
    (host : Host) (path host_path : List ℕ) (flags : ℕ) (v : Mounts)
    → IsMounts v
    → Mounted host path host_path flags v (ember_vfs_mount host path host_path flags v)
unfolding ember_vfs_mount
mount-Mounted host path host_path flags v valid = elim (Bool-cases (host.stat host_path)) [
  | inr denied ↦ rw denied (refused valid refl)
  | inl there ↦ elim (Option-cases (host.realpath host_path)) [
    | inl e ↦ rw (there, e) (refused valid refl)
    | inr (real, e) ↦ elim (Bool-cases (is_absolute path)) [
      | inr denied ↦ rw (there, e, denied) (refused valid refl)
      | inl absolute ↦ elim (Option-cases (expand host v)) [
        | inl f ↦ rw (there, e, absolute, f) (refused valid refl)
        | inr (w, f) ↦
            let (same, valid', room) = expand-IsMounts host v valid f in
            let new : MountPoint = record {
              virtual_path = path;
              host_path = real;
              flags = flags;
            } in
            rw (there, e, absolute, f)
              (widen real e absolute w same _ (place-Placed host new w valid' room))
      ]
    ]
  ]
]
  where
    widen :
        (real : List ℕ)
        → host.realpath host_path ≡ some real
        → is_absolute path ≡ true
        → (w : Mounts) → w.mounts ≡ v.mounts
        → (r : Bool × Mounts)
        → Placed (record { virtual_path = path; host_path = real; flags = flags }) w r
        → Mounted host path host_path flags v r
    widen real e absolute w same _ (kept valid f) = refused valid (f ∙ same)
    widen real e absolute w same _ (mounted valid look) =
        done e absolute valid (λ q. rw (← same) (look q))

-- On valid mounts, `ember_vfs_unmount` succeeds where the path is mounted, and yields valid mounts
-- in which the path is not mounted and every other path is as before.
pub unmount-mount_at :
    (path : List ℕ) (v : Mounts)
    → IsMounts v
    → ((ember_vfs_unmount path v).0 ≡ is_some (mount_at path v.mounts))
      × IsMounts (ember_vfs_unmount path v).1
      × ((q : List ℕ)
          → mount_at q (ember_vfs_unmount path v).1.mounts
            ≡ (if same_text path q then none else mount_at q v.mounts))
unfolding ember_vfs_unmount
unmount-mount_at path v valid = elim (Option-cases (remove path v.mounts)) [
  | inl e ↦
      let absent = remove-none path v.mounts e in
      rw (e, ember_vfs_unmount)
        (
          sym (ap is_some absent),
          valid,
          λ q. elim (Bool-cases (same_text path q)) [
            | inl s ↦ rw s (sym (mount_at_congr path q v.mounts s) ∙ absent)
            | inr s ↦ rw s
          ],
        )
  | inr (rs, e) ↦
      let r = remove-Removed path v.mounts e valid.distinct in
      rw (e, ember_vfs_unmount)
        (
          sym (remove-some path v.mounts e),
          record {
            distinct = r.distinct;
            within = omega (arith, r.shorter, valid.within);
            bounded = valid.bounded;
          },
          r.reads,
        )
]
