-- ===== src/Vfs/Removal.antt =====
-- The removal of `ember_vfs_unmount`, which moves the last entry.
use ember_core.Common.{
  is_some, ℕ, suc, ◌+◌, true, none, some, List, [], ◌∷◌, length, ◌≡◌, refl, sym, ap, ◌∙◌, inl, inr,
  arith, Bool-cases, Option-cases, some_inj, if◌then◌else◌, same_text,
}
use ember_core.Vfs.Table.{
  mount_at, Distinct, same_text_symm, same_text_meet, mount_at_cons, same_text_congr,
  mount_at_congr,
}
use ember_core.Vfs.{MountPoint, remove, last_mount, move_last}

-- The last entry first, and then the others.
abbrev rotated : MountPoint → List MountPoint → List MountPoint
rotated m ms = let (before, last) = last_mount m ms in last ∷ before

length-rotated : (m : MountPoint) (ms : List MountPoint) → length (rotated m ms) ≡ length (m ∷ ms)
unfolding last_mount
length-rotated m [] = refl
length-rotated m (n ∷ ns) = ap suc (length-rotated n ns)

-- A distinct table reads the same with its last entry first.
rotated-mount_at :
    (m : MountPoint) (ms : List MountPoint)
    → Distinct (m ∷ ms)
    → Distinct (rotated m ms) × ((q : List ℕ) → mount_at q (rotated m ms) ≡ mount_at q (m ∷ ms))
unfolding last_mount mount_at
rotated-mount_at m [] d = (d, λ q. refl)
rotated-mount_at m (n ∷ ns) (fresh, d) =
    let ((fresh', d'), look) = rotated-mount_at n ns d in
    let (before, last) = last_mount n ns in
    let (apart, absent) = mount_at_cons m.virtual_path last before (look m.virtual_path ∙ fresh) in
    (
      (
        ground (arith, same_text_symm m.virtual_path last.virtual_path, apart, fresh'),
        (absent, d'),
      ),
      λ q. ground (arith, look q, apart, same_text_meet last.virtual_path m.virtual_path q),
    )

pub remove-none :
    (path : List ℕ) (ms : List MountPoint) → remove path ms ≡ none → mount_at path ms ≡ none
unfolding remove mount_at
remove-none path [] h = refl
remove-none path (m ∷ ms) h = elim (Bool-cases (same_text m.virtual_path path)) [
  | inl e ↦ cc (rw e at h)
  | inr e ↦ elim (Option-cases (remove path ms)) [
    | inl f ↦ rw e (remove-none path ms f)
    | inr (rs, f) ↦ cc (rw (e, f) at h)
  ]
]

-- What the removal of a path makes of a distinct table.
pub record Removed (path : List ℕ) (ms rs : List MountPoint) : Type 0 where
  pub distinct : Distinct rs
  pub shorter : length rs + 1 ≡ length ms
  pub reads : (q : List ℕ) → mount_at q rs ≡ (if same_text path q then none else mount_at q ms)

-- The first entry removed.
remove_head :
    (path : List ℕ) (m : MountPoint) (ms : List MountPoint)
    → same_text m.virtual_path path ≡ true
    → Distinct (m ∷ ms)
    → Removed path (m ∷ ms) (move_last ms)
unfolding move_last mount_at
remove_head path m [] e d = record {
  distinct = tt;
  shorter = refl;
  reads = λ q. ground (arith, same_text_congr m.virtual_path path q e);
}
remove_head path m (n ∷ ns) e (fresh, d) =
    let (distinct, look) = rotated-mount_at n ns d in
    record {
      distinct = distinct;
      shorter = omega (arith, length-rotated n ns);
      reads = λ q.
          look q
          ∙ ground (
            arith,
            same_text_congr m.virtual_path path q e,
            gone m.virtual_path q (n ∷ ns) fresh,
          );
    }
  where
    gone :
        (a q : List ℕ) (ms : List MountPoint)
        → mount_at a ms ≡ none
        → same_text a q ≡ true
        → mount_at q ms ≡ none
    gone a q ms h e = sym (mount_at_congr a q ms e) ∙ h

pub remove-Removed :
    (path : List ℕ) (ms : List MountPoint) {rs : List MountPoint}
    → remove path ms ≡ some rs
    → Distinct ms
    → Removed path ms rs
unfolding remove mount_at
remove-Removed path [] h d = cc
remove-Removed path (m ∷ ms) h (fresh, d) = elim (Bool-cases (same_text m.virtual_path path)) [
  | inl e ↦ rw (← some_inj (rw e at h)) (remove_head path m ms e (fresh, d))
  | inr e ↦ elim (Option-cases (remove path ms)) [
    | inl f ↦ cc (rw (e, f) at h)
    | inr (rs, f) ↦
        let r = remove-Removed path ms f d in
        rw (← some_inj (rw (e, f) at h)) (record {
          distinct = (r.reads m.virtual_path ∙ ground (arith, fresh), r.distinct);
          shorter = omega (arith, r.shorter);
          reads = λ q. ground (
            arith,
            r.reads q,
            e,
            same_text_symm m.virtual_path path,
            same_text_meet m.virtual_path path q,
          );
        })
  ]
]

pub remove-some :
    (path : List ℕ) (ms : List MountPoint) {rs : List MountPoint}
    → remove path ms ≡ some rs
    → is_some (mount_at path ms) ≡ true
unfolding remove mount_at
remove-some path [] h = cc
remove-some path (m ∷ ms) h = elim (Bool-cases (same_text m.virtual_path path)) [
  | inl e ↦ rw e
  | inr e ↦ elim (Option-cases (remove path ms)) [
    | inl f ↦ cc (rw (e, f) at h)
    | inr (rs, f) ↦ rw e (remove-some path ms f)
  ]
]
