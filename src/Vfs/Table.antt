-- ===== src/Vfs/Table.antt =====
-- The mount points as a table from virtual paths.
use ember_core.Common.{
  ℕ, suc, true, false, Option, none, some, List, [], ◌∷◌, ◌++◌, length, ◌≡◌, refl, sym, ap, ◌∙◌,
  inl, inr, arith, Bool-cases, Option-cases, some_inj, if◌then◌else◌, same_text, same_text_iff,
}
use ember_core.Vfs.{MountPoint, replace}

-- the mount point at a virtual path
unfoldable pub mount_at : List ℕ → List MountPoint → Option MountPoint
mount_at path [] = none
mount_at path (m ∷ ms) =
    let rest = mount_at path ms in if same_text m.virtual_path path then some m else rest

-- No virtual path is mounted twice.
abbrev pub Distinct : List MountPoint → Type 0
Distinct [] = Unit
Distinct (m ∷ ms) = (mount_at m.virtual_path ms ≡ none) × Distinct ms

pub same_text_congr : (a b q : List ℕ) → same_text a b ≡ true → same_text a q ≡ same_text b q
same_text_congr a b q e = rw ((same_text_iff a b).0 e)

pub mount_at_congr :
    (a b : List ℕ) (ms : List MountPoint) → same_text a b ≡ true → mount_at a ms ≡ mount_at b ms
mount_at_congr a b ms e = rw ((same_text_iff a b).0 e)

-- Two paths that are equal to a third are equal.
pub same_text_meet :
    (a b q : List ℕ) → same_text a q ≡ true → same_text b q ≡ true → same_text a b ≡ true
same_text_meet a b q e f =
    (same_text_iff a b).1 ((same_text_iff a q).0 e ∙ sym ((same_text_iff b q).0 f))

pub same_text_symm : (a b : List ℕ) → same_text a b ≡ same_text b a
same_text_symm a b = ground (arith, same_text_iff a b, same_text_iff b a)

-- A path that is not mounted is neither the first one's nor mounted after it.
pub mount_at_cons :
    (q : List ℕ) (m : MountPoint) (ms : List MountPoint)
    → mount_at q (m ∷ ms) ≡ none
    → (same_text m.virtual_path q ≡ false) × (mount_at q ms ≡ none)
unfolding mount_at
mount_at_cons q m ms h = elim (Bool-cases (same_text m.virtual_path q)) [
  | inl e ↦ cc (rw e at h)
  | inr e ↦ (e, rw e at h)
]

-- Where the path is mounted, `replace` puts the new mount point in its place.
pub replace-some :
    (new : MountPoint) (ms : List MountPoint) {rs : List MountPoint}
    → replace new ms ≡ some rs
    → (length rs ≡ length ms)
      × ((q : List ℕ)
          → mount_at q rs ≡ (if same_text new.virtual_path q then some new else mount_at q ms))
unfolding replace mount_at
replace-some new [] h = cc
replace-some new (m ∷ ms) h = elim (Bool-cases (same_text m.virtual_path new.virtual_path)) [
  | inl e ↦
      rw (← some_inj (rw e at h))
        (refl, λ q. ground (arith, same_text_congr m.virtual_path new.virtual_path q e))
  | inr e ↦ elim (Option-cases (replace new ms)) [
    | inl f ↦ cc (rw (e, f) at h)
    | inr (rs, f) ↦
        let (len, look) = replace-some new ms f in
        rw (← some_inj (rw (e, f) at h)) (
          ap suc len,
          λ q. ground (arith, look q, same_text_meet m.virtual_path new.virtual_path q),
        )
  ]
]

-- Where it is not, `replace` finds nothing.
pub replace-none :
    (new : MountPoint) (ms : List MountPoint)
    → replace new ms ≡ none
    → mount_at new.virtual_path ms ≡ none
unfolding replace mount_at
replace-none new [] h = refl
replace-none new (m ∷ ms) h = elim (Bool-cases (same_text m.virtual_path new.virtual_path)) [
  | inl e ↦ cc (rw e at h)
  | inr e ↦ elim (Option-cases (replace new ms)) [
    | inl f ↦ rw e (replace-none new ms f)
    | inr (rs, f) ↦ cc (rw (e, f) at h)
  ]
]

-- A table is distinct when each path is mounted where it stands.
pub Distinct-replace :
    (new : MountPoint) (ms : List MountPoint) {rs : List MountPoint}
    → replace new ms ≡ some rs
    → Distinct ms
    → Distinct rs
unfolding replace
Distinct-replace new [] h d = cc
Distinct-replace new (m ∷ ms) h (fresh, d) =
    elim (Bool-cases (same_text m.virtual_path new.virtual_path)) [
      | inl e ↦
          rw (← some_inj (rw e at h))
            (sym (mount_at_congr m.virtual_path new.virtual_path ms e) ∙ fresh, d)
      | inr e ↦ elim (Option-cases (replace new ms)) [
        | inl f ↦ cc (rw (e, f) at h)
        | inr (rs, f) ↦ rw (← some_inj (rw (e, f) at h)) (
          (replace-some new ms f).1 m.virtual_path
              ∙ ground (arith, fresh, same_text_symm m.virtual_path new.virtual_path),
          Distinct-replace new ms f d,
        )
      ]
    ]

-- A mount point added at the end.
pub mount_at-append :
    (q : List ℕ) (ms : List MountPoint) (new : MountPoint)
    → mount_at new.virtual_path ms ≡ none
    → mount_at q (ms ++ (new ∷ []))
      ≡ (if same_text new.virtual_path q then some new else mount_at q ms)
unfolding mount_at
mount_at-append q [] new h = refl
mount_at-append q (m ∷ ms) new h =
    ground (arith, mount_at-append q ms new, same_text_meet m.virtual_path new.virtual_path q)

pub Distinct-append :
    (ms : List MountPoint) (new : MountPoint)
    → mount_at new.virtual_path ms ≡ none
    → Distinct ms
    → Distinct (ms ++ (new ∷ []))
Distinct-append [] new h d = (unfold mount_at in refl, tt)
Distinct-append (m ∷ ms) new h (fresh, d) =
    let apart = mount_at_cons new.virtual_path m ms h in
    (
      mount_at-append m.virtual_path ms new apart.1
          ∙ ground (arith, apart.0, fresh, same_text_symm m.virtual_path new.virtual_path),
      Distinct-append ms new apart.1 d,
    )
