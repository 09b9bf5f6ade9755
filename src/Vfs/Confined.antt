-- ===== src/Vfs/Confined.antt =====
-- What a path that `ember_vfs_resolve` of src/runtime/vfs/vfs.c resolves is.
use mathlib.Core.Bool.{false≢true}
use mathlib.Core.List.{Memᴰ}
use ember_core.Common.{
  ℕ, ◌+◌, ◌-◌, ◌≤◌, ◌≡◌, ◌≢◌, ◌⊎◌, refl, sym, ap, ◌∙◌, inl, inr, Bool, true, false, not, ◌||◌,
  Option, none, some, List, [], ◌∷◌, ◌++◌, length, ltb, ◌==◌, arith, Bool-cases, Option-cases,
  some_inj, is_some, if◌then◌else◌, same_text, after_prefix, after_prefix-append,
}
use ember_core.Vfs.Paths.{
  is_safe_path_component, components_safe, is_valid_path, matched, at_boundary, better, best_match,
  skip_slash, build, is_within, confirm, confirm_built, resolve_best, resolve_under,
  ember_vfs_resolve, ends_in_slash,
}
use ember_core.Vfs.{MountPoint, Mounts, Host, path_max, max_mounts, size_limit, slash}

-- the component ..
abbrev pub parent : List ℕ
parent = 46 ∷ 46 ∷ []

-- The rest of a path whose components are safe, from any place in it.
components_safe-append :
    (part xs ys : List ℕ)
    → components_safe part (xs ++ ys) ≡ true
    → (part' : List ℕ) × (components_safe part' ys ≡ true)
unfolding components_safe
components_safe-append part [] ys h = (part, h)
components_safe-append [] (x ∷ xs) ys h = elim (Bool-cases (x == slash)) [
  | inl e ↦ components_safe-append [] xs ys (ground (arith, h))
  | inr e ↦ components_safe-append (x ∷ []) xs ys (ground (arith, h))
]
components_safe-append (p ∷ part) (x ∷ xs) ys h = elim (Bool-cases (x == slash)) [
  | inl e ↦ components_safe-append [] xs ys (ground (arith, h))
  | inr e ↦ components_safe-append ((p ∷ part) ++ (x ∷ [])) xs ys (ground (arith, h))
]

-- A slash ends a component, and another one starts.
components_safe-slash :
    (part ys : List ℕ) → components_safe part (slash ∷ ys) ≡ true → components_safe [] ys ≡ true
unfolding components_safe
components_safe-slash [] ys h = ground (arith, h)
components_safe-slash (p ∷ part) ys h = ground (arith, h)

parent_unsafe : (ys : List ℕ) → components_safe [] (parent ++ (slash ∷ ys)) ≡ false
unfolding components_safe is_safe_path_component same_text
parent_unsafe ys = refl

parent_unsafe_end : components_safe [] parent ≡ false
unfolding components_safe is_safe_path_component same_text
parent_unsafe_end = refl

pub valid_path-parent :
    (path a b : List ℕ)
    → is_valid_path path ≡ true
    → (path ≢ a ++ (slash ∷ parent ++ (slash ∷ b))) × (path ≢ a ++ (slash ∷ parent))
unfolding is_valid_path
valid_path-parent [] a b h = cc
valid_path-parent (c ∷ cs) a b h =
    let safe : components_safe [] cs ≡ true = ground (arith, h) in
    (λ e. inside a b cs c safe e, λ e. at_end a cs c safe e)
  where
    tail_of : List ℕ → List ℕ
    tail_of [] = []
    tail_of (x ∷ xs) = xs

    inside :
        (a b cs : List ℕ) (c : ℕ)
        → components_safe [] cs ≡ true
        → c ∷ cs ≡ a ++ (slash ∷ parent ++ (slash ∷ b))
        → ⊥
    inside [] b cs c safe e =
        let same : cs ≡ parent ++ (slash ∷ b) = ap tail_of e in
        false≢true (sym (parent_unsafe b) ∙ (rw same at safe))
    inside (x ∷ a) b cs c safe e =
        let same : cs ≡ a ++ (slash ∷ parent ++ (slash ∷ b)) = ap tail_of e in
        let (part, later) =
          components_safe-append [] a (slash ∷ parent ++ (slash ∷ b)) (rw same at safe) in
        false≢true
          (sym (parent_unsafe b) ∙ components_safe-slash part (parent ++ (slash ∷ b)) later)

    at_end :
        (a cs : List ℕ) (c : ℕ) → components_safe [] cs ≡ true → c ∷ cs ≡ a ++ (slash ∷ parent) → ⊥
    at_end [] cs c safe e =
        let same : cs ≡ parent = ap tail_of e in
        false≢true (sym parent_unsafe_end ∙ (rw same at safe))
    at_end (x ∷ a) cs c safe e =
        let same : cs ≡ a ++ (slash ∷ parent) = ap tail_of e in
        let (part, later) = components_safe-append [] a (slash ∷ parent) (rw same at safe) in
        false≢true (sym parent_unsafe_end ∙ components_safe-slash part parent later)

-- The length of the best match so far.
abbrev weight : Option (MountPoint × List ℕ) → ℕ
weight none = 0
weight (some (m, rest)) = length m.virtual_path

better-weight :
    (m : MountPoint) (o : Option (List ℕ)) (best : Option (MountPoint × List ℕ))
    → (weight best ≤ weight (better m o best))
      × (is_some o ≡ true → length m.virtual_path ≤ weight (better m o best))
unfolding better
better-weight m none best = (omega arith, λ h. cc)
better-weight m (some rest) none = (omega arith, λ h. omega arith)
better-weight m (some rest) (some (b, r)) = (ground arith, λ h. ground arith)

best_match-weight :
    (path : List ℕ) (best : Option (MountPoint × List ℕ)) (ms : List MountPoint)
    → weight best ≤ weight (best_match path best ms)
unfolding best_match
best_match-weight path best [] = omega arith
best_match-weight path best (m ∷ ms) = omega (
  arith,
  (better-weight m (matched path m) best).0,
  best_match-weight path (better m (matched path m) best) ms,
)

-- No match is longer than the best.
best_match-longest :
    (path : List ℕ) (best : Option (MountPoint × List ℕ)) (ms : List MountPoint) (n : MountPoint)
    → Memᴰ n ms
    → is_some (matched path n) ≡ true
    → length n.virtual_path ≤ weight (best_match path best ms)
unfolding best_match
best_match-longest path best [] n i h = elim i [ ]
best_match-longest path best (m ∷ ms) n (Memᴰ.head e) h = omega (
  arith,
  (better-weight m (matched path m) best).1 (ap (λ x. is_some (matched path x)) (sym e) ∙ h),
  best_match-weight path (better m (matched path m) best) ms,
  ap (λ (x : MountPoint). length x.virtual_path) e,
)
best_match-longest path best (m ∷ ms) n (Memᴰ.tail i) h =
    best_match-longest path (better m (matched path m) best) ms n i h

better-cases :
    (m : MountPoint) (o : Option (List ℕ)) (best : Option (MountPoint × List ℕ))
    → (better m o best ≡ best)
      ⊎ ((rest : List ℕ) × (o ≡ some rest) × (better m o best ≡ some (m, rest)))
unfolding better
better-cases m none best = inl refl
better-cases m (some rest) none = inr (rest, refl, refl)
better-cases m (some rest) (some (b, r)) =
    elim (Bool-cases (ltb (length b.virtual_path) (length m.virtual_path))) [
      | inl e ↦ inr (rest, refl, rw e)
      | inr e ↦ inl (rw e)
    ]

-- The best match is one of the list, or the one that the search started with.
best_match-found :
    (path : List ℕ) (best : Option (MountPoint × List ℕ)) (ms : List MountPoint) {m : MountPoint}
    {rest : List ℕ}
    → best_match path best ms ≡ some (m, rest)
    → (best ≡ some (m, rest)) ⊎ (Memᴰ m ms × (matched path m ≡ some rest))
unfolding best_match
best_match-found path best [] h = inl h
best_match-found path best (n ∷ ms) h =
    elim (best_match-found path (better n (matched path n) best) ms h) [
      | inr (i, e) ↦ inr (Memᴰ.tail i, e)
      | inl e ↦ elim (better-cases n (matched path n) best) [
        | inl f ↦ inl (sym f ∙ e)
        | inr (r, f, g) ↦
            let same = some_inj (sym g ∙ e) in
            let at : n ≡ _ = ap (λ p. p.0) same in
            inr (
              Memᴰ.head (sym at),
              ap (matched path) (sym at) ∙ f ∙ ap (λ (p : MountPoint × List ℕ). some p.1) same,
            )
      ]
    ]

matched-append :
    (path : List ℕ) (m : MountPoint) {rest : List ℕ}
    → matched path m ≡ some rest
    → path ≡ m.virtual_path ++ rest
unfolding matched
matched-append path m h = elim (Bool-cases (length m.virtual_path == 0)) [
  | inl e ↦ cc (rw e at h)
  | inr e ↦ elim (Option-cases (after_prefix m.virtual_path path)) [
    | inl f ↦ cc (rw (e, f) at h)
    | inr (r, f) ↦ elim (Bool-cases (at_boundary r || ends_in_slash m.virtual_path)) [
      | inr g ↦ cc (rw (e, f, g) at h)
      | inl g ↦
          after_prefix-append m.virtual_path path r f
          ∙ ap (λ x. m.virtual_path ++ x) (some_inj (rw (e, f, g) at h))
    ]
  ]
]

is_within-append :
    (host_path path : List ℕ)
    → is_within host_path path ≡ true
    → (t : List ℕ) × (path ≡ host_path ++ t)
is_within-append host_path path h = elim (Option-cases (after_prefix host_path path)) [
  | inl e ↦ cc (rw e at h)
  | inr (t, e) ↦ (t, after_prefix-append host_path path t e)
]

confirm-within :
    (host : Host) (m : MountPoint) (resolved : List ℕ) (o : Option (List ℕ)) {r : List ℕ}
    → confirm host m resolved o ≡ some r
    → (t : List ℕ) × (r ≡ m.host_path ++ t)
unfolding confirm
confirm-within host m resolved none h = elim (Bool-cases (is_within m.host_path resolved)) [
  | inr e ↦ cc (rw e at h)
  | inl e ↦
      let (t, f) = is_within-append m.host_path resolved e in (t, sym (some_inj (rw e at h)) ∙ f)
]
confirm-within host m resolved (some final) h = elim (Bool-cases (is_within m.host_path final)) [
  | inr e ↦ cc (rw e at h)
  | inl e ↦ elim (Bool-cases (host.malloc (length final + 1))) [
    | inr f ↦ cc (rw (e, f) at h)
    | inl f ↦
        let (t, g) = is_within-append m.host_path final e in
        (t, sym (some_inj (rw (e, f) at h)) ∙ g)
  ]
]

-- An answer comes from behind every guard.
pub if_none :
    {A : Type 0} {r : A} (b : Bool) (x : Option A) → (if b then none else x) ≡ some r → x ≡ some r
if_none true x h = cc
if_none false x h = h

confirm_built-within :
    (host : Host) (m : MountPoint) (o : Option (List ℕ)) {r : List ℕ}
    → confirm_built host m o ≡ some r
    → (t : List ℕ) × (r ≡ m.host_path ++ t)
unfolding confirm_built
confirm_built-within host m none h = cc
confirm_built-within host m (some resolved) h =
    confirm-within host m resolved (host.realpath resolved) h

resolve_under-within :
    (host : Host) (m : MountPoint) (relative : List ℕ) {r : List ℕ}
    → resolve_under host m relative ≡ some r
    → (t : List ℕ) × (r ≡ m.host_path ++ t)
unfolding resolve_under
resolve_under-within host m relative h =
    confirm_built-within host m
      (build (length m.host_path + length relative + 2) m.host_path relative)
      (if_none (not (host.malloc (length m.host_path + length relative + 2))) _ (
        if_none (ltb path_max (length m.host_path + length relative + 2)) _ (
          if_none (ltb (size_limit - length relative - 2) (length m.host_path)) _
            (if_none (ltb path_max (length m.host_path) || ltb path_max (length relative)) _ h))))

-- What a resolved path is: suffix the host path of the longest mount point that matches.
pub record Resolved (path : List ℕ) (v : Mounts) (r : List ℕ) : Type 0 where
  pub mount : MountPoint
  pub mounted : Memᴰ mount v.mounts
  pub relative : List ℕ
  pub splits : path ≡ mount.virtual_path ++ relative
  pub suffix : List ℕ
  pub confined : r ≡ mount.host_path ++ suffix
  pub longest :
      (n : MountPoint)
      → Memᴰ n v.mounts
      → is_some (matched path n) ≡ true
      → length n.virtual_path ≤ length mount.virtual_path
  pub no_parent :
      (a b : List ℕ)
      → (path ≢ a ++ (slash ∷ parent ++ (slash ∷ b))) × (path ≢ a ++ (slash ∷ parent))

resolve_best-some :
    (host : Host) (o : Option (MountPoint × List ℕ)) {r : List ℕ}
    → resolve_best host o ≡ some r
    → (m : MountPoint) × (rest : List ℕ) × (o ≡ some (m, rest))
      × (resolve_under host m (skip_slash rest) ≡ some r)
unfolding resolve_best
resolve_best-some host none h = cc
resolve_best-some host (some (m, rest)) h = (m, rest, refl, h)

resolve-valid :
    (host : Host) (path : List ℕ) (v : Mounts) {r : List ℕ}
    → ember_vfs_resolve host path v ≡ some r
    → (is_valid_path path ≡ true) × (resolve_best host (best_match path none v.mounts) ≡ some r)
unfolding ember_vfs_resolve
resolve-valid host path v h = elim (Bool-cases (is_valid_path path)) [
  | inl e ↦ (e, if_none (not (is_valid_path path) || ltb max_mounts (length v.mounts)) _ h)
  | inr e ↦ cc (rw e at h)
]

-- A path that `ember_vfs_resolve` resolves starts with the virtual path of a mount point of the
-- array, no mount point that matches has a longer one, its result starts with the host path of that
-- mount point, and no component of the path is "..".
pub resolve-Resolved :
    (host : Host) (path : List ℕ) (v : Mounts) (r : List ℕ)
    → ember_vfs_resolve host path v ≡ some r
    → Resolved path v r
resolve-Resolved host path v r h =
    let (valid, found) = resolve-valid host path v h in
    let (m, rest, e, under) = resolve_best-some host (best_match path none v.mounts) found in
    let (t, g) = resolve_under-within host m (skip_slash rest) under in
    elim (best_match-found path none v.mounts e) [
      | inl f ↦ cc f
      | inr (i, f) ↦ record {
        mount = m;
        mounted = i;
        relative = rest;
        splits = matched-append path m f;
        suffix = t;
        confined = g;
        longest = λ n j k. rw e at (best_match-longest path none v.mounts n j k);
        no_parent = λ a b. valid_path-parent path a b valid;
      }
    ]
