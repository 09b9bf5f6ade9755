-- ===== src/Pool/Slots.antt =====
-- The machines in the array under `ember_pool_release_vm` and `ember_pool_get_vm` of src/api.c.
use ember_core.Common.{
  ℕ, ◌+◌, ◌-◌, ◌^◌, ◌<◌, ◌≡◌, inl, inr, refl, ap, ◌∙◌, some, List, [], ◌∷◌, arith, leb, Bool-cases,
  if◌then◌else◌, ◌==◌,
}
use ember_core.Pool.Rate.{if_false, check_in_window}
use ember_core.Pool.Ready.{IsReady, get-granted, slots-held, if_not}
use ember_core.Pool.{
  Pool, take_first, put_first, acquire, granted, slots, ember_pool_get_vm, ember_pool_release_vm,
  release_into, released, reset, minus, plus,
}

-- how often a machine stands in the array
abbrev pub count : ℕ → List ℕ → ℕ
count vm [] = 0
count vm (slot ∷ slots) = (if slot == vm then 1 else 0) + count vm slots

put_first-count :
    (vm : ℕ) (vms : List ℕ)
    → 0 < count 0 vms
    → (filled : List ℕ) × (put_first vm vms ≡ some filled)
      × (count vm filled + (if vm == 0 then 1 else 0) ≡ count vm vms + 1)
unfolding put_first
put_first-count vm [] h = absurd (omega arith)
put_first-count vm (v ∷ vms) h = elim (Bool-cases (v == 0)) [
  | inl e ↦ (vm ∷ vms, rw (e, put_first), ground arith)
  | inr e ↦
      let (filled, f, g) = put_first-count vm vms (ground arith) in
      (v ∷ filled, rw (e, f, put_first), ground (arith, g))
]

-- On an initialized pool with a free slot, a machine that is released stands in the array once more
-- than before, whether it stood there already or not.
pub release-count :
    (vm : ℕ) (p : Pool)
    → IsReady p
    → 0 < vm
    → 0 < count 0 (slots p)
    → count vm (slots (ember_pool_release_vm vm p)) ≡ count vm (slots p) + 1
unfolding ember_pool_release_vm release_into released
release-count vm p ready real free =
    let (filled, e, g) = put_first-count vm ready.array (rw (← slots-held p ready) free) in
    let made : Pool = record (reset vm p) { vms = some filled } in
    let path : ember_pool_release_vm vm p ≡ made =
      if_false (vm == 0) _ _ (ground arith)
      ∙ ap (release_into vm p) ready.held
      ∙ if_not p.initialized _ _ ready.started
      ∙ ap (released vm (reset vm p)) e in
    ap (λ q. count vm (slots q)) path ∙ rw (slots-held p ready) (ground (arith, g))

take_first-acquire :
    (new : ℕ) (vms : List ℕ) (p : Pool) {vm : ℕ} {left : List ℕ}
    → take_first vms ≡ some (vm, left)
    → ((acquire new vms p).0 ≡ vm) × ((acquire new vms p).1.size ≡ minus p.size 1)
unfolding acquire
take_first-acquire new vms p e = rw (e, acquire) (refl, refl)

-- On an initialized pool of size 0 that holds a machine, within the rate limit, `ember_pool_get_vm`
-- returns that machine and the size wraps around to 2^64 - 1.
pub get_underflow :
    (now new : ℕ) (p : Pool) (vm : ℕ) (left : List ℕ)
    → IsReady p
    → minus now p.last_rate_limit_reset < p.config.rate_limit_window_ms
    → p.allocation_count < p.config.rate_limit_max_allocs
    → take_first (slots p) ≡ some (vm, left)
    → p.size ≡ 0
    → ((ember_pool_get_vm now new p).0 ≡ vm) × ((ember_pool_get_vm now new p).1.size ≡ 2 ^ 64 - 1)
unfolding granted
get_underflow now new p vm left ready window few found none_out =
    let q : Pool = record p { allocation_count = plus p.allocation_count 1 } in
    let path : ember_pool_get_vm now new p ≡ acquire new (slots q) q =
      get-granted now new p ready.started
      ∙ ap (granted new) (check_in_window now p window)
      ∙ ap (granted new)
          (if_false (leb p.config.rate_limit_max_allocs p.allocation_count) _ _ (ground arith)) in
    let (taken, size) = take_first-acquire new (slots q) q found in
    (ap (λ r. r.0) path ∙ taken, ap (λ r. r.1.size) path ∙ size ∙ omega (arith, none_out))
