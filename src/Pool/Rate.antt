-- ===== src/Pool/Rate.antt =====
-- The rate limit of `ember_pool_get_vm` of src/api.c over a sequence of calls.
use ember_core.Common.{
  ℕ, ◌+◌, ◌≤◌, ◌<◌, ◌≡◌, inl, inr, refl, ap, sym, Bool, true, false, ◌&&◌, List, [], ◌∷◌, arith,
  ltb, leb, Bool-cases, Option-cases, if◌then◌else◌, ◌==◌,
}
use mathlib.Core.Path.{subst}
use ember_core.Pool.Ready.{IsReady, check-IsReady, granted-IsReady, get-granted}
use ember_core.Pool.{
  PoolConfig, Pool, Status, success, resource_exhausted, refresh_window, check_rate_limit,
  take_first, acquire, granted, slots, ember_pool_get_vm, plus, minus,
}

-- Requests at given times, each with what `ember_new_vm` would return: how many get a machine.
unfoldable pub served : List (ℕ × ℕ) → Pool → ℕ
served [] p = 0
served ((now, new) ∷ requests) p =
    let r = ember_pool_get_vm now new p in (if r.0 == 0 then 0 else 1) + served requests r.1

-- All times are in the window that started at `last`.
abbrev pub in_window : ℕ → ℕ → List (ℕ × ℕ) → Bool
in_window last window [] = true
in_window last window ((now, new) ∷ requests) =
    ltb (minus now last) window && in_window last window requests

abbrev Limits : Type 0
Limits = PoolConfig × ℕ

limits : Pool → Limits
limits p = (p.config, p.last_rate_limit_reset)

acquire-limits :
    (new : ℕ) (vms : List ℕ) (p : Pool)
    → (limits (acquire new vms p).1 ≡ limits p)
      × ((acquire new vms p).1.allocation_count ≡ p.allocation_count)
unfolding acquire limits
acquire-limits new vms p = elim (Option-cases (take_first vms)) [
  | inr ((vm, left), e) ↦ rw (e, acquire) (refl, refl)
  | inl e ↦ elim (Bool-cases (ltb p.size p.config.max_vms_per_thread)) [
    | inl f ↦ rw (e, f, acquire) (refl, refl)
    | inr f ↦ rw (e, f, acquire) (refl, refl)
  ]
]

pub if_false : {A : Type 0} (b : Bool) (x y : A) → b ≡ false → (if b then x else y) ≡ y
if_false true x y h = cc
if_false false x y h = refl

abbrev pub counted_on : Pool → Status × Pool
counted_on q =
    if leb q.config.rate_limit_max_allocs q.allocation_count
    then (resource_exhausted, q)
    else (success, record q { allocation_count = plus q.allocation_count 1 })

pub check_in_window :
    (now : ℕ) (p : Pool)
    → minus now p.last_rate_limit_reset < p.config.rate_limit_window_ms
    → check_rate_limit now p ≡ counted_on p
unfolding check_rate_limit refresh_window
check_in_window now p h = ap counted_on (
    if_false (leb p.config.rate_limit_window_ms (minus now p.last_rate_limit_reset)) _ p
      (ground arith))

-- What one request does to the limits and the count.
Step : Pool → ℕ × Pool → Type 0
Step p r =
    (limits r.1 ≡ limits p)
    × ((if r.0 == 0 then 0 else 1) + p.allocation_count ≤ r.1.allocation_count)

granted-Step : (new : ℕ) (p : Pool) → IsReady p → Step p (granted new (counted_on p))
unfolding Step granted limits
granted-Step new p ready =
    elim (Bool-cases (leb p.config.rate_limit_max_allocs p.allocation_count)) [
      | inl e ↦ rw e (refl, omega arith)
      | inr e ↦
          let n = plus p.allocation_count 1 in
          let (same, count) = acquire-limits new (slots p) (record p { allocation_count = n }) in
          rw e (same, ground (arith, count, ready.limited, ready.safe.rate_limit_max_allocs))
    ]

get-Step :
    (now new : ℕ) (p : Pool)
    → IsReady p
    → minus now p.last_rate_limit_reset < p.config.rate_limit_window_ms
    → Step p (ember_pool_get_vm now new p) × IsReady (ember_pool_get_vm now new p).1
get-Step now new p ready h = rw (get-granted now new p ready.started) (
  subst (λ r. Step p (granted new r)) (sym (check_in_window now p h)) (granted-Step new p ready),
  granted-IsReady new (check_rate_limit now p) (check-IsReady now p ready),
)

-- On an initialized pool, of any sequence of calls of `ember_pool_get_vm` at times in the current
-- window, no more get a machine than the limit leaves after the allocations counted already.
pub served_bound :
    (requests : List (ℕ × ℕ)) (p : Pool)
    → IsReady p
    → in_window p.last_rate_limit_reset p.config.rate_limit_window_ms requests ≡ true
    → served requests p + p.allocation_count ≤ p.config.rate_limit_max_allocs
unfolding served Step limits
served_bound [] p ready h = omega (arith, ready.limited)
served_bound ((now, new) ∷ requests) p ready h =
    let r = ember_pool_get_vm now new p in
    let ((same, grew), ready') = get-Step now new p ready (ground arith) in
    let config : r.1.config ≡ p.config = ap (λ (l : Limits). l.0) same in
    let last : r.1.last_rate_limit_reset ≡ p.last_rate_limit_reset =
      ap (λ (l : Limits). l.1) same in
    let later : in_window r.1.last_rate_limit_reset r.1.config.rate_limit_window_ms requests
        ≡ true =
      rw (last, config) (ground arith) in
    let rest = served_bound requests r.1 ready' later in
    let limit : r.1.config.rate_limit_max_allocs ≡ p.config.rate_limit_max_allocs =
      ap (λ (c : PoolConfig). c.rate_limit_max_allocs) config in
    omega (arith, rest, limit, grew)
