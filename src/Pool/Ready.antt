-- ===== src/Pool/Ready.antt =====
-- The invariant of an initialized pool, and acquisition.
use ember_core.Common.{
  ℕ, suc, ◌≤◌, ◌≡◌, ◌⊎◌, inl, inr, refl, ap, sym, ◌∙◌, Bool, true, false, not, some, List, [], ◌∷◌,
  length, arith, ltb, leb, Bool-cases, Option-cases, if◌then◌else◌, ◌==◌, some_inj,
}
use ember_core.Pool.Config.{IsSafe}
use ember_core.Pool.{
  Pool, Status, success, invalid_parameter, operation_failed, memory_allocation, security_violation,
  resource_exhausted, granted, refresh_window, check_rate_limit, take_first, put_first, acquire,
  slots, ember_pool_get_vm, plus, minus, reset,
}

-- An initialized pool: an array of the configured size, a safe configuration, and a count of
-- allocations within the limit.
pub record IsReady (p : Pool) : Type 0 where
  pub array : List ℕ
  pub held : p.vms ≡ some array
  pub sized : length array ≡ p.capacity
  pub configured : p.capacity ≡ p.config.initial_size
  pub safe : IsSafe p.config
  pub limited : p.allocation_count ≤ p.config.rate_limit_max_allocs
  pub started : p.initialized ≡ true

abbrev pub IsPool : Pool → Type 0
IsPool p = (p.initialized ≡ false) ⊎ IsReady p

length-take_first :
    (vms : List ℕ) {vm : ℕ} {left : List ℕ}
    → take_first vms ≡ some (vm, left)
    → length left ≡ length vms
unfolding take_first
length-take_first [] h = cc
length-take_first (v ∷ vms) h = elim (Bool-cases (v == 0)) [
  | inr e ↦ ap (λ r. length r.1) (sym (some_inj (rw e at h)))
  | inl e ↦ elim (Option-cases (take_first vms)) [
    | inl f ↦ cc (rw (e, f) at h)
    | inr ((w, rest), f) ↦
        ap (λ r. length r.1) (sym (some_inj (rw (e, f) at h))) ∙ ap suc (length-take_first vms f)
  ]
]

pub length-put_first :
    (vm : ℕ) (vms : List ℕ) {filled : List ℕ}
    → put_first vm vms ≡ some filled
    → length filled ≡ length vms
unfolding put_first
length-put_first vm [] h = cc
length-put_first vm (v ∷ vms) h = elim (Bool-cases (v == 0)) [
  | inl e ↦ ap length (sym (some_inj (rw e at h)))
  | inr e ↦ elim (Option-cases (put_first vm vms)) [
    | inl f ↦ cc (rw (e, f) at h)
    | inr (rest, f) ↦
        ap length (sym (some_inj (rw (e, f) at h))) ∙ ap suc (length-put_first vm vms f)
  ]
]

refresh-IsReady : (now : ℕ) (p : Pool) → IsReady p → IsReady (refresh_window now p)
unfolding refresh_window
refresh-IsReady now p ready =
    elim (Bool-cases (leb p.config.rate_limit_window_ms (minus now p.last_rate_limit_reset))) [
      | inl e ↦ rw e (record {
        array = ready.array;
        held = ready.held;
        sized = ready.sized;
        configured = ready.configured;
        safe = ready.safe;
        limited = omega arith;
        started = ready.started;
      })
      | inr e ↦ rw e ready
    ]

-- A pool with another count, within the limit.
counted :
    (p : Pool) (n : ℕ)
    → IsReady p
    → n ≤ p.config.rate_limit_max_allocs
    → IsReady (record p { allocation_count = n })
counted p n ready le = record {
  array = ready.array;
  held = ready.held;
  sized = ready.sized;
  configured = ready.configured;
  safe = ready.safe;
  limited = le;
  started = ready.started;
}

-- A pool with another array of the same length.
pub refilled :
    (p : Pool) (vms : List ℕ) (size : ℕ) (freed : List ℕ) (vm : ℕ)
    → (ready : IsReady p) → length vms ≡ length ready.array
    → IsReady (record (reset vm p) { vms = some vms; size = size; freed = freed })
refilled p vms size freed vm ready e = record {
  array = vms;
  held = refl;
  sized = e ∙ ready.sized;
  configured = ready.configured;
  safe = ready.safe;
  limited = ready.limited;
  started = ready.started;
}

resized : (p : Pool) (size : ℕ) → IsReady p → IsReady (record p { size = size })
resized p size ready = record {
  array = ready.array;
  held = ready.held;
  sized = ready.sized;
  configured = ready.configured;
  safe = ready.safe;
  limited = ready.limited;
  started = ready.started;
}

pub check-IsReady : (now : ℕ) (p : Pool) → IsReady p → IsReady (check_rate_limit now p).1
unfolding check_rate_limit
check-IsReady now p ready =
    let q = refresh_window now p in
    let r = refresh-IsReady now p ready in
    elim (Bool-cases (leb q.config.rate_limit_max_allocs q.allocation_count)) [
      | inl e ↦ rw e r
      | inr e ↦
          rw e
            (counted q (plus q.allocation_count 1) r (ground (arith, r.safe.rate_limit_max_allocs)))
    ]

acquire-IsReady :
    (new : ℕ) (vms : List ℕ) (p : Pool)
    → (ready : IsReady p) → length vms ≡ length ready.array
    → IsReady (acquire new vms p).1
unfolding acquire
acquire-IsReady new vms p ready len = elim (Option-cases (take_first vms)) [
  | inr ((vm, left), e) ↦
      rw (e, acquire)
        (refilled p left (minus p.size 1) p.freed vm ready (length-take_first vms e ∙ len))
  | inl e ↦ elim (Bool-cases (ltb p.size p.config.max_vms_per_thread)) [
    | inl f ↦ rw (e, f, acquire) (resized p _ ready)
    | inr f ↦ rw (e, f, acquire) ready
  ]
]

pub if_not : {A : Type 0} (b : Bool) (x y : A) → b ≡ true → (if not b then x else y) ≡ y
if_not true x y h = refl
if_not false x y h = cc

pub if_yes : {A : Type 0} (b : Bool) (x y : A) → b ≡ false → (if not b then x else y) ≡ x
if_yes true x y h = cc
if_yes false x y h = refl

pub if_off :
    (b : Bool) (p q : Pool)
    → q.initialized ≡ false
    → p.initialized ≡ b
    → (if b then q else p).initialized ≡ false
if_off true p q hq hp = hq
if_off false p q hq hp = hp

pub get-off :
    (now new : ℕ) (p : Pool) → p.initialized ≡ false → ember_pool_get_vm now new p ≡ (0, p)
unfolding ember_pool_get_vm
get-off now new p h = if_yes p.initialized _ _ h

pub get-granted :
    (now new : ℕ) (p : Pool)
    → p.initialized ≡ true
    → ember_pool_get_vm now new p ≡ granted new (check_rate_limit now p)
unfolding ember_pool_get_vm
get-granted now new p h = if_not p.initialized _ _ h

pub slots-held : (p : Pool) (ready : IsReady p) → slots p ≡ ready.array
slots-held p ready = rw ready.held refl

pub granted-IsReady : (new : ℕ) (r : Status × Pool) → IsReady r.1 → IsReady (granted new r).1
unfolding granted
granted-IsReady new (success, p) ready =
    acquire-IsReady new (slots p) p ready (ap length (slots-held p ready))
granted-IsReady new (invalid_parameter, p) ready = ready
granted-IsReady new (operation_failed, p) ready = ready
granted-IsReady new (memory_allocation, p) ready = ready
granted-IsReady new (security_violation, p) ready = ready
granted-IsReady new (resource_exhausted, p) ready = ready
