-- ===== src/Pool/Invariant.antt =====
-- The invariant of the pool under the calls of its interface.
use ember_core.Common.{
  ℕ, ◌*◌, ◌/◌, ◌≡◌, inl, inr, refl, ap, sym, ◌∙◌, Bool, true, false, not, Option, none, some, List,
  ◌∷◌, ◌-◌, replicate, length-replicate, arith, ltb, Option-cases, if◌then◌else◌, ◌==◌,
}
use mathlib.Core.Path.{subst}
use ember_core.Pool.Ready.{
  IsReady, IsPool, length-put_first, refilled, check-IsReady, granted-IsReady, get-granted, if_not,
  if_yes, if_off, get-off,
}
use ember_core.Pool.Config.{IsSafe, validate_pool_config_lem, default-IsSafe}
use ember_core.Pool.{
  PoolConfig, Pool, Status, success, invalid_parameter, operation_failed, memory_allocation,
  security_violation, resource_exhausted, u64_max, validate_pool_config, apply_secure_defaults,
  cleanup_array, setup_if, released, release_into, check_rate_limit, ember_pool_cleanup, setup,
  ember_pool_init, put_first, ember_pool_get_vm, ember_pool_release_vm, reset,
}

get-IsPool : (now new : ℕ) (p : Pool) → IsPool p → IsPool (ember_pool_get_vm now new p).1
get-IsPool now new p (inl off) =
    inl (ap (λ (r : ℕ × Pool). r.1.initialized) (get-off now new p off) ∙ off)
get-IsPool now new p (inr ready) =
    rw (get-granted now new p ready.started)
      (inr (granted-IsReady new (check_rate_limit now p) (check-IsReady now p ready)))

if_both : {A : Type 0} (P : A → Type 0) (b : Bool) (x y : A) → P x → P y → P (if b then x else y)
if_both P true x y p q = p
if_both P false x y p q = q

cleanup-off :
    (p : Pool) (o : Option (List ℕ))
    → p.initialized ≡ false
    → (cleanup_array p o).initialized ≡ false
unfolding cleanup_array
cleanup-off p none h = h
cleanup-off p (some vms) h =
    if_both (λ (q : Pool). q.initialized ≡ false) (not p.initialized) _ _ h refl

-- After the cleanup the pool is not initialized.
cleanup-IsPool : (p : Pool) → IsPool p → (ember_pool_cleanup p).initialized ≡ false
unfolding ember_pool_cleanup cleanup_array
cleanup-IsPool p (inl off) = cleanup-off p p.vms off
cleanup-IsPool p (inr ready) =
    ap (λ o. (cleanup_array p o).initialized) ready.held
    ∙ ap (λ (q : Pool). q.initialized) (if_not p.initialized _ _ ready.started)

setup-IsPool :
    (malloc : ℕ → Bool) (now : ℕ) (c : PoolConfig) (p : Pool)
    → IsSafe c
    → p.initialized ≡ false
    → IsPool (setup malloc now c p).1
unfolding setup
setup-IsPool malloc now c p safe off =
    if_both (λ (r : Status × Pool). IsPool r.1) (ltb (u64_max / 8) c.initial_size) _ _ (inl off)
      (if_both (λ (r : Status × Pool). IsPool r.1) (not (malloc (c.initial_size * 8))) _ _ (inl off)
        (inr (record {
          array = replicate c.initial_size 0;
          held = refl;
          sized = length-replicate c.initial_size 0;
          configured = refl;
          safe = safe;
          limited = omega arith;
          started = refl;
        })))

setup_if-IsPool :
    (malloc : ℕ → Bool) (now : ℕ) (c : PoolConfig) (p : Pool) (status : Status)
    → IsPool p
    → (status ≡ success → IsSafe c)
    → IsPool (setup_if malloc now c p status).1
unfolding setup_if
setup_if-IsPool malloc now c p success valid safe =
    setup-IsPool malloc now c _ (safe refl) (cleaned p valid)
  where
    cleaned :
        (p : Pool)
        → IsPool p
        → (if p.initialized then ember_pool_cleanup p else p).initialized ≡ false
    cleaned p valid = if_off p.initialized p (ember_pool_cleanup p) (cleanup-IsPool p valid) refl
setup_if-IsPool malloc now c p invalid_parameter valid safe = valid
setup_if-IsPool malloc now c p operation_failed valid safe = valid
setup_if-IsPool malloc now c p memory_allocation valid safe = valid
setup_if-IsPool malloc now c p security_violation valid safe = valid
setup_if-IsPool malloc now c p resource_exhausted valid safe = valid

init-IsPool :
    (malloc : ℕ → Bool) (now : ℕ) (config : Option PoolConfig) (p : Pool)
    → IsPool p
    → IsPool (ember_pool_init malloc now config p).1
unfolding ember_pool_init
init-IsPool malloc now none p valid =
    setup_if-IsPool malloc now _ p success valid (λ e. default-IsSafe)
init-IsPool malloc now (some given) p valid =
    let c = apply_secure_defaults given in
    setup_if-IsPool malloc now c p (validate_pool_config c) valid (λ e.
      elim (validate_pool_config_lem c) [ inl (ok, safe) ↦ safe | inr (bad, _) ↦ cc (e, bad) ])

released-IsReady :
    (vm : ℕ) (p : Pool) (ready : IsReady p)
    → IsReady (released vm (reset vm p) (put_first vm ready.array))
unfolding released
released-IsReady vm p ready = elim (Option-cases (put_first vm ready.array)) [
  | inr (filled, e) ↦
      rw (e, released)
        (refilled p filled p.size p.freed vm ready (length-put_first vm ready.array e))
  | inl e ↦ rw (e, released) (refilled_full p ready)
]
  where
    refilled_full :
        (p : Pool) (ready : IsReady p)
        → IsReady (record (reset vm p) {
          freed = vm ∷ p.freed;
          size = if ltb 0 p.size then p.size - 1 else p.size;
        })
    refilled_full p ready = record {
      array = ready.array;
      held = ready.held;
      sized = ready.sized;
      configured = ready.configured;
      safe = ready.safe;
      limited = ready.limited;
      started = ready.started;
    }

release-IsPool : (vm : ℕ) (p : Pool) → IsPool p → IsPool (ember_pool_release_vm vm p)
unfolding ember_pool_release_vm release_into
release-IsPool vm p (inr ready) = if_both IsPool (vm == 0) _ _ (inr ready) (into_ready p ready)
  where
    into_ready : (p : Pool) (ready : IsReady p) → IsPool (release_into vm p p.vms)
    into_ready p ready =
        subst IsPool
          (sym (ap (release_into vm p) ready.held ∙ if_not p.initialized _ _ ready.started))
          (inr (released-IsReady vm p ready))
release-IsPool vm p (inl off) = if_both IsPool (vm == 0) _ _ (inl off) (into p p.vms off)
  where
    into : (p : Pool) (o : Option (List ℕ)) → p.initialized ≡ false → IsPool (release_into vm p o)
    into p none off = inl off
    into p (some vms) off = subst IsPool (sym (if_yes p.initialized _ _ off)) (inl off)

-- The calls of the interface.
pub data Call : Type 0 where
  init_call : (ℕ → Bool) → ℕ → Option PoolConfig → Call
  cleanup_call : Call
  get_call : ℕ → ℕ → Call
  release_call : ℕ → Call

abbrev pub after_call : Call → Pool → Pool
after_call (init_call malloc now config) p = (ember_pool_init malloc now config p).1
after_call cleanup_call p = ember_pool_cleanup p
after_call (get_call now new) p = (ember_pool_get_vm now new p).1
after_call (release_call vm) p = ember_pool_release_vm vm p

-- Every call of `ember_pool_init`, `ember_pool_cleanup`, `ember_pool_get_vm` and
-- `ember_pool_release_vm` keeps the invariant of the pool: it is not initialized, or it has an
-- array of the configured size, a configuration with all fields in range, and no more allocations
-- counted in the window than the limit.
pub after_call-IsPool : (call : Call) (p : Pool) → IsPool p → IsPool (after_call call p)
after_call-IsPool (init_call malloc now config) p valid = init-IsPool malloc now config p valid
after_call-IsPool cleanup_call p valid = inl (cleanup-IsPool p valid)
after_call-IsPool (get_call now new) p valid = get-IsPool now new p valid
after_call-IsPool (release_call vm) p valid = release-IsPool vm p valid
