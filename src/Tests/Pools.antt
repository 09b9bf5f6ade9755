-- ===== src/Tests/Pools.antt =====
-- The pool with a configuration of one slot.
use ember_core.Common.{ℕ, ◌+◌, ◌≤◌, List, ◌∷◌, arith, true, false, none, some, [], inl, refl}
use ember_core.Pool.Invariant.{Call, init_call, after_call, after_call-IsPool}
use ember_core.Pool.Rate.{served, served_bound}
use ember_core.Pool.Ready.{IsPool, IsReady}
use ember_core.Pool.{PoolConfig, Pool, default_secure_config, clean_machine}

abbrev no_pool : Pool
no_pool = record {
  vms = none;
  size = 0;
  capacity = 0;
  config = default_secure_config;
  initialized = false;
  allocation_count = 0;
  last_rate_limit_reset = 0;
  machines = λ a. clean_machine;
  freed = [];
}

abbrev one_slot : PoolConfig
one_slot = record default_secure_config { initial_size = 1 }

abbrev start : Call
start = init_call (λ n. true) 0 (some one_slot)

after_call-IsPool_example : IsPool (after_call start no_pool)
after_call-IsPool_example = after_call-IsPool start no_pool (inl refl)

-- A pool of two slots that holds these machines and counts these as handed out.
abbrev pool_of : List ℕ → ℕ → Pool
pool_of vms size = record no_pool {
  vms = some vms;
  size = size;
  capacity = 2;
  config = record default_secure_config { initial_size = 2; rate_limit_max_allocs = 1 };
  initialized = true;
}

two_slots-IsReady : (a b size : ℕ) → IsReady (pool_of (a ∷ b ∷ []) size)
two_slots-IsReady a b size = record {
  array = a ∷ b ∷ [];
  held = refl;
  sized = refl;
  configured = refl;
  safe = record {
    initial_size = (omega arith, omega arith);
    chunk_size = (omega arith, omega arith);
    thread_cache_size = (omega arith, omega arith);
    max_vms_per_thread = (omega arith, omega arith);
    rate_limit_window_ms = (omega arith, omega arith);
    rate_limit_max_allocs = (omega arith, omega arith);
  };
  limited = omega arith;
  started = refl;
}

abbrev requests : List (ℕ × ℕ)
requests = (5, 7) ∷ (6, 8) ∷ []

served_bound_example : served requests (pool_of (0 ∷ 0 ∷ []) 0) + 0 ≤ 1
served_bound_example = served_bound requests (pool_of (0 ∷ 0 ∷ []) 0) (two_slots-IsReady 0 0 0) refl
