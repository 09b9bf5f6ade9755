-- ===== src/Pool/Config.antt =====
-- `validate_pool_config` of src/api.c against the ranges that include/ember.h documents.
use ember_core.Common.{ℕ, ◌≤◌, ◌≡◌, ◌⊎◌, inl, inr, true, false, arith, ltb, Bool-cases}
use ember_core.Pool.{
  PoolConfig, success, invalid_parameter, outside, max_pointers, default_secure_config,
  validate_pool_config,
}

-- All fields are in the ranges that include/ember.h documents.
pub record IsSafe (c : PoolConfig) : Type 0 where
  pub initial_size : (1 ≤ c.initial_size) × (c.initial_size ≤ 1000)
  pub chunk_size : (1 ≤ c.chunk_size) × (c.chunk_size ≤ 100)
  pub thread_cache_size : (1 ≤ c.thread_cache_size) × (c.thread_cache_size ≤ 100)
  pub max_vms_per_thread : (1 ≤ c.max_vms_per_thread) × (c.max_vms_per_thread ≤ 100)
  pub rate_limit_window_ms : (100 ≤ c.rate_limit_window_ms) × (c.rate_limit_window_ms ≤ 86400000)
  pub rate_limit_max_allocs : (1 ≤ c.rate_limit_max_allocs) × (c.rate_limit_max_allocs ≤ 10000)

outside-cases :
    (low high x : ℕ)
    → ((outside low high x ≡ false) × (low ≤ x) × (x ≤ high))
      ⊎ ((outside low high x ≡ true) × ((low ≤ x) × (x ≤ high) → ⊥))
outside-cases low high x = elim (Bool-cases (outside low high x)) [
  | inl out ↦ inr (out, λ (a, b). ground arith)
  | inr within ↦ inl (within, ground arith, ground arith)
]

-- `validate_pool_config` answers EMBER_SUCCESS where all fields are in their documented ranges and
-- EMBER_ERROR_INVALID_PARAMETER where one is not, and nothing else: its overflow check never fails.
pub validate_pool_config_lem :
    (c : PoolConfig)
    → ((validate_pool_config c ≡ success) × IsSafe c)
      ⊎ ((validate_pool_config c ≡ invalid_parameter) × (IsSafe c → ⊥))
unfolding validate_pool_config
validate_pool_config_lem c = elim (outside-cases 1 1000 c.initial_size) [
  | inr (o, bad) ↦ inr (rw o, λ s. bad s.initial_size)
  | inl (o₁, lo₁, hi₁) ↦ elim (outside-cases 1 100 c.chunk_size) [
    | inr (o, bad) ↦ inr (rw (o₁, o), λ s. bad s.chunk_size)
    | inl (o₂, lo₂, hi₂) ↦ elim (outside-cases 1 100 c.thread_cache_size) [
      | inr (o, bad) ↦ inr (rw (o₁, o₂, o), λ s. bad s.thread_cache_size)
      | inl (o₃, lo₃, hi₃) ↦ elim (outside-cases 1 100 c.max_vms_per_thread) [
        | inr (o, bad) ↦ inr (rw (o₁, o₂, o₃, o), λ s. bad s.max_vms_per_thread)
        | inl (o₄, lo₄, hi₄) ↦ elim (outside-cases 100 86400000 c.rate_limit_window_ms) [
          | inr (o, bad) ↦ inr (rw (o₁, o₂, o₃, o₄, o), λ s. bad s.rate_limit_window_ms)
          | inl (o₅, lo₅, hi₅) ↦ elim (outside-cases 1 10000 c.rate_limit_max_allocs) [
            | inr (o, bad) ↦ inr (rw (o₁, o₂, o₃, o₄, o₅, o), λ s. bad s.rate_limit_max_allocs)
            | inl (o₆, lo₆, hi₆) ↦
                let fits : ltb max_pointers c.initial_size ≡ false = small c.initial_size hi₁ in
                inl (
                  rw (o₁, o₂, o₃, o₄, o₅, o₆, fits),
                  record {
                    initial_size = (lo₁, hi₁);
                    chunk_size = (lo₂, hi₂);
                    thread_cache_size = (lo₃, hi₃);
                    max_vms_per_thread = (lo₄, hi₄);
                    rate_limit_window_ms = (lo₅, hi₅);
                    rate_limit_max_allocs = (lo₆, hi₆);
                  },
                )
          ]
        ]
      ]
    ]
  ]
]
  where
    small : (n : ℕ) → n ≤ 1000 → ltb max_pointers n ≡ false
    small n h = ground arith

pub default-IsSafe : IsSafe default_secure_config
default-IsSafe = record {
  initial_size = (omega arith, omega arith);
  chunk_size = (omega arith, omega arith);
  thread_cache_size = (omega arith, omega arith);
  max_vms_per_thread = (omega arith, omega arith);
  rate_limit_window_ms = (omega arith, omega arith);
  rate_limit_max_allocs = (omega arith, omega arith);
}
