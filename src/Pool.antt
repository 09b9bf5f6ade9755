-- ===== src/Pool.antt =====
-- The pool of virtual machines of src/api.c: its configuration, the rate limit, and acquisition and
-- release. The static variables are a record; a machine is an address, 0 for NULL, and the array of
-- the pool a list of addresses. The clock's reading and the result of `ember_new_vm` are inputs, and
-- `freed` lists the machines given to `ember_free_vm`, the last one first.
pub mod Config
pub mod Ready
pub mod Invariant
pub mod Rate
pub mod Slots
use ember_core.Common.{
  ℕ, zero, suc, ◌+◌, ◌-◌, ◌*◌, ◌/◌, ◌%◌, ◌^◌, Bool, true, false, not, ◌&&◌, ◌||◌, Option, none,
  some, List, [], ◌∷◌, ◌++◌, ltb, leb, ◌==◌, if◌then◌else◌, replicate, map,
}

-- vm_pool_config_t, of `uint32_t` fields
pub record PoolConfig : Type 0 where
  pub initial_size : ℕ
  pub chunk_size : ℕ
  pub thread_cache_size : ℕ
  pub max_vms_per_thread : ℕ
  pub rate_limit_window_ms : ℕ
  pub rate_limit_max_allocs : ℕ

-- EMBER_SUCCESS and the EMBER_ERROR_ codes from -1 to -5
pub data Status : Type 0 where
  success invalid_parameter operation_failed memory_allocation security_violation : Status
  resource_exhausted : Status

-- the fields of a machine that the pool resets; nil is 0
pub record Machine : Type 0 where
  pub ip : ℕ
  pub stack_top : ℕ
  pub exception_pending : ℕ
  pub current_exception : ℕ

pub record Pool : Type 0 where
  pub vms : Option (List ℕ)
  pub size : ℕ
  pub capacity : ℕ
  pub config : PoolConfig
  pub initialized : Bool
  pub allocation_count : ℕ
  pub last_rate_limit_reset : ℕ
  pub machines : ℕ → Machine
  pub freed : List ℕ

abbrev pub u64_max : ℕ
u64_max = 2 ^ 64 - 1

-- arithmetic of uint64_t and size_t
abbrev pub minus : ℕ → ℕ → ℕ
minus a b = (a + 2 ^ 64 - b) % 2 ^ 64

abbrev pub plus : ℕ → ℕ → ℕ
plus a b = (a + b) % 2 ^ 64

abbrev pub default_secure_config : PoolConfig
default_secure_config = record {
  initial_size = 16;
  chunk_size = 8;
  thread_cache_size = 4;
  max_vms_per_thread = 10;
  rate_limit_window_ms = 1000;
  rate_limit_max_allocs = 50;
}

-- `x < low || x > high`
abbrev pub outside : ℕ → ℕ → ℕ → Bool
outside low high x = ltb x low || ltb high x

-- UINT32_MAX / sizeof(ember_vm*)
abbrev pub max_pointers : ℕ
max_pointers = (2 ^ 32 - 1) / 8

unfoldable pub validate_pool_config : PoolConfig → Status
validate_pool_config c =
    if outside 1 1000 c.initial_size
    then invalid_parameter
    else if outside 1 100 c.chunk_size
    then invalid_parameter
    else if outside 1 100 c.thread_cache_size
    then invalid_parameter
    else if outside 1 100 c.max_vms_per_thread
    then invalid_parameter
    else if outside 100 86400000 c.rate_limit_window_ms
    then invalid_parameter
    else if outside 1 10000 c.rate_limit_max_allocs
    then invalid_parameter
    else if ltb max_pointers c.initial_size
    then security_violation
    else success

abbrev pub or_default : ℕ → ℕ → ℕ
or_default x default = if x == 0 then default else x

unfoldable pub apply_secure_defaults : PoolConfig → PoolConfig
apply_secure_defaults c = record {
  initial_size = or_default c.initial_size default_secure_config.initial_size;
  chunk_size = or_default c.chunk_size default_secure_config.chunk_size;
  thread_cache_size = or_default c.thread_cache_size default_secure_config.thread_cache_size;
  max_vms_per_thread = or_default c.max_vms_per_thread default_secure_config.max_vms_per_thread;
  rate_limit_window_ms =
      or_default c.rate_limit_window_ms default_secure_config.rate_limit_window_ms;
  rate_limit_max_allocs =
      or_default c.rate_limit_max_allocs default_secure_config.rate_limit_max_allocs;
}

-- the pool with the count reset when the window has passed
unfoldable pub refresh_window : ℕ → Pool → Pool
refresh_window now p =
    if leb p.config.rate_limit_window_ms (minus now p.last_rate_limit_reset)
    then record p { allocation_count = 0; last_rate_limit_reset = now }
    else p

unfoldable pub check_rate_limit : ℕ → Pool → Status × Pool
unfolding refresh_window
check_rate_limit now p =
    let q = refresh_window now p in
    if leb q.config.rate_limit_max_allocs q.allocation_count
    then (resource_exhausted, q)
    else (success, record q { allocation_count = plus q.allocation_count 1 })

-- the loop of `ember_pool_cleanup`, over an array as long as the capacity
unfoldable pub free_all : List ℕ → List ℕ → List ℕ
free_all [] freed = freed
free_all (vm ∷ vms) freed = free_all vms (if vm == 0 then freed else vm ∷ freed)

-- on the pointer to the array
unfoldable pub cleanup_array : Pool → Option (List ℕ) → Pool
unfolding free_all
cleanup_array p none = p
cleanup_array p (some vms) = if not p.initialized then p else record p {
  vms = none;
  size = 0;
  capacity = 0;
  initialized = false;
  allocation_count = 0;
  last_rate_limit_reset = 0;
  freed = free_all vms p.freed;
}

unfoldable pub ember_pool_cleanup : Pool → Pool
unfolding cleanup_array
ember_pool_cleanup p = cleanup_array p p.vms

-- a configuration that is valid, set up on a pool that is not initialized
unfoldable pub setup : (ℕ → Bool) → ℕ → PoolConfig → Pool → Status × Pool
setup malloc now c p =
    if ltb (u64_max / 8) c.initial_size
    then (security_violation, p)
    else if not (malloc (c.initial_size * 8))
    then (memory_allocation, record p { vms = none })
    else (
      success,
      record p {
        vms = some (replicate c.initial_size 0);
        capacity = c.initial_size;
        size = 0;
        config = c;
        initialized = true;
        allocation_count = 0;
        last_rate_limit_reset = now;
      },
    )

-- after the validation of a given configuration
unfoldable pub setup_if : (ℕ → Bool) → ℕ → PoolConfig → Pool → Status → Status × Pool
unfolding setup ember_pool_cleanup
setup_if malloc now c p success =
    setup malloc now c (if p.initialized then ember_pool_cleanup p else p)
setup_if malloc now c p status = (status, p)

unfoldable pub ember_pool_init : (ℕ → Bool) → ℕ → Option PoolConfig → Pool → Status × Pool
unfolding setup_if validate_pool_config apply_secure_defaults
ember_pool_init malloc now none p = setup_if malloc now default_secure_config p success
ember_pool_init malloc now (some given) p =
    let c = apply_secure_defaults given in setup_if malloc now c p (validate_pool_config c)

-- the first machine of the array, with NULL left in its place
unfoldable pub take_first : List ℕ → Option (ℕ × List ℕ)
take_first [] = none
take_first (vm ∷ vms) =
    let rest = take_first vms in
    if vm == 0
    then (elim rest [ none ↦ none | some (found, left) ↦ some (found, 0 ∷ left) ])
    else some (vm, 0 ∷ vms)

-- the first NULL of the array replaced
unfoldable pub put_first : ℕ → List ℕ → Option (List ℕ)
put_first vm [] = none
put_first vm (slot ∷ slots) =
    let rest = put_first vm slots in
    if slot == 0
    then some (vm ∷ slots)
    else (elim rest [ none ↦ none | some filled ↦ some (slot ∷ filled) ])

abbrev pub clean_machine : Machine
clean_machine = record { ip = 0; stack_top = 0; exception_pending = 0; current_exception = 0 }

abbrev pub reset : ℕ → Pool → Pool
reset vm p = record p { machines = λ a. if a == vm then clean_machine else p.machines a }

-- a machine of the pool, or a new one when few are out
unfoldable pub acquire : ℕ → List ℕ → Pool → ℕ × Pool
unfolding take_first
acquire new vms p = elim (take_first vms) [
  | some (vm, left) ↦ (vm, reset vm (record p { vms = some left; size = minus p.size 1 }))
  | none ↦
      if ltb p.size p.config.max_vms_per_thread
      then (new, record p { size = if new == 0 then p.size else plus p.size 1 })
      else (0, p)
]

abbrev pub slots : Pool → List ℕ
slots p = elim p.vms [ none ↦ [] | some vms ↦ vms ]

-- after the rate limit's answer
unfoldable pub granted : ℕ → Status × Pool → ℕ × Pool
unfolding acquire
granted new (success, p) = acquire new (slots p) p
granted new (_, p) = (0, p)

unfoldable pub ember_pool_get_vm : ℕ → ℕ → Pool → ℕ × Pool
unfolding granted check_rate_limit
ember_pool_get_vm now new p =
    if not p.initialized then (0, p) else granted new (check_rate_limit now p)

-- the end of a release, by the array with the machine in it
unfoldable pub released : ℕ → Pool → Option (List ℕ) → Pool
released vm p (some filled) = record p { vms = some filled }
released vm p none = record p {
  freed = vm ∷ p.freed;
  size = if ltb 0 p.size then p.size - 1 else p.size;
}

-- a machine that is not NULL, on the pointer to the array
unfoldable pub release_into : ℕ → Pool → Option (List ℕ) → Pool
unfolding put_first released
release_into vm p none = record p { freed = vm ∷ p.freed }
release_into vm p (some vms) =
    if not p.initialized
    then record p { freed = vm ∷ p.freed }
    else released vm (reset vm p) (put_first vm vms)

unfoldable pub ember_pool_release_vm : ℕ → Pool → Pool
unfolding release_into
ember_pool_release_vm vm p = if vm == 0 then p else release_into vm p p.vms
