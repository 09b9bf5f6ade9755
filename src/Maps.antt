-- ===== src/Maps.antt =====
-- src/runtime/value/value.c: `ember_map`, a hash map with the number of its pairs. The results of
-- `int` functions are Booleans; a null map pointer is outside the model.
pub mod Entries
use ember_core.Common.{ℕ, Bool, true, false, not, Option, none, some, if◌then◌else◌}
use ember_core.HashMap.Keys.{Key}
use ember_core.HashMap.{
  HashMap, object_size, allocate_hash_map, find_entry, hash_map_get, hash_map_has_key, hash_map_set,
  occupied_at, vacate, clear_entries,
}

pub record EmberMap {ℓ} (V : Type ℓ) : Type ℓ where
  pub entries : HashMap V
  pub size : ℕ

module _ {ℓ} {V : Type ℓ} ⦃key : Key V⦄ where
  unfoldable pub allocate_map : (ℕ → Bool) → Option (EmberMap V)
  allocate_map malloc =
      if malloc object_size
      then (elim (allocate_hash_map {V = V} malloc 8) [
        | none ↦ none
        | some m ↦ some (record { entries = m; size = 0 })
      ])
      else none

  unfoldable pub map_get : EmberMap V → V → V
  map_get m k = hash_map_get m.entries k

  unfoldable pub map_has : EmberMap V → V → Bool
  map_has m k = hash_map_has_key m.entries k

  unfoldable pub map_set : (ℕ → Bool) → EmberMap V → V → V → EmberMap V × Bool
  map_set malloc m k v =
      let had_key = hash_map_has_key m.entries k in
      let table = hash_map_set malloc m.entries k v in
      (record { entries = table; size = if not had_key then table.length else m.size }, true)

  unfoldable pub map_delete : EmberMap V → V → EmberMap V × Bool
  map_delete m k =
      if not (hash_map_has_key m.entries k)
      then (m, false)
      else (let entry = find_entry m.entries.entries m.entries.capacity k in
          if occupied_at m.entries.entries entry
          then (let table = vacate m.entries entry in
              (record { entries = table; size = table.length }, true))
          else (m, false))

  unfoldable pub map_clear : EmberMap V → EmberMap V
  map_clear m = record { entries = clear_entries m.entries; size = 0 }
