-- ===== src/Tests/Probes.antt =====
-- The properties of the hash table and of the keys.
use ember_core.Common.{ℕ, ◌<◌, some, ◌≡◌, refl, arith}
use ember_core.HashMap.Grow.{hash_map_set-Wrote}
use ember_core.HashMap.Insert.{Wrote}
use ember_core.HashMap.Keys.{IsLawful}
use ember_core.HashMap.Placed.{find_entry-total}
use ember_core.HashMap.{find_entry, hash_map_set}
use ember_core.Values.Keys.{IsScalar, IsScalar-IsLawful, is_number}
use ember_core.Values.{value_key}
use ember_core.Tests.Tables.{
  doubles, doubles-IsIeee, heap, numbers, numbers-IsLawful, plenty, key, program, with_six,
  with_six-IsEmberSet,
}

IsScalar-IsLawful_example : IsLawful (value_key heap 2) IsScalar
IsScalar-IsLawful_example = IsScalar-IsLawful doubles-IsIeee heap 1

find_entry-total_example :
    (j : ℕ) × (find_entry with_six.elements.entries 8 (key 7) ≡ some j) × (j < 8)
find_entry-total_example =
    find_entry-total with_six.elements.entries 8 (key 7) (unfold program in refl)
      (unfold program in omega arith)

hash_map_set-Wrote_example :
    Wrote IsScalar with_six.elements
      (key 7)
      (key 1)
      (hash_map_set plenty with_six.elements (key 7) (key 1))
hash_map_set-Wrote_example =
    hash_map_set-Wrote numbers-IsLawful plenty with_six.elements with_six-IsEmberSet.table (key 7)
      (key 1) (is_number refl) (λ full. unfold program in refl)
