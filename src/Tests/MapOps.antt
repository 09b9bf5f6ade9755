-- ===== src/Tests/MapOps.antt =====
-- The properties of maps on the map that holds 7 under 2 and 8 under 9.
use ember_core.Common.{refl, arith, ℕ}
use ember_core.HashMap.Rehash.{fresh-IsTable}
use ember_core.HashMap.{fresh}
use ember_core.Maps.Entries.{IsEmberMap, Assigned, map_set-Assigned}
use ember_core.Maps.{EmberMap, map_set}
use ember_core.Values.Keys.{IsScalar, is_number}
use ember_core.Values.{Value}
use ember_core.Tests.Tables.{
  doubles, numbers, numbers-IsLawful, plenty, key, program, with_six, with_six-IsEmberSet,
}

abbrev pub empty_map : EmberMap (Value ℕ)
empty_map = record { entries = fresh 8; size = 0 }

abbrev pub one_pair : EmberMap (Value ℕ)
one_pair = (map_set plenty empty_map (key 2) (key 7)).0

abbrev pub two_pairs : EmberMap (Value ℕ)
two_pairs = (map_set plenty one_pair (key 9) (key 8)).0

abbrev six_pairs : EmberMap (Value ℕ)
six_pairs = record { entries = with_six.elements; size = with_six.size }

empty_map-IsEmberMap : IsEmberMap IsScalar empty_map
unfolding fresh
empty_map-IsEmberMap = record {
  table = unfold fresh in fresh-IsTable IsScalar 8 (omega arith) (omega arith);
  counted = refl;
}

one_pair-IsEmberMap : IsEmberMap IsScalar one_pair
one_pair-IsEmberMap =
    (map_set-Assigned numbers-IsLawful empty_map empty_map-IsEmberMap (key 2) (is_number refl)
      plenty (key 7) (λ full. unfold program in refl)).valid

pub two_pairs-IsEmberMap : IsEmberMap IsScalar two_pairs
two_pairs-IsEmberMap =
    (map_set-Assigned numbers-IsLawful one_pair one_pair-IsEmberMap (key 9) (is_number refl) plenty
      (key 8) (λ full. unfold program in refl)).valid

six_pairs-IsEmberMap : IsEmberMap IsScalar six_pairs
six_pairs-IsEmberMap = record {
  table = with_six-IsEmberSet.table;
  counted = with_six-IsEmberSet.counted;
}

map_set-Assigned_example :
    Assigned IsScalar one_pair (key 9) (key 8) (map_set plenty one_pair (key 9) (key 8)).0
map_set-Assigned_example =
    map_set-Assigned numbers-IsLawful one_pair one_pair-IsEmberMap (key 9) (is_number refl) plenty
      (key 8) (λ full. unfold program in refl)
