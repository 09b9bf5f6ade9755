-- ===== src/Tests/Walks.antt =====
-- The iterators on the map that holds 7 under 2 and 8 under 9.
use ember_core.Common.{true, false, ◌≡◌, refl, arith, some, [], ◌∷◌}
use ember_core.Iterators.Copied.{Holds, map_copies-Holds}
use ember_core.Iterators.Drained.{drained, drain-items, items}
use ember_core.Iterators.Peeked.{iterator_done-next}
use ember_core.Iterators.{
  Iterator, IteratorType, pair, a_map, new_iterator, iterator_next, iterator_done,
  ember_make_iterator, map_keys, map_values, map_entries,
}
use ember_core.Tests.MapOps.{two_pairs, two_pairs-IsEmberMap}
use ember_core.Tests.Tables.{numbers, plenty, always, key, program}

abbrev walk : Iterator
walk = new_iterator (a_map two_pairs) IteratorType.iterator_map_entries

two_items :
    items IteratorType.iterator_map_entries (a_map two_pairs)
    ≡ pair (key 2) (key 7) ∷ pair (key 9) (key 8) ∷ []
unfolding program
two_items = refl

drain-items_example :
    drained
      (iterator_next true (a_map two_pairs))
      3
      (ember_make_iterator true (a_map two_pairs) IteratorType.iterator_map_entries)
    ≡ some (items IteratorType.iterator_map_entries (a_map two_pairs))
drain-items_example =
    drain-items IteratorType.iterator_map_entries (a_map two_pairs) 3 refl
      two_pairs-IsEmberMap.table.sized (unfold program in omega arith)

iterator_done-next_example :
    ((iterator_done false (a_map two_pairs) walk).0
      ≡ (iterator_next false (a_map two_pairs) walk).0.done)
    × (iterator_next true (a_map two_pairs) (iterator_done false (a_map two_pairs) walk).1
        ≡ iterator_next true (a_map two_pairs) walk)
iterator_done-next_example = iterator_done-next false true (a_map two_pairs) walk

map_copies-Holds_example :
    Holds (map_keys plenty true two_pairs) (items IteratorType.iterator_map_keys (a_map two_pairs))
    × Holds
        (map_values plenty true two_pairs)
        (items IteratorType.iterator_map_values (a_map two_pairs))
    × Holds
        (map_entries plenty true plenty two_pairs)
        (items IteratorType.iterator_map_entries (a_map two_pairs))
map_copies-Holds_example =
    map_copies-Holds plenty always plenty always two_pairs two_pairs-IsEmberMap
