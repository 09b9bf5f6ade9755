-- ===== src/Tests/SetOps.antt =====
-- The properties of sets on the sets {2}, {2, 9} and a full table of six numbers.
use ember_core.Common.{true, false, ◌||◌, some, ◌≡◌, refl, arith, ℕ}
use ember_core.Sets.Algebra.{set_union-has}
use ember_core.Sets.Elements.{IsEmberSet, Added, set_add-Added, set_delete_loses}
use ember_core.Sets.{EmberSet, set_has, set_add, set_delete, set_union}
use ember_core.Values.Keys.{IsScalar, is_number}
use ember_core.Values.{Value}
use ember_core.Tests.Tables.{
  doubles, numbers, numbers-IsLawful, plenty, always, key, program, with_2, with_2_9, with_six,
  with_2-IsEmberSet, with_2_9-IsEmberSet, with_six-IsEmberSet,
}

set_add-Added_example :
    Added IsScalar with_2 (key 9) (set_add plenty with_2 (key 9)).0
    × ((set_add plenty with_2 (key 9)).1 ≡ true)
set_add-Added_example =
    set_add-Added numbers-IsLawful with_2 with_2-IsEmberSet (key 9) (is_number refl) plenty
      (λ full. unfold program in refl)

set_delete_loses_example : set_has (set_delete with_2_9 (key 2)).0 (key 9) ≡ false
set_delete_loses_example =
    set_delete_loses numbers-IsLawful with_2_9 with_2_9-IsEmberSet (key 2) (is_number refl) 0
      (key 9) (unfold program in refl) (unfold program in refl) (unfold program in refl)
      (unfold program in refl) (unfold program in refl)

set_union-has_example :
    (r : EmberSet (Value ℕ)) × (set_union plenty with_2_9 with_six ≡ some r)
    × IsEmberSet IsScalar r
    × ((q : Value ℕ) → IsScalar q → set_has r q ≡ (set_has with_2_9 q || set_has with_six q))
set_union-has_example =
    set_union-has numbers-IsLawful plenty always with_2_9 with_six with_2_9-IsEmberSet
      with_six-IsEmberSet (unfold program in omega arith)
