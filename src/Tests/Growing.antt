-- ===== src/Tests/Growing.antt =====
-- Pushes onto an array of capacity 0.
use ember_core.Arrays.Growth.{IsArray, push_all, push_all-append}
use ember_core.Arrays.{EmberArray, array_push, allocate_array}
use ember_core.Common.{ℕ, ◌≡◌, refl, Bool, true, false, some, [], ◌∷◌, ◌++◌, arith}

abbrev granted : ℕ → Bool
granted n = true

abbrev denied : ℕ → Bool
denied n = false

abbrev empty_array : EmberArray ℕ
empty_array = record { elements = []; capacity = 0 }

allocate_empty : allocate_array {V = ℕ} granted 0 ≡ some empty_array
unfolding allocate_array
allocate_empty = refl

push_grows : (array_push granted empty_array 5).capacity ≡ 8
unfolding array_push
push_grows = refl

push_all-append_example :
    IsArray (push_all granted empty_array (1 ∷ 2 ∷ 3 ∷ []))
    × ((push_all granted empty_array (1 ∷ 2 ∷ 3 ∷ [])).elements ≡ [] ++ (1 ∷ 2 ∷ 3 ∷ []))
unfolding IsArray
push_all-append_example =
    push_all-append granted (λ n. refl) (1 ∷ 2 ∷ 3 ∷ []) empty_array (omega arith, omega arith)
      (omega arith)
