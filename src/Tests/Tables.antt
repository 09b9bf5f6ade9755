-- ===== src/Tests/Tables.antt =====
-- Hash maps, sets and maps of numbers. A number stands for the double with that bit pattern; the
-- patterns 2 and 9 both hash to slot 0 of 8, and 1 hashes to slot 4.
use ember_core.Common.{ℕ, Bool, true, false, not, ◌&&◌, none, some, ◌≡◌, refl, arith, ◌==◌, []}
use ember_core.HashMap.Keys.{Key, IsLawful}
use ember_core.HashMap.Rehash.{fresh-IsTable}
use ember_core.HashMap.{
  find_entry, hash_map_get, hash_map_has_key, hash_map_set, set_within, fresh, can_grow,
  allocate_hash_map, find_from, occupied_at, put, write, rehash, vacate,
}
use ember_core.Maps.{map_get, map_has, map_set, map_delete, map_clear}
use ember_core.Sets.Elements.{IsEmberSet, set_add-Added}
use ember_core.Sets.{
  EmberSet, set_has, set_add, set_delete, set_clear, set_union, set_intersection, set_difference,
  set_is_subset, all_in, add_where, allocate_set,
}
use ember_core.Values.Keys.{IsIeee, IsScalar, IsScalar-IsLawful, is_number}
use ember_core.Values.{Double, Value, number, Heap, hash_value, values_equal, value_key}

-- the number 99 plays the part of a NaN
instance abbrev pub doubles : Double ℕ
doubles = record { equal = λ a b. a == b && not (a == 99); bits = λ d. d; zero_value = 0 }

pub doubles-IsIeee : IsIeee doubles
doubles-IsIeee = record {
  symm = λ a b. ground arith;
  trans = λ a b c p q. ground arith;
  bits_equal = λ a b p q. ground arith;
}

abbrev pub heap : Heap ℕ
heap = record {
  chars = λ a. [];
  elements = λ a. [];
  table = λ a. record { entries = []; length = 0; capacity = 0 };
  size = λ a. 0;
  regex_at = λ a. record { flags = 0; pattern = none };
}

instance abbrev pub numbers : Key (Value ℕ)
numbers = value_key heap 1

pub numbers-IsLawful : IsLawful numbers IsScalar
numbers-IsLawful = IsScalar-IsLawful doubles-IsIeee heap 0

abbrev pub plenty : ℕ → Bool
plenty n = true

abbrev pub nothing_left : ℕ → Bool
nothing_left n = false

abbrev pub key : ℕ → Value ℕ
key n = number n

unfoldable pub program : Unit {0}
unfolding hash_value values_equal find_from find_entry occupied_at hash_map_get hash_map_has_key
    hash_map_set set_within put write rehash vacate fresh all_in add_where allocate_set can_grow
    allocate_hash_map set_has set_add set_delete set_clear set_union set_intersection set_difference
    set_is_subset map_get map_has map_set map_delete map_clear
program = tt

abbrev pub empty_set : EmberSet (Value ℕ)
empty_set = record { elements = fresh 8; size = 0 }

abbrev pub with_2 : EmberSet (Value ℕ)
with_2 = (set_add plenty empty_set (key 2)).0

abbrev pub with_2_9 : EmberSet (Value ℕ)
with_2_9 = (set_add plenty with_2 (key 9)).0

home_of_9 : find_entry with_2_9.elements.entries 8 (key 9) ≡ some 1
unfolding program
home_of_9 = refl

pub always : (n : ℕ) → plenty n ≡ true
always n = refl

pub empty_set-IsEmberSet : IsEmberSet IsScalar empty_set
unfolding fresh
empty_set-IsEmberSet = record {
  table = unfold fresh in fresh-IsTable IsScalar 8 (omega arith) (omega arith);
  counted = refl;
}

-- An element added to a table of capacity 8.
pub add_valid :
    (s : EmberSet (Value ℕ)) (n : ℕ)
    → IsEmberSet IsScalar s
    → (n == 99) ≡ false
    → s.elements.capacity ≡ 8
    → IsEmberSet IsScalar (set_add plenty s (key n)).0
add_valid s n valid ok eight =
    (set_add-Added numbers-IsLawful s valid (key n) (is_number (ground arith)) plenty
      (λ full. rw eight (unfold can_grow in refl))).0.valid

abbrev pub with_six : EmberSet (Value ℕ)
with_six =
    (set_add plenty
      (set_add plenty (set_add plenty (set_add plenty with_2_9 (key 1)).0 (key 3)).0 (key 4)).0
      (key 5)).0

pub with_2-IsEmberSet : IsEmberSet IsScalar with_2
with_2-IsEmberSet = add_valid empty_set 2 empty_set-IsEmberSet refl (unfold program in refl)

pub with_2_9-IsEmberSet : IsEmberSet IsScalar with_2_9
with_2_9-IsEmberSet = add_valid with_2 9 with_2-IsEmberSet refl (unfold program in refl)

pub with_six-IsEmberSet : IsEmberSet IsScalar with_six
with_six-IsEmberSet =
    let a = add_valid with_2_9 1 with_2_9-IsEmberSet refl (unfold program in refl) in
    let b = add_valid _ 3 a refl (unfold program in refl) in
    let c = add_valid _ 4 b refl (unfold program in refl) in
    add_valid _ 5 c refl (unfold program in refl)
