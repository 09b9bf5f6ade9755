-- ===== src/Collections.antt =====
-- src/core/vm_collections.c: the handlers of the stack machine for sets and maps. A set or a map is an
-- address into the heap, whose table and size the handlers change; the keys are hashed and compared in
-- the heap of the moment, to a depth of `fuel`. The stack is an array of EMBER_STACK_MAX values, which
-- keeps what was popped. The address of a new object is a parameter, and so is the conversion of an
-- `int` to a double.
pub mod Balance
pub mod Refined
use ember_core.Common.{
  ℕ, suc, ◌+◌, ◌-◌, Bool, true, false, Option, none, some, List, [], ◌∷◌, get_or, set, ltb, ◌==◌,
  codes, if◌then◌else◌,
}
use ember_core.HashMap.Keys.{Key}
use ember_core.HashMap.{HashMap}
use ember_core.Maps.{EmberMap, allocate_map, map_get, map_has, map_set, map_delete, map_clear}
use ember_core.Sets.{EmberSet, allocate_set, set_has, set_add, set_delete, set_clear}
use ember_core.Values.{
  Double, Value, nil, bool, number, object, set_object, map_object, Heap, value_key,
}

abbrev pub stack_max : ℕ
stack_max = 256

-- the fields of `ember_vm` that the handlers touch; `error` is the message of the last error set
pub record Vm (D : Type 0) : Type 0 where
  pub stack : List (Value D)
  pub stack_top : ℕ
  pub heap : Heap D
  pub error : Option (List ℕ)

-- VM_RESULT_OK and VM_RESULT_ERROR, with the machine after them, and a write past the end of the stack
pub data Result (D : Type 0) : Type 0 where
  ok failed : Vm D → Result D
  overrun : Result D

module _ {D : Type 0} where
  abbrev pub at : Vm D → ℕ → Value D
  at vm i = get_or vm.stack i nil

  abbrev pub fail : Vm D → List ℕ → Result D
  fail vm message = failed (record vm { error = some message })

  -- vm->stack[vm->stack_top++] = v
  unfoldable pub push_value : Vm D → Value D → Result D
  push_value vm v =
      if ltb vm.stack_top stack_max
      then ok (record vm { stack = set vm.stack vm.stack_top v; stack_top = vm.stack_top + 1 })
      else overrun

  -- --vm->stack_top
  abbrev pub dropped : Vm D → Vm D
  dropped vm = record vm { stack_top = vm.stack_top - 1 }

  abbrev pub top : Vm D → Value D
  top vm = at vm (vm.stack_top - 1)

  -- the test of the type, with AS_SET
  abbrev pub as_set : Value D → Option ℕ
  as_set (object set_object a) = some a
  as_set _ = none

  abbrev pub as_map : Value D → Option ℕ
  as_map (object map_object a) = some a
  as_map _ = none

  abbrev pub as_bool : Bool → Value D
  as_bool b = bool (if b then 1 else 0)

  -- `if (val.type != ...) { error } ...`
  abbrev pub operand : Option ℕ → Vm D → List ℕ → (ℕ → Result D) → Result D
  operand none vm message rest = fail vm message
  operand (some a) vm message rest = rest a

  -- the set and the map at an address, and the machine with another one there
  abbrev pub set_at : Vm D → ℕ → EmberSet (Value D)
  set_at vm a = record { elements = vm.heap.table a; size = vm.heap.size a }

  abbrev pub map_at : Vm D → ℕ → EmberMap (Value D)
  map_at vm a = record { entries = vm.heap.table a; size = vm.heap.size a }

  abbrev pub stored : Vm D → ℕ → HashMap (Value D) → ℕ → Vm D
  stored vm a table size = record vm {
    heap = record vm.heap {
      table = λ b. if b == a then table else vm.heap.table b;
      size = λ b. if b == a then size else vm.heap.size b;
    };
  }

  abbrev pub with_set : Vm D → ℕ → EmberSet (Value D) → Vm D
  with_set vm a s = stored vm a s.elements s.size

  abbrev pub with_map : Vm D → ℕ → EmberMap (Value D) → Vm D
  with_map vm a m = stored vm a m.entries m.size

abbrev pub set_underflow : List ℕ
set_underflow = codes "Stack underflow in set operation"

abbrev pub map_underflow : List ℕ
map_underflow = codes "Stack underflow in map operation"

abbrev pub expected_set : List ℕ
expected_set = codes "Expected Set value"

abbrev pub expected_map : List ℕ
expected_map = codes "Expected Map value"

module _ {D : Type 0} ⦃fp : Double D⦄ (malloc : ℕ → Bool) (fuel : ℕ) (from_int : ℕ → D) where
  abbrev pub keys_of : Vm D → Key (Value D)
  keys_of vm = value_key vm.heap fuel

  unfoldable pub vm_handle_set_new : ℕ → Vm D → Result D
  unfolding push_value
  vm_handle_set_new address vm = elim (allocate_set ⦃key = keys_of vm⦄ malloc) [
    | none ↦ fail vm (codes "Failed to create new Set")
    | some s ↦ push_value (with_set vm address s) (object set_object address)
  ]

  unfoldable pub vm_handle_set_add : Vm D → Result D
  unfolding push_value
  vm_handle_set_add vm =
      if ltb vm.stack_top 2
      then fail vm set_underflow
      else (let element = top vm in
          let rest1 = dropped vm in
          let set_val = top rest1 in
          operand (as_set set_val) rest1 expected_set (λ a.
            push_value
              (with_set rest1 a (set_add ⦃key = keys_of rest1⦄ malloc (set_at rest1 a) element).0)
              set_val))

  unfoldable pub vm_handle_set_has : Vm D → Result D
  unfolding push_value
  vm_handle_set_has vm =
      if ltb vm.stack_top 2
      then fail vm set_underflow
      else (let element = top vm in
          let rest1 = dropped vm in
          let set_val = top rest1 in
          let rest2 = dropped rest1 in
          operand (as_set set_val) rest2 expected_set (λ a.
            push_value rest2 (as_bool (set_has ⦃key = keys_of rest2⦄ (set_at rest2 a) element))))

  unfoldable pub vm_handle_set_delete : Vm D → Result D
  unfolding push_value
  vm_handle_set_delete vm =
      if ltb vm.stack_top 2
      then fail vm set_underflow
      else (let element = top vm in
          let rest1 = dropped vm in
          let set_val = top rest1 in
          operand (as_set set_val) rest1 expected_set (λ a.
            let r = set_delete ⦃key = keys_of rest1⦄ (set_at rest1 a) element in
            push_value (with_set rest1 a r.0) (as_bool r.1)))

  unfoldable pub vm_handle_set_size : Vm D → Result D
  unfolding push_value
  vm_handle_set_size vm =
      if ltb vm.stack_top 1
      then fail vm set_underflow
      else (let set_val = top vm in
          let rest1 = dropped vm in
          operand (as_set set_val) rest1 expected_set
            (λ a. push_value rest1 (number (from_int (set_at rest1 a).size))))

  unfoldable pub vm_handle_set_clear : Vm D → Result D
  unfolding push_value
  vm_handle_set_clear vm =
      if ltb vm.stack_top 1
      then fail vm set_underflow
      else (let set_val = top vm in
          operand (as_set set_val) vm expected_set
            (λ a. push_value (with_set vm a (set_clear ⦃key = keys_of vm⦄ (set_at vm a))) set_val))

  unfoldable pub vm_handle_map_new : ℕ → Vm D → Result D
  unfolding push_value
  vm_handle_map_new address vm = elim (allocate_map ⦃key = keys_of vm⦄ malloc) [
    | none ↦ fail vm (codes "Failed to create new Map")
    | some m ↦ push_value (with_map vm address m) (object map_object address)
  ]

  unfoldable pub vm_handle_map_set : Vm D → Result D
  unfolding push_value
  vm_handle_map_set vm =
      if ltb vm.stack_top 3
      then fail vm map_underflow
      else (let value = top vm in
          let rest1 = dropped vm in
          let key = top rest1 in
          let rest2 = dropped rest1 in
          let map_val = top rest2 in
          operand (as_map map_val) rest2 expected_map (λ a.
            push_value
              (with_map rest2 a (map_set ⦃key = keys_of rest2⦄ malloc (map_at rest2 a) key value).0)
              map_val))

  unfoldable pub vm_handle_map_get : Vm D → Result D
  unfolding push_value
  vm_handle_map_get vm =
      if ltb vm.stack_top 2
      then fail vm set_underflow
      else (let key = top vm in
          let rest1 = dropped vm in
          let map_val = top rest1 in
          let rest2 = dropped rest1 in
          operand (as_map map_val) rest2 expected_map
            (λ a. push_value rest2 (map_get ⦃key = keys_of rest2⦄ (map_at rest2 a) key)))

  unfoldable pub vm_handle_map_has : Vm D → Result D
  unfolding push_value
  vm_handle_map_has vm =
      if ltb vm.stack_top 2
      then fail vm set_underflow
      else (let key = top vm in
          let rest1 = dropped vm in
          let map_val = top rest1 in
          let rest2 = dropped rest1 in
          operand (as_map map_val) rest2 expected_map
            (λ a. push_value rest2 (as_bool (map_has ⦃key = keys_of rest2⦄ (map_at rest2 a) key))))

  unfoldable pub vm_handle_map_delete : Vm D → Result D
  unfolding push_value
  vm_handle_map_delete vm =
      if ltb vm.stack_top 2
      then fail vm set_underflow
      else (let key = top vm in
          let rest1 = dropped vm in
          let map_val = top rest1 in
          operand (as_map map_val) rest1 expected_map (λ a.
            let r = map_delete ⦃key = keys_of rest1⦄ (map_at rest1 a) key in
            push_value (with_map rest1 a r.0) (as_bool r.1)))

  unfoldable pub vm_handle_map_size : Vm D → Result D
  unfolding push_value
  vm_handle_map_size vm =
      if ltb vm.stack_top 1
      then fail vm set_underflow
      else (let map_val = top vm in
          let rest1 = dropped vm in
          operand (as_map map_val) rest1 expected_map
            (λ a. push_value rest1 (number (from_int (map_at rest1 a).size))))

  unfoldable pub vm_handle_map_clear : Vm D → Result D
  unfolding push_value
  vm_handle_map_clear vm =
      if ltb vm.stack_top 1
      then fail vm set_underflow
      else (let map_val = top vm in
          operand (as_map map_val) vm expected_map
            (λ a. push_value (with_map vm a (map_clear ⦃key = keys_of vm⦄ (map_at vm a))) map_val))

-- the handlers by their operations
pub data Op : Type 0 where
  set_new map_new : ℕ → Op
  set_add_op set_has_op set_delete_op set_size_op set_clear_op : Op
  map_set_op map_get_op map_has_op map_delete_op map_size_op map_clear_op : Op

module _ {D : Type 0} ⦃fp : Double D⦄ (malloc : ℕ → Bool) (fuel : ℕ) (from_int : ℕ → D) where
  abbrev pub handle : Op → Vm D → Result D
  handle (set_new address) = vm_handle_set_new malloc fuel from_int address
  handle (map_new address) = vm_handle_map_new malloc fuel from_int address
  handle set_add_op = vm_handle_set_add malloc fuel from_int
  handle set_has_op = vm_handle_set_has malloc fuel from_int
  handle set_delete_op = vm_handle_set_delete malloc fuel from_int
  handle set_size_op = vm_handle_set_size malloc fuel from_int
  handle set_clear_op = vm_handle_set_clear malloc fuel from_int
  handle map_set_op = vm_handle_map_set malloc fuel from_int
  handle map_get_op = vm_handle_map_get malloc fuel from_int
  handle map_has_op = vm_handle_map_has malloc fuel from_int
  handle map_delete_op = vm_handle_map_delete malloc fuel from_int
  handle map_size_op = vm_handle_map_size malloc fuel from_int
  handle map_clear_op = vm_handle_map_clear malloc fuel from_int
