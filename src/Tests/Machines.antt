-- ===== src/Tests/Machines.antt =====
-- The handlers on a machine with the empty set at address 1 and the number 2 on its stack.
use ember_core.Collections.Balance.{IsVm, Balanced, handle-Balanced, pops}
use ember_core.Collections.Refined.{AddedAt, vm_handle_set_add-AddedAt}
use ember_core.Collections.{Vm, ok, handle, set_has_op, vm_handle_set_add}
use ember_core.Common.{ℕ, none, ◌∷◌, replicate, ◌≡◌, refl, arith}
use ember_core.HashMap.Rehash.{fresh-IsTable}
use ember_core.HashMap.{fresh}
use ember_core.Tests.Tables.{doubles, doubles-IsIeee, heap, numbers, plenty, program}
use ember_core.Values.Keys.{IsScalar, is_number}
use ember_core.Values.{nil, number, object, set_object, Heap}

abbrev one_set : Heap ℕ
one_set = record heap { table = λ a. fresh 8 }

abbrev machine : Vm ℕ
machine = record {
  stack = object set_object 1 ∷ number 2 ∷ replicate 254 nil;
  stack_top = 2;
  heap = one_set;
  error = none;
}

machine-IsVm : IsVm machine
machine-IsVm = record { sized = refl; bound = omega arith }

handle-Balanced_example :
    Balanced (pops set_has_op) 1 machine (handle plenty 1 (λ n. n) set_has_op machine)
handle-Balanced_example = handle-Balanced plenty 1 (λ n. n) set_has_op machine machine-IsVm

vm_handle_set_add-AddedAt_example :
    (vm' : Vm ℕ) × (vm_handle_set_add plenty 1 (λ n. n) machine ≡ ok vm')
    × AddedAt doubles-IsIeee plenty 0 (λ n. n) machine 1 vm'
unfolding fresh
vm_handle_set_add-AddedAt_example =
    vm_handle_set_add-AddedAt doubles-IsIeee plenty 0 (λ n. n) machine 1 machine-IsVm (omega arith)
      refl (is_number refl)
      (record {
        table = fresh-IsTable ⦃key = _⦄ IsScalar 8 (omega arith) (omega arith);
        counted = unfold fresh in refl;
      })
      (λ full. unfold program in refl)
