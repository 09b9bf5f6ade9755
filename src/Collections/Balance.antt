-- ===== src/Collections/Balance.antt =====
-- The height of the stack under the handlers of src/core/vm_collections.c.
use ember_core.Common.{
  ℕ, suc, ◌+◌, ◌≤◌, ◌≡◌, refl, ap, ◌∙◌, inl, inr, Bool, true, false, Option, none, some, List,
  length, length-set, arith, if◌then◌else◌, ltb, Bool-cases, Option-cases,
}
use ember_core.Collections.{
  Vm, Result, ok, failed, overrun, stack_max, push_value, fail, operand, handle, Op, set_new,
  map_new, set_add_op, set_has_op, set_delete_op, set_size_op, set_clear_op, map_set_op, map_get_op,
  map_has_op, map_delete_op, map_size_op, map_clear_op, vm_handle_set_new, vm_handle_set_add,
  vm_handle_set_has, vm_handle_set_delete, vm_handle_set_size, vm_handle_set_clear,
  vm_handle_map_new, vm_handle_map_set, vm_handle_map_get, vm_handle_map_has, vm_handle_map_delete,
  vm_handle_map_size, vm_handle_map_clear, dropped,
}
use ember_core.Maps.{allocate_map}
use ember_core.Sets.{allocate_set}
use ember_core.Values.{Double, Value, value_key}

module _ {D : Type 0} where
  pub record IsVm (vm : Vm D) : Type 0 where
    pub sized : length vm.stack ≡ stack_max
    pub bound : vm.stack_top ≤ stack_max

  -- A handler that takes `pops` values off the stack and leaves `pushes`.
  pub data Balanced (pops pushes : ℕ) (vm : Vm D) : Result D → Type 0 where
    done :
        {vm' : Vm D}
        → IsVm vm'
        → vm'.stack_top + pops ≡ vm.stack_top + pushes
        → Balanced pops pushes vm (ok vm')
    stopped :
        {vm' : Vm D}
        → IsVm vm'
        → vm'.stack_top ≤ vm.stack_top
        → Balanced pops pushes vm (failed vm')
    over : vm.stack_top ≡ stack_max → pushes ≡ suc pops → Balanced pops pushes vm overrun

  push-Balanced :
      (vm vm' : Vm D) (pops : ℕ) (v : Value D)
      → IsVm vm
      → IsVm vm'
      → vm'.stack_top + pops ≡ vm.stack_top
      → Balanced pops 1 vm (push_value vm' v)
  unfolding push_value
  push-Balanced vm vm' pops v valid valid' e = elim (Bool-cases (ltb vm'.stack_top stack_max)) [
    | inl room ↦ rw room (
        done
          (record {
            sized = length-set vm'.stack vm'.stack_top v ∙ valid'.sized;
            bound = ground arith;
          })
          (omega arith))
    | inr full ↦ rw full (
        over (ground (arith, valid.bound, valid'.bound))
          (ground (arith, valid.bound, valid'.bound)))
  ]

  -- A value of the wrong type stops the handler.
  operand-Balanced :
      (o : Option ℕ) (vm vm' : Vm D) (message : List ℕ) (rest : ℕ → Result D) (pops : ℕ)
      → IsVm vm'
      → vm'.stack_top ≤ vm.stack_top
      → ((a : ℕ) → Balanced pops 1 vm (rest a))
      → Balanced pops 1 vm (operand o vm' message rest)
  operand-Balanced none vm vm' message rest pops valid le b =
      stopped (record { sized = valid.sized; bound = valid.bound }) le
  operand-Balanced (some a) vm vm' message rest pops valid le b = b a

  -- So does a stack that is too low.
  guard-Balanced :
      (low : Bool) (vm : Vm D) (message : List ℕ) (rest : Result D) (pops : ℕ)
      → IsVm vm
      → (low ≡ false → Balanced pops 1 vm rest)
      → Balanced pops 1 vm (if low then fail vm message else rest)
  guard-Balanced true vm message rest pops valid b =
      stopped (record { sized = valid.sized; bound = valid.bound }) (omega arith)
  guard-Balanced false vm message rest pops valid b = b refl

  dropped-IsVm : (vm : Vm D) → IsVm vm → IsVm (dropped vm)
  dropped-IsVm vm valid = record { sized = valid.sized; bound = omega (arith, valid.bound) }

  -- The common shape: enough values, a value of the right type, and one value pushed.
  shape-Balanced :
      (vm vm' : Vm D) (pops need : ℕ) (message message' : List ℕ) (o : Option ℕ) (f : ℕ → Vm D)
      (v : ℕ → Value D)
      → IsVm vm
      → IsVm vm'
      → (need ≤ vm.stack_top → vm'.stack_top + pops ≡ vm.stack_top)
      → vm'.stack_top ≤ vm.stack_top
      → ((a : ℕ) → (f a).stack ≡ vm'.stack)
      → ((a : ℕ) → (f a).stack_top ≡ vm'.stack_top)
      → Balanced pops 1 vm (
          if ltb vm.stack_top need
          then fail vm message
          else operand o vm' message' (λ a. push_value (f a) (v a)))
  shape-Balanced vm vm' pops need message message' o f v valid valid' pop le stacks tops =
      guard-Balanced (ltb vm.stack_top need) vm message _ pops valid (λ high.
        operand-Balanced o vm vm' message' _ pops valid' le (λ a.
          push-Balanced vm (f a) pops (v a) valid
            (record {
              sized = ap length (stacks a) ∙ valid'.sized;
              bound = omega (arith, tops a, valid'.bound);
            })
            (omega (arith, tops a, pop (ground arith)))))

abbrev pub pops : Op → ℕ
pops (set_new address) = 0
pops (map_new address) = 0
pops set_clear_op = 0
pops map_clear_op = 0
pops set_has_op = 2
pops map_get_op = 2
pops map_has_op = 2
pops map_set_op = 2
pops _ = 1

module _ {D : Type 0} ⦃fp : Double D⦄ (malloc : ℕ → Bool) (fuel : ℕ) (from_int : ℕ → D) where
  set_new-Balanced :
      (address : ℕ) (vm : Vm D)
      → IsVm vm
      → Balanced 0 1 vm (vm_handle_set_new malloc fuel from_int address vm)
  unfolding vm_handle_set_new
  set_new-Balanced address vm valid =
      elim (Option-cases (allocate_set ⦃key = value_key vm.heap fuel⦄ malloc)) [
        | inl e ↦
            rw (e, vm_handle_set_new)
              (stopped (record { sized = valid.sized; bound = valid.bound }) (omega arith))
        | inr (s, e) ↦
            rw (e, vm_handle_set_new)
              (push-Balanced vm _ 0 _ valid (record { sized = valid.sized; bound = valid.bound })
                (omega arith))
      ]

  map_new-Balanced :
      (address : ℕ) (vm : Vm D)
      → IsVm vm
      → Balanced 0 1 vm (vm_handle_map_new malloc fuel from_int address vm)
  unfolding vm_handle_map_new
  map_new-Balanced address vm valid =
      elim (Option-cases (allocate_map ⦃key = value_key vm.heap fuel⦄ malloc)) [
        | inl e ↦
            rw (e, vm_handle_map_new)
              (stopped (record { sized = valid.sized; bound = valid.bound }) (omega arith))
        | inr (s, e) ↦
            rw (e, vm_handle_map_new)
              (push-Balanced vm _ 0 _ valid (record { sized = valid.sized; bound = valid.bound })
                (omega arith))
      ]

  -- On a machine whose stack is an array of EMBER_STACK_MAX values with its top inside, every
  -- handler leaves such a machine: on success the height is changed by the values it takes and the
  -- one it leaves, on an error it is no higher; it writes past the end of the array only at the
  -- full height and only where it takes no value.
  pub handle-Balanced :
      (op : Op) (vm : Vm D) → IsVm vm → Balanced (pops op) 1 vm (handle malloc fuel from_int op vm)
  unfolding vm_handle_set_add vm_handle_set_has vm_handle_set_delete vm_handle_set_size
      vm_handle_set_clear vm_handle_map_set vm_handle_map_get vm_handle_map_has vm_handle_map_delete
      vm_handle_map_size vm_handle_map_clear
  handle-Balanced (set_new address) vm valid = set_new-Balanced address vm valid
  handle-Balanced (map_new address) vm valid = map_new-Balanced address vm valid
  handle-Balanced set_add_op vm valid =
      shape-Balanced vm (dropped vm) 1 2 _ _ _ _ _ valid (dropped-IsVm vm valid) (λ h. omega arith)
        (omega arith) (λ a. refl) (λ a. refl)
  handle-Balanced set_has_op vm valid =
      shape-Balanced vm (dropped (dropped vm)) 2 2 _ _ _ _ _ valid
        (dropped-IsVm (dropped vm) (dropped-IsVm vm valid)) (λ h. omega arith) (omega arith)
        (λ a. refl) (λ a. refl)
  handle-Balanced set_delete_op vm valid =
      shape-Balanced vm (dropped vm) 1 2 _ _ _ _ _ valid (dropped-IsVm vm valid) (λ h. omega arith)
        (omega arith) (λ a. refl) (λ a. refl)
  handle-Balanced set_size_op vm valid =
      shape-Balanced vm (dropped vm) 1 1 _ _ _ _ _ valid (dropped-IsVm vm valid) (λ h. omega arith)
        (omega arith) (λ a. refl) (λ a. refl)
  handle-Balanced set_clear_op vm valid =
      shape-Balanced vm vm 0 1 _ _ _ _ _ valid valid (λ h. omega arith) (omega arith) (λ a. refl)
        (λ a. refl)
  handle-Balanced map_set_op vm valid =
      shape-Balanced vm (dropped (dropped vm)) 2 3 _ _ _ _ _ valid
        (dropped-IsVm (dropped vm) (dropped-IsVm vm valid)) (λ h. omega arith) (omega arith)
        (λ a. refl) (λ a. refl)
  handle-Balanced map_get_op vm valid =
      shape-Balanced vm (dropped (dropped vm)) 2 2 _ _ _ _ _ valid
        (dropped-IsVm (dropped vm) (dropped-IsVm vm valid)) (λ h. omega arith) (omega arith)
        (λ a. refl) (λ a. refl)
  handle-Balanced map_has_op vm valid =
      shape-Balanced vm (dropped (dropped vm)) 2 2 _ _ _ _ _ valid
        (dropped-IsVm (dropped vm) (dropped-IsVm vm valid)) (λ h. omega arith) (omega arith)
        (λ a. refl) (λ a. refl)
  handle-Balanced map_delete_op vm valid =
      shape-Balanced vm (dropped vm) 1 2 _ _ _ _ _ valid (dropped-IsVm vm valid) (λ h. omega arith)
        (omega arith) (λ a. refl) (λ a. refl)
  handle-Balanced map_size_op vm valid =
      shape-Balanced vm (dropped vm) 1 1 _ _ _ _ _ valid (dropped-IsVm vm valid) (λ h. omega arith)
        (omega arith) (λ a. refl) (λ a. refl)
  handle-Balanced map_clear_op vm valid =
      shape-Balanced vm vm 0 1 _ _ _ _ _ valid valid (λ h. omega arith) (omega arith) (λ a. refl)
        (λ a. refl)
