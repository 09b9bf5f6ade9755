-- ===== src/Collections/Refined.antt =====
-- The handlers of src/core/vm_collections.c against the operations on sets.
use ember_core.Collections.Balance.{IsVm}
use ember_core.Collections.{
  Vm, ok, stack_max, push_value, vm_handle_set_add, top, dropped, set_at, with_set, keys_of,
}
use ember_core.Common.{
  ℕ, suc, ◌+◌, ◌-◌, ◌≤◌, ◌≡◌, refl, inl, inr, Bool, true, false, set, get_or-set_self, arith,
  if◌then◌else◌, ltb, ◌==◌, ==_refl, Bool-cases,
}
use ember_core.HashMap.{overloaded, can_grow}
use ember_core.Sets.Elements.{IsEmberSet, Added, set_add-Added}
use ember_core.Sets.{set_add}
use ember_core.Values.Keys.{IsIeee, IsScalar, IsScalar-IsLawful}
use ember_core.Values.{Double, object, set_object, nil}

module _ {D : Type 0} ⦃fp : Double D⦄ (ieee : IsIeee fp) (malloc : ℕ → Bool) (fuel : ℕ)
    (from_int : ℕ → D) where
  -- What the handler of `set_add` makes of the machine.
  pub record AddedAt (vm : Vm D) (a : ℕ) (vm' : Vm D) : Type 0 where
    pub added :
        Added ⦃key = keys_of malloc (suc fuel) from_int vm⦄ IsScalar
          (set_at vm a)
          (top vm)
          (set_at vm' a)
    pub others : (b : ℕ) → set_at vm' b ≡ (if b == a then set_at vm' a else set_at vm b)
    pub kept : top vm' ≡ object set_object a
    pub height : vm'.stack_top ≡ vm.stack_top

  -- The machine after the handler: the operand's place holds the set.
  abbrev after : Vm D → ℕ → Vm D
  after vm a =
      let s = set_add ⦃key = keys_of malloc (suc fuel) from_int vm⦄ malloc (set_at vm a) (top vm) in
      record (with_set (dropped vm) a s.0) {
        stack = set vm.stack (vm.stack_top - 1) (object set_object a);
        stack_top = vm.stack_top - 1 + 1;
      }

  -- On a valid machine with a set of valid contents below a scalar key, where the table has room or
  -- may grow, the handler of `set_add` succeeds: the set at that address has the key added, the
  -- objects at all other addresses are as before, and the set is on top of a stack of the same
  -- height.
  pub vm_handle_set_add-AddedAt :
      (vm : Vm D) (a : ℕ)
      → IsVm vm
      → 2 ≤ vm.stack_top
      → top (dropped vm) ≡ object set_object a
      → IsScalar (top vm)
      → IsEmberSet ⦃key = keys_of malloc (suc fuel) from_int vm⦄ IsScalar (set_at vm a)
      → (overloaded ⦃key = keys_of malloc (suc fuel) from_int vm⦄ (set_at vm a).elements ≡ true
          → can_grow malloc (set_at vm a).elements.capacity ≡ true)
      → (vm' : Vm D) × (vm_handle_set_add malloc (suc fuel) from_int vm ≡ ok vm') × AddedAt vm a vm'
  unfolding vm_handle_set_add push_value
  vm_handle_set_add-AddedAt vm a valid two at_a scalar set_valid grows =
      let low : ltb vm.stack_top 2 ≡ false = ground arith in
      let room : ltb (vm.stack_top - 1) stack_max ≡ true = ground (arith, valid.bound) in
      let added =
        set_add-Added ⦃key = _⦄ (IsScalar-IsLawful ieee vm.heap fuel) (set_at vm a) set_valid
          (top vm) scalar malloc grows in
      (
        after vm a,
        rw (low, at_a, room) refl,
        record {
          added = rw (==_refl a) added.0;
          others = λ b. rw (==_refl a) (stored_at vm b);
          kept = rw (height vm.stack_top two) (
              get_or-set_self vm.stack (vm.stack_top - 1) (object set_object a) nil
                (omega (arith, valid.sized, valid.bound)));
          height = omega arith;
        },
      )
    where
      stored_at :
          (vm : Vm D) (b : ℕ)
          → set_at (after vm a) b ≡ (
              if b == a
              then (set_add ⦃key = keys_of malloc (suc fuel) from_int vm⦄ malloc
                  (set_at vm a)
                  (top vm)).0
              else set_at vm b)
      stored_at vm b = elim (Bool-cases (b == a)) [ inl e ↦ rw e refl | inr e ↦ rw e refl ]

      height : (n : ℕ) → 2 ≤ n → n - 1 + 1 - 1 ≡ n - 1
      height n h = omega arith
