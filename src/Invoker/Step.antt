-- ===== src/Invoker/Step.antt =====
-- A tick of a domain or function, stepTick of src/strideenvironment.cpp, with the states that it
-- allocates. What malloc gives, the table of functions and the call itself are parameters.
use stridejit.StateDefaults.{DataLayout, StateDefaults, allocate_state}
use stridejit.Invoker.{
  FunctionArgInfo, Pointer, null, given, property_of, is_state, target_function,
}
use stridejit.Prelude.{Bool, List, Option, String, [], false, none, some, suc, true, ℕ, ℤ, ◌∷◌}

-- How often a state was asked for, and the bytes of the states at their addresses, the last one first.
pub record Heap : Type 0 where
  pub calls : ℕ
  pub states : List (ℕ × List ℕ)

-- The next of the pointers that were given, null past the last, and those behind it.
abbrev pub user_arg : List Pointer → Pointer
user_arg [] = null
user_arg (p ∷ ps) = p

abbrev pub user_args_left : List Pointer → List Pointer
user_args_left [] = []
user_args_left (p ∷ ps) = ps

module _ {Ty : Type 0} (data_layout : Option (DataLayout Ty)) (has_module : Bool)
    (malloc : ℕ → Option ℕ) where
  -- `allocateState` on the heap. None is a write outside the state.
  unfoldable pub allocated_state : Option (StateDefaults Ty) → Heap → Option (Pointer × Heap)
  allocated_state info h = elim (malloc h.calls) [
    | none ↦ some (null, record h { calls = suc h.calls })
    | some address ↦ elim (allocate_state data_layout (λ size. true) has_module info) [
      | none ↦ none
      | some state ↦ elim state [
        | none ↦ some (null, record h { calls = suc h.calls })
        | some mem ↦
            some (given address, record { calls = suc h.calls; states = (address, mem) ∷ h.states })
      ]
    ]
  ]

  -- `statePtr ? statePtr : allocateState(targetFunc)`
  abbrev pub state_pointer : Option (StateDefaults Ty) → Pointer → Heap → Option (Pointer × Heap)
  state_pointer info null h = allocated_state info h
  state_pointer info (given a) h = some (given a, h)
  state_pointer info (property_of i) h = some (property_of i, h)

  -- The loop over the arguments: the state where it belongs, the others in their order.
  unfoldable pub call_args :
      Option (StateDefaults Ty)
      → Pointer
      → List FunctionArgInfo
      → List Pointer
      → Heap
      → Option (List Pointer × Heap)
  call_args info state_ptr [] in_out h = some ([], h)
  call_args info state_ptr (arg ∷ args) in_out h = elim (is_state arg.role) [
    | true ↦ elim (state_pointer info state_ptr h) [
      | none ↦ none
      | some (p, h') ↦ elim (call_args info state_ptr args in_out h') [
        | none ↦ none
        | some (ps, h'') ↦ some (p ∷ ps, h'')
      ]
    ]
    | false ↦ elim (call_args info state_ptr args (user_args_left in_out) h) [
      | none ↦ none
      | some (ps, h') ↦ some (user_arg in_out ∷ ps, h')
    ]
  ]

  -- `stepTick`
  unfoldable pub step_tick :
      (has_proto : String → Bool) (function_args : String → List FunctionArgInfo)
      (state_info : String → Option (StateDefaults Ty)) (invoke : String → List Pointer → ℤ)
      → String
      → Pointer
      → List Pointer
      → Heap
      → Option (ℤ × Heap)
  step_tick has_proto function_args state_info invoke name state_ptr in_out h =
      let target = target_function has_proto name in
      elim (call_args (state_info target) state_ptr (function_args target) in_out h) [
        | none ↦ none
        | some (args, h') ↦ some (invoke target args, h')
      ]
