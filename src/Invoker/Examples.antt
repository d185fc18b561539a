-- ===== src/Invoker/Examples.antt =====
-- The arguments of a function with a state, an array and its size.
use stridejit.Prelude.{
  List, Option, [], arith, false, get_elem?, none, pos, refl, some, str_eq, true, ℕ, ◌+◌, ◌∷◌, ◌≡◌,
}
use stridejit.Invoker.{
  FunctionArgInfo, ParameterList, null, given, property_of, state, input, property, new_list,
  on_calls, sets_state, sets, sets_at, sets_array, sets_property, set_arg, set_array_arg, get_arg,
  Pointer, target_function,
}
use stridejit.Invoker.Valid.{IsList, new_list-IsList}
use stridejit.Invoker.Calls.{on_calls-IsList}
use stridejit.Invoker.Arrays.{set_array_arg-sets}
use stridejit.StateAccess.{store}
use stridejit.StateDefaults.{StateDefaults, allocate_state, fill_state}
use stridejit.Invoker.Step.{Heap, allocated_state, call_args, step_tick}
use stridejit.Invoker.Tick.{IsSplit, states_for, call_args-IsSplit}

abbrev buffer_info : FunctionArgInfo
buffer_info = record {
  name = "buffer";
  role = input;
  size_property = "frames";
  property_value = pos 0;
}

abbrev infos : List FunctionArgInfo
infos =
    record { name = "__state"; role = state; size_property = ""; property_value = pos 0 }
    ∷ buffer_info
    ∷ record { name = "frames"; role = property; size_property = ""; property_value = pos 0 }
    ∷ []

on_calls-IsList_example :
    (next : ParameterList) × (on_calls
        (sets_state (given 7)
          ∷ sets "buffer" (given 8)
          ∷ sets_at 9 null
          ∷ sets_array "buffer" (given 8) 64
          ∷ sets_property "gain" (pos 3)
          ∷ [])
        (new_list infos)
      ≡ some next)
    × IsList next
on_calls-IsList_example = on_calls-IsList infos (
    sets_state (given 7)
    ∷ sets "buffer" (given 8)
    ∷ sets_at 9 null
    ∷ sets_array "buffer" (given 8) 64
    ∷ sets_property "gain" (pos 3)
    ∷ [])

set_array_arg-sets_example :
    (set_arg (new_list infos) "buffer" (given 8) ≡ some (false, new_list infos))
    × (next : ParameterList) × (set_array_arg (new_list infos) "buffer" (given 8) 64
        ≡ some (true, next))
    × (get_arg next "buffer" ≡ some (given 8))
    × (get_arg next "frames" ≡ some (property_of 2))
    × (size_info : FunctionArgInfo) × (get_elem? next.arg_infos 2 ≡ some size_info)
    × (size_info.name ≡ "frames")
    × (size_info.property_value ≡ pos 64)
unfolding new_list
set_array_arg-sets_example =
    set_array_arg-sets (new_list infos) (new_list-IsList infos) "buffer" 1 buffer_info refl refl
      refl 2 refl (given 8) 64 (omega arith)

-- A domain's name stands for its process function.
process-target : target_function (λ n. str_eq n "Audio_process") "Audio" ≡ "Audio_process"
unfolding target_function
process-target = refl

-- Four bytes of state, and addresses from 100 on.
abbrev small_state : StateDefaults ℕ
small_state = record {
  has_struct_type = true;
  default_constant = none;
  alloc_size = 4;
  default_bytes = 1 ∷ 2 ∷ [];
}

abbrev address : ℕ → Option ℕ
address n = some (100 + n)

abbrev no_states : Heap
no_states = record { calls = 0; states = [] }

abbrev tick_args : Pointer → Option (List Pointer × Heap)
tick_args state_ptr =
    call_args none false address (some small_state) state_ptr infos (given 8 ∷ []) no_states

-- A null state pointer stands for a new state.
null_state :
    tick_args null
    ≡ some (
      given 100 ∷ given 8 ∷ null ∷ [],
      record { calls = 1; states = (100, 1 ∷ 2 ∷ 0 ∷ 0 ∷ []) ∷ [] },
    )
unfolding call_args allocated_state allocate_state fill_state store
null_state = refl

-- Each tick with a null state pointer allocates a state of its own.
two_ticks :
    step_tick none false address
      (λ n. false)
      (λ f. infos)
      (λ f. some small_state)
      (λ f args. pos 0)
      "Audio"
      null
      []
      (record { calls = 1; states = (100, 1 ∷ 2 ∷ 0 ∷ 0 ∷ []) ∷ [] })
    ≡ some (
      pos 0,
      record { calls = 2; states = (101, 1 ∷ 2 ∷ 0 ∷ 0 ∷ []) ∷ (100, 1 ∷ 2 ∷ 0 ∷ 0 ∷ []) ∷ [] },
    )
unfolding step_tick call_args allocated_state allocate_state fill_state store
two_ticks = refl

call_args-IsSplit_example :
    IsSplit none false address
      (some small_state)
      infos
      (given 8 ∷ [])
      (states_for none false address (some small_state) 1 null no_states)
      (tick_args null)
call_args-IsSplit_example =
    call_args-IsSplit none false address (some small_state) null infos (given 8 ∷ []) no_states
