-- ===== src/StateAccess/Examples.antt =====
-- A state with a machine, a gain and a short.
use stridejit.Prelude.{
  List, [], arith, drop, if◌then◌else◌, length, negsuc, none, pos, refl, replicate, some, str_eq,
  take, true, wrap_i32, ℕ, ℤ, ◌+◌, ◌∷◌, ◌≡◌, ◌≤◌,
}
use stridejit.StateMachine.{transition_request_arg}
use stridejit.StateAccess.{
  int_field, array_field, StateStructInfo, Platform, find_field, find_field_by_functionality,
  get_state_var, set_state_var, place_of, parse_name, load, store, le_bytes, request_transition,
  get_transition_request_id, load_i32, offset_of,
}
use stridejit.StateAccess.Bytes.{with_i32}
use stridejit.StateAccess.Fields.{set_state_var-get, set_state_var-narrow, array-unchecked}
use stridejit.StateAccess.Requests.{request_transition-get}
use stridejit.StateAccess.Ids.{
  StateMachineInfo, get_state_id, get_transition_id, get_transition_id_for_state,
}
use stridejit.StateAccess.Ids.Answers.{IsStateIdIn, IsTransitionIdIn, IsAnswer, ids-IsAnswer}

abbrev no_reals : Platform
no_reals = record {
  double_of_int = λ i. le_bytes 8 0;
  float_of_int = λ i. le_bytes 4 0;
  int_of_double = λ bs. pos 0;
  int_of_float = λ bs. pos 0;
  alloc_size = none;
  stoul = λ s. if str_eq s "1" then some 1 else none;
}

abbrev info : StateStructInfo
info = record {
  var_indices =
      ("__SM_active_state_id", 0)
      ∷ ("__SM_transition_request_arg", 2)
      ∷ ("__SM_transition_request_id", 1)
      ∷ ("gain", 3)
      ∷ ("short", 4)
      ∷ [];
  field_offsets = 0 ∷ 4 ∷ 8 ∷ 12 ∷ 16 ∷ [];
  field_types = int_field 32 ∷ int_field 32 ∷ int_field 32 ∷ int_field 32 ∷ int_field 16 ∷ [];
  field_alloc_sizes = 4 ∷ 4 ∷ 4 ∷ 4 ∷ 2 ∷ [];
}

abbrev zeros : List ℕ
zeros = replicate 18 0

set_state_var-get_example :
    (next : List ℕ) × (set_state_var no_reals (some info) zeros "gain" (negsuc 6) none
      ≡ some (true, next))
    × (get_state_var no_reals (some info) next "gain" none ≡ some (some (negsuc 6)))
    × (length next ≡ 18)
    × (take 12 next ≡ take 12 zeros)
    × (drop 16 next ≡ drop 16 zeros)
unfolding find_field
set_state_var-get_example =
    set_state_var-get no_reals info zeros "gain" 3 12 refl refl refl (negsuc 6) refl (omega arith)
      refl

set_state_var-narrow_example :
    (20 ≤ 18
      → set_state_var no_reals (some info) zeros "short" (pos 1) none
        ≡ some (true, with_i32 zeros 16 (pos 1)))
    × (16 + 2 ≡ length zeros → set_state_var no_reals (some info) zeros "short" (pos 1) none ≡ none)
unfolding find_field
set_state_var-narrow_example =
    set_state_var-narrow no_reals info zeros "short" 4 16 refl refl refl (pos 1) refl

abbrev pair_info : StateStructInfo
pair_info = record {
  var_indices = ("pair", 0) ∷ [];
  field_offsets = 0 ∷ [];
  field_types = array_field (int_field 32) 2 ∷ [];
  field_alloc_sizes = 8 ∷ [];
}

array-unchecked_example :
    (get_state_var no_reals (some pair_info) (replicate 8 0) "pair" (some 2) ≡ none)
    × (set_state_var no_reals (some pair_info) (replicate 8 0) "pair" (pos 1) (some 2) ≡ none)
unfolding find_field
array-unchecked_example =
    array-unchecked no_reals pair_info (replicate 8 0) "pair" 0 0 refl refl refl 2 2 (pos 1) refl
      refl refl (omega arith)

-- A name with a bracket is set, and is not found when it is read.
bracket-set :
    set_state_var no_reals (some pair_info) (replicate 8 0) "pair[1]" (pos 5) none
    ≡ some (true, 0 ∷ 0 ∷ 0 ∷ 0 ∷ 5 ∷ 0 ∷ 0 ∷ 0 ∷ [])
unfolding set_state_var find_field place_of parse_name store
bracket-set = refl

bracket-get : get_state_var no_reals (some pair_info) (replicate 8 0) "pair[1]" none ≡ some none
unfolding get_state_var find_field place_of load
bracket-get = refl

request_transition-get_example :
    ((next : List ℕ) × (request_transition info zeros (pos 7) "SM" none ≡ some (true, next))
      × (get_transition_request_id info next "SM" ≡ some (some (pos 7))))
    × ((at_byte : ℕ) (arg : ℤ)
        → offset_of info transition_request_arg "SM" "" ≡ some at_byte
        → 8 ≤ at_byte
        → at_byte + 4 ≤ 18
        → wrap_i32 arg ≡ arg
        → (next : List ℕ) × (request_transition info zeros (pos 7) "SM" (some arg)
            ≡ some (true, next))
          × (get_transition_request_id info next "SM" ≡ some (some (pos 7)))
          × (load_i32 next (offset_of info transition_request_arg "SM" "") ≡ some (some arg))
          × (length next ≡ 18))
unfolding find_field_by_functionality
request_transition-get_example =
    request_transition-get info "SM" 4 zeros refl (omega arith) (pos 7) refl

-- Two machines of a domain, of which the second one has a state with a transition of its own.
abbrev machines : List StateMachineInfo
machines =
    (record {
      sm_name = "A";
      domain_name = "D";
      state_ids_by_name = ("Idle", pos 1) ∷ [];
      transition_ids_by_name = [];
      transition_ids_by_state_and_name = [];
    })
    ∷ (record {
      sm_name = "B";
      domain_name = "D";
      state_ids_by_name = ("Idle", pos 4) ∷ ("Go", pos 5) ∷ [];
      transition_ids_by_name = ("Go", pos 1) ∷ [];
      transition_ids_by_state_and_name = (("Idle", "Go"), pos 2) ∷ [];
    })
    ∷ []

ids-IsAnswer_example :
    IsAnswer (IsStateIdIn "Go") "" "D" machines (get_state_id machines "Go" "" "D")
    × IsAnswer
        (IsTransitionIdIn "Go" "Idle")
        ""
        "D"
        machines
        (get_transition_id_for_state machines "Go" "Idle" "" "D")
ids-IsAnswer_example = ids-IsAnswer machines "Go" "" "D" "Idle"

-- The transition of the state goes before the other one of its name.
transition_of_state : get_transition_id_for_state machines "Go" "Idle" "" "D" ≡ some (pos 2)
unfolding get_transition_id
transition_of_state = refl
