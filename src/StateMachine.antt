-- ===== src/StateMachine.antt =====
-- State machines: src/statemachine.cpp and include/stride/stridejit/statemachine.hpp.
pub mod Ast
pub mod Flatten
pub mod Process
pub mod Codegen
pub mod Step
mod Sample
mod Examples
use stridejit.Prelude.{
  Bool, List, Option, String, [], eqb_ℤ, false, if◌then◌else◌, none, not, pos, some, str_eq, ℕ, ℤ,
  ◌==◌, ◌||◌, ◌∷◌,
}
use Prim.Native.String.{◌++◌ as str_append}
use Ast.{Node}

-- `C` is the code of an expression, which the generator fills in.
pub record Transition (D C : Type 0) : Type 0 where
  pub id : ℕ
  pub transition_decl : D
  pub target_state_id : ℕ
  pub trigger_on_guard : Bool
  pub trigger_switch : String
  pub trigger_latch_var_name : String
  pub is_generator : Bool
  pub generator_var : String
  pub range_start : ℤ
  pub range_end : ℤ
  pub range_step : ℤ
  pub guard_code : List C
  pub on_transition_code : List C

pub record FlattenedState (D C : Type 0) : Type 0 where
  pub id : ℕ
  pub parent_id : ℤ
  pub state_decl : D
  pub is_parallel : Bool
  pub resume_last_state : Bool
  pub is_final : Bool
  pub update_guard_on_domain : Bool
  pub history_state_var_name : String
  pub update_guard_code : List C
  pub on_entry_code : List C
  pub on_process_code : List C
  pub on_exit_code : List C
  pub transitions : List (Transition D C)

pub record Machine (D C : Type 0) : Type 0 where
  pub name : String
  pub sm_decl : D
  pub flattened_states : List (FlattenedState D C)
  pub initial_state_id : ℕ
  pub active_state_var_name : String
  pub transition_request_var_name : String
  pub transition_request_arg_var_name : String
  pub is_entered_var_name : String

pub data StateMachineField : Type 0 where
  active_state_id transition_request_id transition_request_arg : StateMachineField
  is_entered history_state_id trigger_latch : StateMachineField

abbrev pub get_field_suffix : StateMachineField → String
get_field_suffix active_state_id = "_active_state_id"
get_field_suffix transition_request_id = "_transition_request_id"
get_field_suffix transition_request_arg = "_transition_request_arg"
get_field_suffix is_entered = "_is_entered"
get_field_suffix history_state_id = "_history_state_id"
get_field_suffix trigger_latch = "_trigger_latch"

-- "__" + prefix + "_" + name + suffix
unfoldable pub get_variable_name : StateMachineField → String → String → String
get_variable_name field prefix name =
    str_append "__" (str_append prefix (str_append "_" (str_append name (get_field_suffix field))))

-- `isTrueProp`
unfoldable pub is_true_prop : {D : Type 0} → Option (Node D) → Bool
is_true_prop (some (Node.switch b)) = b
is_true_prop (some (Node.entity n)) =
    str_eq n "true" || str_eq n "on" || str_eq n "1" || str_eq n "ON" || str_eq n "TRUE"
is_true_prop (some (Node.int i)) = not (eqb_ℤ i (pos 0))
is_true_prop (some (Node.text s)) = str_eq s "true" || str_eq s "on" || str_eq s "1"
is_true_prop _ = false

module _ {D C : Type 0} where
  -- The first state with an id.
  unfoldable pub state_with_id : List (FlattenedState D C) → ℕ → Option (FlattenedState D C)
  state_with_id [] i = none
  state_with_id (s ∷ ss) i = let rest = state_with_id ss i in if s.id == i then some s else rest

  -- `findState`: the first state whose declaration has a name.
  unfoldable pub find_state :
      (D → String) → List (FlattenedState D C) → String → Option (FlattenedState D C)
  find_state get_name [] n = none
  find_state get_name (s ∷ ss) n =
      let rest = find_state get_name ss n in
      if str_eq (get_name s.state_decl) n then some s else rest
