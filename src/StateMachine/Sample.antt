-- ===== src/StateMachine/Sample.antt =====
-- A machine of two states, for the tests: its declarations, its states, its code.
use stridejit.Prelude.{
  List, Option, String, [], false, if◌then◌else◌, minus_one, none, not, pos, some, str_eq, true, ℕ,
  ℤ, ◌*◌, ◌+◌, ◌∷◌,
}
use stridejit.StateMachine.{Transition, FlattenedState, Machine}
use stridejit.StateMachine.Ast.{Parser, Node, entity_item, declaration_item, entity, list}
use stridejit.StateMachine.Flatten.{new_state}
use stridejit.StateMachine.Codegen.{
  TransitionCode, StateCode, MachineCode, new_transition_code, new_state_code, new_machine_code,
}
use stridejit.StateMachine.Step.{Vars}

pub data Decl : Type 0 where
  machine_decl a_decl b_decl to_a to_b : Decl

abbrev pub properties : Decl → List (String × Node Decl)
properties machine_decl =
    ("states", list (entity_item "A" ∷ entity_item "B" ∷ [])) ∷ ("initialState", entity "A") ∷ []
properties a_decl = ("transitions", list (declaration_item to_b ∷ [])) ∷ []
properties b_decl =
    ("transitions", list (entity_item "ToA" ∷ [])) ∷ ("resumeLastState", Node.switch true) ∷ []
properties to_a = ("targetState", entity "A") ∷ ("trigger", entity "Back") ∷ []
properties to_b = ("targetState", entity "B") ∷ []

abbrev pub look_up : List (String × Node Decl) → String → Option (Node Decl)
look_up [] key = none
look_up ((k, n) ∷ rest) key = let later = look_up rest key in if str_eq k key then some n else later

abbrev pub name_of : Decl → String
name_of machine_decl = "M"
name_of a_decl = "A"
name_of b_decl = "B"
name_of to_a = "ToA"
name_of to_b = "ToB"

abbrev pub find_among : List Decl → String → Option Decl
find_among [] n = none
find_among (d ∷ ds) n =
    let later = find_among ds n in if str_eq (name_of d) n then some d else later

abbrev pub parser : Parser
parser = record {
  Decl = Decl;
  get_name = name_of;
  get_entity_type = λ d. "state";
  get_property_value = λ d key. look_up (properties d) key;
  get_compiler_property = λ d key. none;
  find_declaration = find_among (machine_decl ∷ a_decl ∷ b_decl ∷ to_a ∷ []);
  is_state_node = λ d. true;
}

abbrev pub rank : Decl → ℕ
rank machine_decl = 1
rank _ = 0

abbrev pub flat_states : List (FlattenedState Decl ℕ)
flat_states =
    new_state parser ℕ "M" machine_decl 1 minus_one
    ∷ new_state parser ℕ "M" a_decl 2 (pos 1)
    ∷ new_state parser ℕ "M" b_decl 3 (pos 1)
    ∷ []

abbrev pub sample_transition : ℕ → ℕ → String → Transition Decl ℕ
sample_transition id target latch = record {
  id = id;
  transition_decl = to_a;
  target_state_id = target;
  trigger_on_guard = false;
  trigger_switch = latch;
  trigger_latch_var_name = latch;
  is_generator = false;
  generator_var = "";
  range_start = pos 0;
  range_end = pos 0;
  range_step = pos 1;
  guard_code = [];
  on_transition_code = (100 + id) ∷ [];
}

-- Entry and exit code are noted as 10 * id + 1 and 10 * id + 2.
abbrev pub sample_state : Decl → ℕ → ℤ → String → List (Transition Decl ℕ) → FlattenedState Decl ℕ
sample_state d id parent_id history transitions = record (new_state parser ℕ "M" d id parent_id) {
  resume_last_state = not (str_eq history "");
  history_state_var_name = history;
  on_entry_code = (10 * id + 1) ∷ [];
  on_exit_code = (10 * id + 2) ∷ [];
  transitions = transitions;
}

abbrev pub go_b : Transition Decl ℕ
go_b = sample_transition 1 3 ""

abbrev pub go_a : Transition Decl ℕ
go_a = sample_transition 2 2 "back"

abbrev pub root_state : FlattenedState Decl ℕ
root_state = sample_state machine_decl 1 minus_one "" []

abbrev pub state_a : FlattenedState Decl ℕ
state_a = sample_state a_decl 2 (pos 1) "" (go_b ∷ [])

abbrev pub state_b : FlattenedState Decl ℕ
state_b = sample_state b_decl 3 (pos 1) "h" (go_a ∷ [])

abbrev pub sample_states : List (FlattenedState Decl ℕ)
sample_states = root_state ∷ state_a ∷ state_b ∷ []

abbrev pub machine : Machine Decl ℕ
machine = record {
  name = "M";
  sm_decl = machine_decl;
  flattened_states = sample_states;
  initial_state_id = 2;
  active_state_var_name = "active";
  transition_request_var_name = "request";
  transition_request_arg_var_name = "arg";
  is_entered_var_name = "entered";
}

abbrev pub go_b_code : TransitionCode Decl ℕ
go_b_code =
    new_transition_code parser ℕ sample_states (state_a ∷ root_state ∷ []) go_b state_a 3
      (state_b ∷ root_state ∷ [])

abbrev pub go_a_code : TransitionCode Decl ℕ
go_a_code =
    new_transition_code parser ℕ sample_states (state_b ∷ root_state ∷ []) go_a state_b 2
      (state_a ∷ root_state ∷ [])

abbrev pub root_case : StateCode Decl ℕ
root_case = new_state_code parser ℕ sample_states root_state (root_state ∷ []) []

abbrev pub a_case : StateCode Decl ℕ
a_case = new_state_code parser ℕ sample_states state_a (state_a ∷ root_state ∷ []) (go_b_code ∷ [])

abbrev pub b_case : StateCode Decl ℕ
b_case = new_state_code parser ℕ sample_states state_b (state_b ∷ root_state ∷ []) (go_a_code ∷ [])

abbrev pub machine_code : MachineCode Decl ℕ
machine_code =
    new_machine_code parser ℕ machine (state_a ∷ root_state ∷ []) (root_case ∷ a_case ∷ b_case ∷ [])

-- The first state is active, and the transition to the other is requested.
abbrev pub vars : Vars (List ℕ)
vars = record {
  active_state = pos 2;
  transition_request = pos 1;
  transition_request_arg = pos 0;
  is_entered = true;
  history = λ n. pos 0;
  latch = λ n. true;
  world = [];
}
