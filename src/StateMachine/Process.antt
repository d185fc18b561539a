-- ===== src/StateMachine/Process.antt =====
-- `StateMachine::processStateMachine` and `collectStateMachines`: transitions, the initial state.
-- `LOG_ERROR` has no effect on the result and is left out.
pub mod Targets
pub mod Leaf
pub mod Result
use Prim.Native.String.{◌++◌ as str_append}
use stridejit.Prelude.{
  Bool, List, Option, String, [], false, if◌then◌else◌, length, minus_one, none, pos, some, str_eq,
  suc, true, zero, ℕ, ℤ, ◌+◌, ◌==◌, ◌||◌, ◌∷◌,
}
use stridejit.StateMachine.{
  Transition, FlattenedState, Machine, active_state_id, transition_request_id,
  transition_request_arg, is_entered, trigger_latch, get_variable_name, state_with_id, find_state,
}
use stridejit.StateMachine.Ast.{
  Parser, Node, Item, entity_item, declaration_item, other_item, entity, switch, text,
  generator_range, range, switch_or, entity_name, list_children,
}
use stridejit.StateMachine.Flatten.{◌>>=◌, flatten_state_machine}

-- An optional bound of a range, or the default.
abbrev bound_or : ℤ → Option ℤ → ℤ
bound_or d none = d
bound_or d (some i) = i

-- `resolveLeafInitialState`'s test on the visited ids.
abbrev pub visited_before : ℕ → List ℕ → Bool
visited_before i [] = false
visited_before i (v ∷ vs) = if v == i then true else visited_before i vs

module _ (P : Parser) (C : Type 0) where
  open P use {Decl, get_name, get_entity_type, get_property_value, find_declaration}

  -- The state that `initialState` names, if the state has that property.
  abbrev pub initial_child :
      List (FlattenedState Decl C) → FlattenedState Decl C → Option (FlattenedState Decl C)
  initial_child states fs =
      entity_name (get_property_value fs.state_decl "initialState") >>= find_state get_name states

  -- `resolveLeafInitialState`. A round too few is no result.
  unfoldable pub resolve_leaf_initial_state :
      ℕ → List (FlattenedState Decl C) → List ℕ → ℕ → Option ℕ
  resolve_leaf_initial_state zero states visited state_id = none
  resolve_leaf_initial_state (suc fuel) states visited state_id =
      elim (visited_before state_id visited) [
        | true ↦ some state_id
        | false ↦ elim (state_with_id states state_id >>= initial_child states) [
          | none ↦ some state_id
          | some child ↦ resolve_leaf_initial_state fuel states (state_id ∷ visited) child.id
        ]
      ]

  -- As many rounds as there are states, and two more.
  unfoldable pub resolve_leaf : List (FlattenedState Decl C) → ℕ → Option ℕ
  unfolding resolve_leaf_initial_state
  resolve_leaf states state_id = resolve_leaf_initial_state (length states + 2) states [] state_id

  -- `tDecl`
  abbrev pub transition_decl_of : Item Decl → Option Decl
  transition_decl_of (entity_item n) = find_declaration n
  transition_decl_of (declaration_item d) = some d
  transition_decl_of other_item = none

  -- The id of the first state that `targetState` names.
  abbrev pub target_of : List (FlattenedState Decl C) → Decl → Option ℕ
  target_of states d =
      entity_name (get_property_value d "targetState") >>= find_state get_name states >>= λ s.
      some s.id

  -- `t.triggerSwitch` where `trigger` names a switch or trigger, and "" otherwise.
  abbrev pub trigger_switch_of : Decl → String
  trigger_switch_of d = elim (entity_name (get_property_value d "trigger")) [
    | none ↦ ""
    | some n ↦ elim (find_declaration n) [
      | none ↦ ""
      | some s ↦
          if str_eq (get_entity_type s) "switch" || str_eq (get_entity_type s) "trigger"
          then n
          else ""
    ]
  ]

  -- `rangeStart`, `rangeEnd` and `rangeStep`.
  abbrev pub generator_bounds : Option (Node Decl) → ℤ × ℤ × ℤ
  generator_bounds (some (generator_range a b c)) =
      (bound_or (pos 0) a, bound_or (pos 0) b, bound_or (pos 1) c)
  generator_bounds (some (range a b)) = (bound_or (pos 0) a, bound_or (pos 0) b, pos 1)
  generator_bounds _ = (pos 0, pos 0, pos 1)

  abbrev generator_name : Option (Node Decl) → String
  generator_name (some (text v)) = v
  generator_name _ = ""

-- `std::to_string(id)` is a parameter: it only makes the name of a variable.
module _ (P : Parser) (C : Type 0) (number_text : ℕ → String) where
  open P use {
    Decl, get_name, get_property_value, get_compiler_property, find_declaration, is_state_node,
  }

  -- The transition of a declaration with a known target, before its code is filled in.
  abbrev pub new_transition : String → String → Decl → ℕ → ℕ → Transition Decl C
  new_transition prefix sm_name d id target =
      let trigger = trigger_switch_of P C d in
      let generates = switch_or false (get_compiler_property d "_isGenerator") in
      let (from, to, step) =
        if generates
        then generator_bounds P C (get_compiler_property d "_generatorRange")
        else (pos 0, pos 0, pos 1) in
      record {
        id = id;
        transition_decl = d;
        target_state_id = target;
        trigger_on_guard = switch_or false (get_property_value d "triggerOnGuard");
        trigger_switch = trigger;
        trigger_latch_var_name =
            if str_eq trigger ""
            then ""
            else get_variable_name trigger_latch prefix
                (str_append sm_name (str_append "_" (number_text id)));
        is_generator = generates;
        generator_var =
            if generates then generator_name P C (get_compiler_property d "_generatorVar") else "";
        range_start = from;
        range_end = to;
        range_step = step;
        guard_code = [];
        on_transition_code = [];
      }

  module _ (prefix sm_name : String) (states : List (FlattenedState Decl C)) where
    -- The declaration and the target's id, where both are found.
    abbrev pub transition_target : Item Decl → Option (Decl × ℕ)
    transition_target item = do
      d ← transition_decl_of P C item
      i ← target_of P C states d
      some (d, i)

    -- The loop over the children of `transitions`, with `transitionIdCounter`.
    unfoldable pub load_transitions : List (Item Decl) → ℕ → List (Transition Decl C) × ℕ
    load_transitions [] counter = ([], counter)
    load_transitions (item ∷ items) counter = elim (transition_target item) [
      | none ↦ load_transitions items counter
      | some r ↦
          let rest = load_transitions items (counter + 1) in
          (new_transition prefix sm_name r.0 counter r.1 ∷ rest.0, rest.1)
    ]

    -- The second pass, over all the states.
    unfoldable pub load_all : List (FlattenedState Decl C) → ℕ → List (FlattenedState Decl C) × ℕ
    unfolding load_transitions
    load_all [] counter = ([], counter)
    load_all (fs ∷ rest) counter =
        let mine =
          load_transitions (list_children (get_property_value fs.state_decl "transitions"))
            counter in
        let others = load_all rest mine.1 in
        (record fs { transitions = mine.0 } ∷ others.0, others.1)

  -- `initialStateId` before it is resolved: the root, or the state that the machine names.
  abbrev pub declared_initial : Decl → List (FlattenedState Decl C) → ℕ
  declared_initial sm_decl states =
      elim (entity_name (get_property_value sm_decl "initialState")
        >>= find_state get_name states) [ none ↦ 1 | some s ↦ s.id ]

  abbrev pub new_machine :
      Decl → String → String → List (FlattenedState Decl C) → ℕ → Machine Decl C
  new_machine sm_decl prefix sm_name states initial = record {
    name = sm_name;
    sm_decl = sm_decl;
    flattened_states = states;
    initial_state_id = initial;
    active_state_var_name = get_variable_name active_state_id prefix sm_name;
    transition_request_var_name = get_variable_name transition_request_id prefix sm_name;
    transition_request_arg_var_name = get_variable_name transition_request_arg prefix sm_name;
    is_entered_var_name = get_variable_name is_entered prefix sm_name;
  }

  -- The second pass and the initial state, for the states of the first pass.
  unfoldable pub load_machine :
      Decl → String → String → List (FlattenedState Decl C) → Option (Machine Decl C)
  unfolding load_all resolve_leaf
  load_machine sm_decl prefix sm_name states =
      let loaded = (load_all prefix sm_name states states 1).0 in
      resolve_leaf P C loaded (declared_initial sm_decl loaded) >>= λ initial.
      some (new_machine sm_decl prefix sm_name loaded initial)

  -- The machine of a state declaration.
  unfoldable pub process_declaration : ℕ → Decl → String → String → Option (Machine Decl C)
  unfolding load_machine flatten_state_machine
  process_declaration fuel sm_decl prefix sm_name =
      flatten_state_machine P C sm_name fuel minus_one sm_decl ([], 1) >>= λ flat.
      load_machine sm_decl prefix sm_name flat.0

  -- No machine (`std::nullopt`) for a name that is not declared as a state.
  unfoldable pub process_state_machine : ℕ → String → String → Option (Option (Machine Decl C))
  unfolding process_declaration
  process_state_machine fuel sm_name prefix = elim (find_declaration sm_name) [
    | none ↦ some none
    | some d ↦
        if is_state_node d
        then (process_declaration fuel d prefix sm_name >>= λ m. some (some m))
        else some none
  ]

  -- The loop over `stateMachines`: what is no machine is passed over.
  unfoldable pub collect_from : ℕ → String → List (Item Decl) → Option (List (Machine Decl C))
  unfolding process_state_machine
  collect_from fuel prefix [] = some []
  collect_from fuel prefix (entity_item n ∷ items) = do
    m ← process_state_machine fuel n prefix
    ms ← collect_from fuel prefix items
    some (elim m [ none ↦ ms | some m' ↦ m' ∷ ms ])
  collect_from fuel prefix (_ ∷ items) = collect_from fuel prefix items

  unfoldable pub collect_state_machines : ℕ → Option Decl → Option (List (Machine Decl C))
  unfolding collect_from
  collect_state_machines fuel none = some []
  collect_state_machines fuel (some domain) =
      collect_from fuel (get_name domain)
        (list_children (get_property_value domain "stateMachines"))
