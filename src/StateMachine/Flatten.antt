-- ===== src/StateMachine/Flatten.antt =====
-- `StateMachine::flattenStateMachine`: a tree of state declarations as a list with parent ids.
-- The recursion over the declarations runs on fuel, since nothing in the source stops a state that
-- is among its own states; a round too few is no result.
pub mod Numbered
pub mod Total
use stridejit.Prelude.{
  List, Option, String, [], false, if◌then◌else◌, none, pos, some, suc, zero, ℕ, ℤ, ◌++◌, ◌+◌, ◌∷◌,
}
use stridejit.StateMachine.{FlattenedState, history_state_id, get_variable_name}
use stridejit.StateMachine.Ast.{Parser, Node, Item, entity_item, switch_or, list_children}

-- The states so far, and `idCounter`.
abbrev pub Flat : Type 0 → Type 0 → Type 0
Flat D C = List (FlattenedState D C) × ℕ

infixl 5 ◌>>=◌
abbrev pub ◌>>=◌ : {A B : Type 0} → Option A → (A → Option B) → Option B
none >>= f = none
some a >>= f = f a

-- `if (childDecl) flattenStateMachine(childDecl, ...)`
abbrev pub flatten_child :
    {D C : Type 0} → (D → Flat D C → Option (Flat D C)) → Option D → Flat D C → Option (Flat D C)
flatten_child go none acc = some acc
flatten_child go (some d) acc = go d acc

-- The loop over the children of `states`, each flattened by `go`.
pub flatten_children :
    {D C : Type 0}
    → (String → Option D)
    → (D → Flat D C → Option (Flat D C))
    → List (Item D)
    → Flat D C
    → Option (Flat D C)
flatten_children find go [] acc = some acc
flatten_children find go (entity_item n ∷ items) acc =
    flatten_child go (find n) acc >>= flatten_children find go items
flatten_children find go (_ ∷ items) acc = flatten_children find go items acc

module _ (P : Parser) (C : Type 0) (sm_name : String) where
  open P use {Decl, get_name, get_property_value, find_declaration}

  -- `fs`, before the code is filled in.
  abbrev pub new_state : Decl → ℕ → ℤ → FlattenedState Decl C
  new_state node id parent_id =
      let resume = switch_or false (get_property_value node "resumeLastState") in
      record {
        id = id;
        parent_id = parent_id;
        state_decl = node;
        is_parallel = switch_or false (get_property_value node "isParallel");
        resume_last_state = resume;
        is_final = switch_or false (get_property_value node "isFinal");
        update_guard_on_domain = switch_or false (get_property_value node "updateGuardOnDomain");
        history_state_var_name =
            if resume then get_variable_name history_state_id sm_name (get_name node) else "";
        update_guard_code = [];
        on_entry_code = [];
        on_process_code = [];
        on_exit_code = [];
        transitions = [];
      }

  unfoldable pub flatten_state_machine : ℕ → ℤ → Decl → Flat Decl C → Option (Flat Decl C)
  unfolding flatten_children
  flatten_state_machine zero parent_id node acc = none
  flatten_state_machine (suc fuel) parent_id node (states, counter) =
      flatten_children find_declaration (flatten_state_machine fuel (pos counter))
        (list_children (get_property_value node "states"))
        (states ++ new_state node counter parent_id ∷ [], counter + 1)
