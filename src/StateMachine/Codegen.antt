-- ===== src/StateMachine/Codegen.antt =====
-- `StateMachineExprAST::codegen`, what it finds out while it generates code: the states that each
-- piece of the generated code is about. StateMachine/Step.antt says what the generated code does.
pub mod Ancestry
pub mod Total
pub mod Order
use stridejit.Prelude.{
  Bool, List, Option, String, [], eqb_ℤ, if◌then◌else◌, length, map, minus_one, negsuc, none, not,
  pos, reverse, some, str_eq, suc, zero, ℕ, ℤ, ◌&&◌, ◌++◌, ◌==◌, ◌∷◌,
}
use stridejit.StateMachine.{Transition, FlattenedState, Machine, state_with_id}
use stridejit.StateMachine.Ast.{Parser}
use stridejit.StateMachine.Flatten.{◌>>=◌}
use stridejit.StateMachine.Process.{resolve_leaf}

module _ {D C : Type 0} where
  -- The walk over `parentId` while it is not -1 and a state has the id, from the inside out.
  unfoldable pub ancestry : ℕ → List (FlattenedState D C) → ℤ → Option (List (FlattenedState D C))
  unfolding state_with_id
  ancestry zero states i = none
  ancestry (suc fuel) states (negsuc m) = some []
  ancestry (suc fuel) states (pos i) = elim (state_with_id states i) [
    | none ↦ some []
    | some fs ↦ ancestry fuel states fs.parent_id >>= λ rest. some (fs ∷ rest)
  ]

  -- No state is its own ancestor, so that one round more than there are states is enough.
  abbrev pub ancestors : List (FlattenedState D C) → ℕ → Option (List (FlattenedState D C))
  ancestors states i = ancestry (suc (length states)) states (pos i)

  -- `exitedStates`: the part of the walk up to the state that has the transition.
  unfoldable pub up_to_owner : ℕ → List (FlattenedState D C) → List (FlattenedState D C)
  up_to_owner owner [] = []
  up_to_owner owner (s ∷ ss) =
      let rest = up_to_owner owner ss in if s.id == owner then s ∷ [] else s ∷ rest

  -- `applicableTransitions`: the transitions of a state and of those around it, the inner first.
  unfoldable pub applicable_transitions :
      List (FlattenedState D C) → List (Transition D C × FlattenedState D C)
  applicable_transitions [] = []
  applicable_transitions (s ∷ ss) = map (λ t. (t, s)) s.transitions ++ applicable_transitions ss

  -- Whether leaving a state is noted in a variable.
  abbrev pub notes_history : FlattenedState D C → Bool
  notes_history s = s.resume_last_state && not (str_eq s.history_state_var_name "")

  abbrev pub parent_history : ℤ → List (FlattenedState D C) → List String
  parent_history i [] = []
  parent_history i (s ∷ ss) =
      let rest = parent_history i ss in
      if eqb_ℤ (pos s.id) i && notes_history s then s.history_state_var_name ∷ rest else rest

  -- The variables that note that a state is left: those of its parent, and its own.
  abbrev pub history_vars : List (FlattenedState D C) → FlattenedState D C → List String
  history_vars states s =
      (if eqb_ℤ s.parent_id minus_one then [] else parent_history s.parent_id states)
      ++ (if notes_history s then s.history_state_var_name ∷ [] else [])

  -- The children of a parallel state.
  abbrev pub parallel_children :
      FlattenedState D C → List (FlattenedState D C) → List (FlattenedState D C)
  parallel_children fs [] = []
  parallel_children fs (s ∷ ss) =
      let rest = parallel_children fs ss in
      if fs.is_parallel && eqb_ℤ s.parent_id (pos fs.id) then s ∷ rest else rest

  abbrev pub latch_names : List (Transition D C) → List String
  latch_names [] = []
  latch_names (t ∷ ts) =
      let rest = latch_names ts in
      if str_eq t.trigger_latch_var_name "" then rest else t.trigger_latch_var_name ∷ rest

  -- The latches that the last loop clears.
  abbrev pub all_latch_names : List (FlattenedState D C) → List String
  all_latch_names [] = []
  all_latch_names (s ∷ ss) = latch_names s.transitions ++ all_latch_names ss

-- The code between `trans_<id>_cond` and `trans_<id>_next`.
pub record TransitionCode (D C : Type 0) : Type 0 where
  pub trans : Transition D C
  pub exited_states : List (FlattenedState D C)
  pub resolved_target_id : ℕ
  pub target_fs : Option (FlattenedState D C)
  pub target_ancestry : List (FlattenedState D C)

-- The code of a case of the switch on the active state.
pub record StateCode (D C : Type 0) : Type 0 where
  pub fs : FlattenedState D C
  pub top_down_ancestry : List (FlattenedState D C)
  pub transition_codes : List (TransitionCode D C)
  pub children : List (FlattenedState D C)

pub record MachineCode (D C : Type 0) : Type 0 where
  pub states : List (FlattenedState D C)
  pub init_ancestry : List (FlattenedState D C)
  pub cases : List (StateCode D C)
  pub latches : List String

module _ (P : Parser) (C : Type 0) where
  open P use {Decl}

  module _ (states : List (FlattenedState Decl C)) where
    abbrev pub new_transition_code :
        List (FlattenedState Decl C)
        → Transition Decl C
        → FlattenedState Decl C
        → ℕ
        → List (FlattenedState Decl C)
        → TransitionCode Decl C
    new_transition_code walk t owner resolved entered = record {
      trans = t;
      exited_states = up_to_owner owner.id walk;
      resolved_target_id = resolved;
      target_fs = state_with_id states t.target_state_id;
      target_ancestry = reverse entered;
    }

    -- No state is entered where none has the resolved id.
    unfoldable pub transition_code :
        List (FlattenedState Decl C)
        → Transition Decl C × FlattenedState Decl C
        → Option (TransitionCode Decl C)
    unfolding up_to_owner ancestry resolve_leaf state_with_id
    transition_code walk (t, owner) = do
      resolved ← resolve_leaf P C states t.target_state_id
      entered ← ancestors states resolved
      some (new_transition_code walk t owner resolved entered)

    unfoldable pub transition_codes_of :
        List (FlattenedState Decl C)
        → List (Transition Decl C × FlattenedState Decl C)
        → Option (List (TransitionCode Decl C))
    unfolding transition_code
    transition_codes_of walk [] = some []
    transition_codes_of walk (a ∷ rest) = do
      code ← transition_code walk a
      codes ← transition_codes_of walk rest
      some (code ∷ codes)

    abbrev pub new_state_code :
        FlattenedState Decl C
        → List (FlattenedState Decl C)
        → List (TransitionCode Decl C)
        → StateCode Decl C
    new_state_code fs walk codes = record {
      fs = fs;
      top_down_ancestry = reverse walk;
      transition_codes = codes;
      children = parallel_children fs states;
    }

    unfoldable pub state_code : FlattenedState Decl C → Option (StateCode Decl C)
    unfolding transition_codes_of applicable_transitions ancestry
    state_code fs = do
      walk ← ancestors states fs.id
      codes ← transition_codes_of walk (applicable_transitions walk)
      some (new_state_code fs walk codes)

    unfoldable pub cases_of : List (FlattenedState Decl C) → Option (List (StateCode Decl C))
    unfolding state_code
    cases_of [] = some []
    cases_of (fs ∷ rest) = do code ← state_code fs; codes ← cases_of rest; some (code ∷ codes)

  abbrev pub new_machine_code :
      Machine Decl C → List (FlattenedState Decl C) → List (StateCode Decl C) → MachineCode Decl C
  new_machine_code m initial cases = record {
    states = m.flattened_states;
    init_ancestry = reverse initial;
    cases = cases;
    latches = all_latch_names m.flattened_states;
  }

  unfoldable pub codegen : Machine Decl C → Option (MachineCode Decl C)
  unfolding cases_of ancestry
  codegen m = do
    initial ← ancestors m.flattened_states m.initial_state_id
    cases ← cases_of m.flattened_states m.flattened_states
    some (new_machine_code m initial cases)
