-- ===== src/StateMachine/Codegen/Total.antt =====
-- The code that is generated for a machine: it is there, and each piece is about the right states.
use mathlib.Core.List.{reverse-reverse}
use stridejit.Prelude.{
  All, All-append, List, [], inl, inr, length, map, pos, refl, reverse, some, suc, ℕ, ◌++◌, ◌∷◌,
  ◌≡◌,
}
use stridejit.StateMachine.{Transition, FlattenedState, Machine}
use stridejit.StateMachine.Ast.{Parser}
use stridejit.StateMachine.Flatten.Numbered.{Numbered}
use stridejit.StateMachine.Process.Leaf.{HasId, resolve_leaf-HasId}
use stridejit.StateMachine.Process.Targets.{all_transitions, LeadsTo}
use stridejit.StateMachine.Process.Result.{IsMachine}
use stridejit.StateMachine.Codegen.{
  applicable_transitions, all_latch_names, TransitionCode, StateCode, MachineCode, transition_code,
  new_transition_code, new_state_code, new_machine_code, transition_codes_of, state_code, cases_of,
  codegen,
}
use stridejit.StateMachine.Codegen.Ancestry.{LeadsOut, ancestors-LeadsOut, ancestry-All}

pub All-split :
    {A : Type 0} (Q : A → Type 0) (xs ys : List A) → All Q (xs ++ ys) → All Q xs × All Q ys
All-split Q [] ys h = (tt, h)
All-split Q (x ∷ xs) ys h = let (l, r) = All-split Q xs ys h.1 in ((h.0, l), r)

module _ {D C : Type 0} where
  -- The states are those from the outermost one around it down to the one with the id.
  abbrev pub IsPath : ℕ → List (FlattenedState D C) → Type 0
  IsPath i ss = (walk : List (FlattenedState D C)) × (ss ≡ reverse walk) × LeadsOut (pos i) walk

  module _ (states : List (FlattenedState D C)) where
    -- The resolved target is a state, and the states that are entered lead to it.
    abbrev pub IsTransitionCode : TransitionCode D C → Type 0
    IsTransitionCode code =
        HasId code.resolved_target_id states × IsPath code.resolved_target_id code.target_ancestry

    -- The case of a state: its path, and its transitions and those around it, the inner first.
    abbrev pub IsStateCode : StateCode D C → Type 0
    IsStateCode code =
        HasId code.fs.id states
        × IsPath code.fs.id code.top_down_ancestry
        × (map (λ c. c.trans) code.transition_codes
            ≡ map (λ a. a.0) (applicable_transitions (reverse code.top_down_ancestry)))
        × All IsTransitionCode code.transition_codes

  -- There is a case for every state, in order, and the first entry leads to the initial state.
  abbrev pub IsMachineCode : Machine D C → MachineCode D C → Type 0
  IsMachineCode m code =
      (code.states ≡ m.flattened_states)
      × (code.latches ≡ all_latch_names m.flattened_states)
      × IsPath m.initial_state_id code.init_ancestry
      × (map (λ c. c.fs) code.cases ≡ m.flattened_states)
      × All (IsStateCode m.flattened_states) code.cases

  -- The transitions of a state lead to states.
  abbrev pub LeadsWell : List (FlattenedState D C) → FlattenedState D C → Type 0
  LeadsWell states s = All (LeadsTo states) s.transitions

  pub LeadsWell-All :
      (states ss : List (FlattenedState D C))
      → All (LeadsTo states) (all_transitions ss)
      → All (LeadsWell states) ss
  LeadsWell-All states [] h = tt
  LeadsWell-All states (s ∷ ss) h =
      let (mine, others) = All-split (LeadsTo states) s.transitions (all_transitions ss) h in
      (mine, LeadsWell-All states ss others)

  -- The target of an applicable transition is a state.
  abbrev pub Applies : List (FlattenedState D C) → Transition D C × FlattenedState D C → Type 0
  Applies states a = LeadsTo states a.0

  Applies-map :
      (states : List (FlattenedState D C)) (s : FlattenedState D C) (ts : List (Transition D C))
      → All (LeadsTo states) ts
      → All (Applies states) (map (λ t. (t, s)) ts)
  Applies-map states s [] h = tt
  Applies-map states s (t ∷ ts) h = (h.0, Applies-map states s ts h.1)

  pub Applies-All :
      (states walk : List (FlattenedState D C))
      → All (LeadsWell states) walk
      → All (Applies states) (applicable_transitions walk)
  unfolding applicable_transitions
  Applies-All states [] h = tt
  Applies-All states (s ∷ walk) h =
      All-append (Applies states) (map (λ t. (t, s)) s.transitions) (applicable_transitions walk)
        (Applies-map states s s.transitions h.0) (Applies-All states walk h.1)

module _ (P : Parser) (C : Type 0) (states : List (FlattenedState (P.Decl) C))
    (numbered : Numbered 1 states) where
  open P use {Decl}

  transition_code-IsTransitionCode :
      (walk : List (FlattenedState Decl C)) (a : Transition Decl C × FlattenedState Decl C)
      → Applies states a
      → (code : TransitionCode Decl C) × (transition_code P C states walk a ≡ some code)
        × (code.trans ≡ a.0)
        × IsTransitionCode states code
  unfolding transition_code
  transition_code-IsTransitionCode walk (t, owner) h =
      let (r, e, h') = resolve_leaf-HasId P C states t.target_state_id h in
      let (entered, e', out) = ancestors-LeadsOut states r numbered h' in
      (
        new_transition_code P C states walk t owner r entered,
        rw (transition_code, e, e') refl,
        refl,
        (h', (entered, refl, out)),
      )

  transition_codes_of-All :
      (walk : List (FlattenedState Decl C))
      (list : List (Transition Decl C × FlattenedState Decl C))
      → All (Applies states) list
      → (codes : List (TransitionCode Decl C)) × (transition_codes_of P C states walk list
          ≡ some codes)
        × (map (λ c. c.trans) codes ≡ map (λ a. a.0) list)
        × All (IsTransitionCode states) codes
  unfolding transition_codes_of
  transition_codes_of-All walk [] h = ([], refl, refl, tt)
  transition_codes_of-All walk (a ∷ rest) h =
      let (code, e, same, good) = transition_code-IsTransitionCode walk a h.0 in
      let (codes, e', same', good') = transition_codes_of-All walk rest h.1 in
      (code ∷ codes, rw (transition_codes_of, e, e') refl, rw (same, same') refl, (good, good'))

  state_code-IsStateCode :
      (fs : FlattenedState Decl C)
      → All (LeadsWell states) states
      → HasId fs.id states
      → (code : StateCode Decl C) × (state_code P C states fs ≡ some code)
        × (code.fs ≡ fs)
        × IsStateCode states code
  unfolding state_code
  state_code-IsStateCode fs lead h =
      let (walk, e, out) = ancestors-LeadsOut states fs.id numbered h in
      let around =
        ancestry-All (LeadsWell states) states lead (suc (length states)) (pos fs.id) walk e in
      let (codes, e', same, good) =
        transition_codes_of-All walk (applicable_transitions walk)
          (Applies-All states walk around) in
      (
        new_state_code P C states fs walk codes,
        rw (state_code, e, e') refl,
        refl,
        (h, (walk, refl, out), rw (reverse-reverse walk) same, good),
      )

  cases_of-All :
      (ss : List (FlattenedState Decl C))
      → All (LeadsWell states) states
      → ((i : ℕ) → HasId i ss → HasId i states)
      → (codes : List (StateCode Decl C)) × (cases_of P C states ss ≡ some codes)
        × (map (λ c. c.fs) codes ≡ ss)
        × All (IsStateCode states) codes
  unfolding cases_of
  cases_of-All [] lead has = ([], refl, refl, tt)
  cases_of-All (fs ∷ rest) lead has =
      let (code, e, same, good) = state_code-IsStateCode fs lead (has fs.id (inl refl)) in
      let (codes, e', same', good') = cases_of-All rest lead (λ i h. has i (inr h)) in
      (code ∷ codes, rw (cases_of, e, e') refl, rw (same, same') refl, (good, good'))

-- For a machine that `processStateMachine` returns, code is generated. It has a case for every
-- state, in order. A case tries the transitions of its state and then those of the states around
-- it, from the inside out. The states that a transition enters, and those of the first entry, are
-- the path from the outermost state to the resolved target, and to the initial state.
pub codegen-IsMachineCode :
    (P : Parser) (C : Type 0) (m : Machine (P.Decl) C)
    → IsMachine m
    → (code : MachineCode (P.Decl) C) × (codegen P C m ≡ some code) × IsMachineCode m code
unfolding codegen
codegen-IsMachineCode P C m (numbered, counted, lead, initial) =
    let states = m.flattened_states in
    let (walk, e, out) = ancestors-LeadsOut states m.initial_state_id numbered initial in
    let (cases, e', same, good) =
      cases_of-All P C states numbered states (LeadsWell-All states states lead) (λ i h. h) in
    (
      new_machine_code P C m walk cases,
      rw (codegen, e, e') refl,
      (refl, refl, (walk, refl, out), same, good),
    )
