-- ===== src/StateMachine/Process/Result.antt =====
-- What `processStateMachine` returns: a machine whose states, transitions and initial state fit.
use stridejit.Prelude.{
  All, List, Option, String, [], arith, inl, length, minus_one, none, refl, some, ℕ, ◌<◌, ◌∷◌, ◌≡◌,
  ◌≤◌,
}
use stridejit.StateMachine.{FlattenedState, Machine, find_state}
use stridejit.StateMachine.Ast.{Parser, entity_name}
use stridejit.StateMachine.Flatten.{◌>>=◌}
use stridejit.StateMachine.Flatten.Numbered.{Numbered, flatten_state_machine-Numbered}
use stridejit.StateMachine.Flatten.Total.{IsRank, flatten_state_machine_total}
use stridejit.StateMachine.Process.{
  declared_initial, new_machine, load_machine, process_declaration,
}
use stridejit.StateMachine.Process.Leaf.{HasId, HasId-find_state, resolve_leaf-HasId}
use stridejit.StateMachine.Process.Targets.{
  all_transitions, CountFrom, LeadsTo, load, load_all-Counts, load_all-Numbered, HasId-load_all,
}

-- The states are numbered from 1 on with each parent before its child, the transitions too; each
-- transition leads to a state, and the initial state is one.
abbrev pub IsMachine : {D C : Type 0} → Machine D C → Type 0
IsMachine m =
    Numbered 1 m.flattened_states
    × CountFrom 1 (all_transitions m.flattened_states)
    × All (LeadsTo m.flattened_states) (all_transitions m.flattened_states)
    × HasId m.initial_state_id m.flattened_states

All-map :
    {A : Type 0} (P Q : A → Type 0) (xs : List A) → ((x : A) → P x → Q x) → All P xs → All Q xs
All-map P Q [] f h = tt
All-map P Q (x ∷ xs) f h = (f x h.0, All-map P Q xs f h.1)

HasId-first :
    {D C : Type 0} (ss : List (FlattenedState D C)) → Numbered 1 ss → 1 ≤ length ss → HasId 1 ss
HasId-first [] h p = absurd (omega arith)
HasId-first (s ∷ ss) h p = inl h.0

module _ (P : Parser) (C : Type 0) (number_text : ℕ → String) (sm_decl : P.Decl)
    (prefix sm_name : String) where
  open P use {Decl, get_name, get_property_value}

  declared_initial-HasId :
      (ss : List (FlattenedState Decl C))
      → HasId 1 ss
      → HasId (declared_initial P C number_text sm_decl ss) ss
  declared_initial-HasId ss h = named (entity_name (get_property_value sm_decl "initialState"))
    where
      initial : Option (FlattenedState Decl C) → ℕ
      initial o = elim o [ none ↦ 1 | some s ↦ s.id ]

      found :
          (n : String) (o : Option (FlattenedState Decl C))
          → find_state get_name ss n ≡ o
          → HasId (elim o [ none ↦ 1 | some s ↦ s.id ]) ss
      found n none e = h
      found n (some s) e = HasId-find_state get_name ss n s e

      named :
          (o : Option String)
          → HasId (elim (o >>= find_state get_name ss) [ none ↦ 1 | some s ↦ s.id ]) ss
      named none = h
      named (some n) = found n (find_state get_name ss n) refl

  load_machine-IsMachine :
      (states : List (FlattenedState Decl C))
      → Numbered 1 states
      → 1 ≤ length states
      → (m : Machine Decl C) × (load_machine P C number_text sm_decl prefix sm_name states ≡ some m)
        × IsMachine m
  unfolding load_machine
  load_machine-IsMachine states h p =
      let loaded = (load P C number_text prefix sm_name states states 1).0 in
      let (counted, ends, lead) = load_all-Counts P C number_text prefix sm_name states states 1 in
      let kept = HasId-load_all P C number_text prefix sm_name states in
      let first = declared_initial-HasId loaded (kept 1 states 1 (HasId-first states h p)) in
      let (initial, e, h') =
        resolve_leaf-HasId P C loaded (declared_initial P C number_text sm_decl loaded) first in
      (
        new_machine P C number_text sm_decl prefix sm_name loaded initial,
        rw e refl,
        (
          load_all-Numbered P C number_text prefix sm_name states 1 states 1 h,
          counted,
          All-map (LeadsTo states) (LeadsTo loaded) (all_transitions loaded)
              (λ t. kept t.target_state_id states 1) lead,
          h',
        ),
      )

  -- Where no state is below itself, as a rank shows, a state declaration is made into a machine,
  -- with as many rounds as its rank and one more. The states are numbered from 1 on with each parent
  -- before its child, the transitions of all states are numbered from 1 on, each transition leads
  -- to one of the states, and the initial state is one of them.
  pub process_declaration-IsMachine :
      (rank : Decl → ℕ) (fuel : ℕ)
      → IsRank P C sm_name rank
      → rank sm_decl < fuel
      → (m : Machine Decl C) × (process_declaration P C number_text fuel sm_decl prefix sm_name
          ≡ some m)
        × IsMachine m
  unfolding process_declaration
  process_declaration-IsMachine rank fuel h p =
      let ((states, counter), e) =
        flatten_state_machine_total P C sm_name rank fuel minus_one sm_decl ([], 1) h p in
      let (numbered, ends, more) =
        flatten_state_machine-Numbered P C sm_name fuel sm_decl states counter e in
      let (m, e', good) = load_machine-IsMachine states numbered more in (m, rw e e', good)
