-- ===== src/StateMachine/Process/Leaf.antt =====
-- `resolveLeafInitialState` returns, and returns the id of a state.
use native.Mathlib.Decide.{ℕ_discrete}
use stridejit.Prelude.{
  Bool-cases, List, Option, Option-cases, String, [], arith, false, if◌then◌else◌, inl, inr, length,
  none, refl, some, str_eq, suc, sym, true, zero, ℕ, ◌+◌, ◌<◌, ◌∙◌, ◌∷◌, ◌≡◌, ◌≤◌, ◌⊎◌,
}
use stridejit.StateMachine.{FlattenedState, state_with_id, find_state}
use stridejit.StateMachine.Ast.{Parser, entity_name}
use stridejit.StateMachine.Flatten.{◌>>=◌}
use stridejit.StateMachine.Process.{
  visited_before, initial_child, resolve_leaf_initial_state, resolve_leaf,
}

-- A state of the list has the id.
abbrev pub HasId : {D C : Type 0} → ℕ → List (FlattenedState D C) → Type 0
HasId i [] = ⊥
HasId i (s ∷ ss) = (s.id ≡ i) ⊎ HasId i ss

pub HasId-find_state :
    {D C : Type 0} (get_name : D → String) (states : List (FlattenedState D C)) (n : String)
    (s : FlattenedState D C)
    → find_state get_name states n ≡ some s
    → HasId s.id states
unfolding find_state
HasId-find_state get_name [] n s e = cc
HasId-find_state get_name (t ∷ ts) n s e = elim (Bool-cases (str_eq (get_name t.state_decl) n)) [
  | inl hit ↦ inl (ground arith)
  | inr miss ↦ inr (HasId-find_state get_name ts n s (ground arith))
]

-- How many of the states are not visited.
unvisited : {D C : Type 0} → List (FlattenedState D C) → List ℕ → ℕ
unvisited [] visited = 0
unvisited (s ∷ ss) visited =
    let rest = unvisited ss visited in if visited_before s.id visited then rest else suc rest

unvisited-le :
    {D C : Type 0} (ss : List (FlattenedState D C)) (i : ℕ) (visited : List ℕ)
    → unvisited ss (i ∷ visited) ≤ unvisited ss visited
unfolding unvisited
unvisited-le [] i visited = omega arith
unvisited-le (s ∷ ss) i visited = ground (arith, unvisited-le ss i visited)

unvisited-le-length :
    {D C : Type 0} (ss : List (FlattenedState D C)) (visited : List ℕ)
    → unvisited ss visited ≤ length ss
unfolding unvisited
unvisited-le-length [] visited = omega arith
unvisited-le-length (s ∷ ss) visited = ground (arith, unvisited-le-length ss visited)

visited_cons : (i j : ℕ) (visited : List ℕ) → i ≡ j → visited_before j (i ∷ visited) ≡ true
visited_cons i j visited e = ground arith

-- Visiting a state of the list leaves fewer that are not visited.
unvisited-lt :
    {D C : Type 0} (ss : List (FlattenedState D C)) (i : ℕ) (visited : List ℕ)
    (fs : FlattenedState D C)
    → state_with_id ss i ≡ some fs
    → visited_before i visited ≡ false
    → unvisited ss (i ∷ visited) < unvisited ss visited
unfolding unvisited state_with_id
unvisited-lt [] i visited fs e fresh = cc
unvisited-lt (s ∷ ss) i visited fs e fresh = elim (ℕ_discrete s.id i) [
  | yes same ↦
      let before : visited_before s.id visited ≡ false = rw same fresh in
      rw (visited_cons i s.id visited (sym same), before) (omega (arith, unvisited-le ss i visited))
  | no other ↦
      let later : state_with_id ss i ≡ some fs = ground arith in
      ground (arith, unvisited-lt ss i visited fs later fresh)
]

module _ (P : Parser) (C : Type 0) where
  open P use {Decl, get_property_value, get_name}

  HasId-initial_child :
      (states : List (FlattenedState Decl C)) (o : Option (FlattenedState Decl C))
      (child : FlattenedState Decl C)
      → (o >>= initial_child P C states) ≡ some child
      → HasId child.id states
  HasId-initial_child states none child e = cc
  HasId-initial_child states (some fs) child e =
      named (entity_name (get_property_value fs.state_decl "initialState")) e
    where
      named :
          (n : Option String)
          → (n >>= find_state get_name states) ≡ some child
          → HasId child.id states
      named none e' = cc
      named (some n) e' = HasId-find_state get_name states n child e'

  module _ (states : List (FlattenedState Decl C)) where
    child_found :
        (i : ℕ) (o : Option (FlattenedState Decl C)) (child : FlattenedState Decl C)
        → state_with_id states i ≡ o
        → (o >>= initial_child P C states) ≡ some child
        → (fs : FlattenedState Decl C) × (state_with_id states i ≡ some fs)
    child_found i none child e e' = cc
    child_found i (some fs) child e e' = (fs, e)

    resolve-seen :
        (fuel : ℕ) (visited : List ℕ) (i : ℕ)
        → visited_before i visited ≡ true
        → resolve_leaf_initial_state P C (suc fuel) states visited i ≡ some i
    unfolding resolve_leaf_initial_state
    resolve-seen fuel visited i seen = rw (resolve_leaf_initial_state, seen) refl

    resolve-leaf :
        (fuel : ℕ) (visited : List ℕ) (i : ℕ)
        → visited_before i visited ≡ false
        → (state_with_id states i >>= initial_child P C states) ≡ none
        → resolve_leaf_initial_state P C (suc fuel) states visited i ≡ some i
    unfolding resolve_leaf_initial_state
    resolve-leaf fuel visited i fresh leaf = rw (resolve_leaf_initial_state, fresh, leaf) refl

    resolve-child :
        (fuel : ℕ) (visited : List ℕ) (i : ℕ) (child : FlattenedState Decl C)
        → visited_before i visited ≡ false
        → (state_with_id states i >>= initial_child P C states) ≡ some child
        → resolve_leaf_initial_state P C (suc fuel) states visited i
          ≡ resolve_leaf_initial_state P C fuel states (i ∷ visited) child.id
    unfolding resolve_leaf_initial_state
    resolve-child fuel visited i child fresh e = rw (resolve_leaf_initial_state, fresh, e) refl

    -- What resolving returns, on any number of rounds above that of the states not visited yet.
    abbrev Resolves : Option ℕ → Type 0
    Resolves o = (r : ℕ) × (o ≡ some r) × HasId r states

    resolve_leaf_initial_state-Resolves :
        (fuel : ℕ) (visited : List ℕ) (i : ℕ)
        → unvisited states visited + 1 < fuel
        → HasId i states
        → Resolves (resolve_leaf_initial_state P C fuel states visited i)
    resolve_leaf_initial_state-Resolves zero visited i p h = absurd (omega arith)
    resolve_leaf_initial_state-Resolves (suc fuel) visited i p h =
        elim (Bool-cases (visited_before i visited)) [
          | inl seen ↦ (i, resolve-seen fuel visited i seen, h)
          | inr fresh ↦ elim (Option-cases (state_with_id states i >>= initial_child P C states)) [
            | inl leaf ↦ (i, resolve-leaf fuel visited i fresh leaf, h)
            | inr (child, e) ↦
                let (fs, found) = child_found i (state_with_id states i) child refl e in
                let (r, e', h') =
                  resolve_leaf_initial_state-Resolves fuel (i ∷ visited) child.id
                    (omega (arith, unvisited-lt states i visited fs found fresh))
                    (HasId-initial_child states (state_with_id states i) child e) in
                (r, resolve-child fuel visited i child fresh e ∙ e', h')
          ]
        ]

    -- Resolving the id of a state returns, with as many rounds as there are states and two more,
    -- and returns the id of a state, also where the initial states form a cycle.
    pub resolve_leaf-HasId :
        (state_id : ℕ)
        → HasId state_id states
        → (r : ℕ) × (resolve_leaf P C states state_id ≡ some r) × HasId r states
    unfolding resolve_leaf
    resolve_leaf-HasId state_id h =
        resolve_leaf_initial_state-Resolves (length states + 2) [] state_id
          (omega (arith, unvisited-le-length states [])) h
