-- ===== src/StateMachine/Flatten/Numbered.antt =====
-- The ids of the flattened states, and their parents.
use native.Mathlib.Nat.{le_refl, le_trans}
use stridejit.Prelude.{
  List, Option, String, [], arith, length, length-append, minus_one, negsuc, none, pos, refl, some,
  suc, zero, ℕ, ℤ, ◌++◌, ◌+◌, ◌<◌, ◌∷◌, ◌≡◌, ◌≤◌,
}
use stridejit.StateMachine.{FlattenedState}
use stridejit.StateMachine.Ast.{
  Parser, Item, entity_item, declaration_item, other_item, list_children,
}
use stridejit.StateMachine.Flatten.{
  Flat, flatten_child, flatten_children, ◌>>=◌, new_state, flatten_state_machine,
}

-- The id of a parent: none, or that of an earlier state.
abbrev pub IsParent : ℕ → ℤ → Type 0
IsParent i (pos p) = (1 ≤ p) × (p < i)
IsParent i (negsuc m) = m ≡ 0

-- The states are numbered from `k` on, and each parent comes before its child.
abbrev pub Numbered : {D C : Type 0} → ℕ → List (FlattenedState D C) → Type 0
Numbered k [] = Unit
Numbered k (s ∷ ss) = (s.id ≡ k) × IsParent s.id s.parent_id × Numbered (k + 1) ss

-- The states are numbered from 1 on, and the counter is the next number.
abbrev pub IsFlat : {D C : Type 0} → Flat D C → Type 0
IsFlat (states, counter) = Numbered 1 states × (counter ≡ length states + 1)

Numbered-snoc :
    {D C : Type 0} (k : ℕ) (ss : List (FlattenedState D C)) (s : FlattenedState D C)
    → Numbered k ss
    → s.id ≡ k + length ss
    → IsParent s.id s.parent_id
    → Numbered k (ss ++ s ∷ [])
Numbered-snoc k [] s h e p = (omega arith, p, tt)
Numbered-snoc k (t ∷ ss) s h e p = (h.0, h.1, Numbered-snoc (k + 1) ss s h.2 (omega arith) p)

-- What a step of the flattening keeps: the numbering, and that the counter never falls.
abbrev Keeps : {D C : Type 0} → Flat D C → Option (Flat D C) → Type 0
Keeps acc none = Unit
Keeps acc (some acc') = IsFlat acc' × (acc.1 ≤ acc'.1)

Keeps-widen :
    {D C : Type 0} (acc acc' : Flat D C) (r : Option (Flat D C))
    → acc.1 ≤ acc'.1
    → Keeps acc' r
    → Keeps acc r
Keeps-widen acc acc' none le k = tt
Keeps-widen acc acc' (some acc'') le (flat, le') = (flat, le_trans le le')

Keeps-bind :
    {D C : Type 0} (acc : Flat D C) (r : Option (Flat D C)) (f : Flat D C → Option (Flat D C))
    → Keeps acc r
    → ((acc' : Flat D C) → IsFlat acc' → acc.1 ≤ acc'.1 → Keeps acc' (f acc'))
    → Keeps acc (r >>= f)
Keeps-bind acc none f h next = tt
Keeps-bind acc (some acc') f (flat, le) next = Keeps-widen acc acc' (f acc') le (next acc' flat le)

module _ {D C : Type 0} (find : String → Option D) (go : D → Flat D C → Option (Flat D C)) (i : ℕ)
    (step : (d : D) (acc : Flat D C) → IsFlat acc → i < acc.1 → Keeps acc (go d acc)) where
  child-Keeps :
      (o : Option D) (acc : Flat D C) → IsFlat acc → i < acc.1 → Keeps acc (flatten_child go o acc)
  child-Keeps none acc h p = (h, le_refl acc.1)
  child-Keeps (some d) acc h p = step d acc h p

  children-Keeps :
      (items : List (Item D)) (acc : Flat D C)
      → IsFlat acc
      → i < acc.1
      → Keeps acc (flatten_children find go items acc)
  unfolding flatten_children
  children-Keeps [] acc h p = (h, le_refl acc.1)
  children-Keeps (declaration_item d ∷ items) acc h p = children-Keeps items acc h p
  children-Keeps (other_item ∷ items) acc h p = children-Keeps items acc h p
  children-Keeps (entity_item n ∷ items) acc h p =
      Keeps-bind acc (flatten_child go (find n) acc) (flatten_children find go items)
        (child-Keeps (find n) acc h p)
        (λ acc' flat le. children-Keeps items acc' flat (le_trans p le))

module _ (P : Parser) (C : Type 0) (sm_name : String) where
  open P use {Decl, get_name, get_property_value, find_declaration}

  flatten-Keeps :
      (fuel : ℕ) (parent_id : ℤ) (node : Decl) (acc : Flat Decl C)
      → IsFlat acc
      → IsParent acc.1 parent_id
      → Keeps (acc.0, acc.1 + 1) (flatten_state_machine P C sm_name fuel parent_id node acc)
  unfolding flatten_state_machine
  flatten-Keeps zero parent_id node acc h p = tt
  flatten-Keeps (suc fuel) parent_id node (states, counter) h p =
      let s = new_state P C sm_name node counter parent_id in
      let acc' : Flat Decl C = (states ++ s ∷ [], counter + 1) in
      let flat : IsFlat acc' = (
        Numbered-snoc 1 states s h.0 (omega arith) p,
        omega (arith, length-append {0} states (s ∷ [])),
      ) in
      Keeps-widen (states, counter + 1) acc' _ (le_refl (counter + 1))
        (children-Keeps find_declaration (flatten_state_machine P C sm_name fuel (pos counter))
          counter
          (λ d acc'' flat' p'.
            Keeps-widen acc'' (acc''.0, acc''.1 + 1) _ (omega arith)
              (flatten-Keeps fuel (pos counter) d acc'' flat' (omega arith, p')))
          (list_children (get_property_value node "states")) acc' flat (omega arith))

  -- The states of a machine are numbered 1, 2, 3 and so on in the order in which they are listed;
  -- the root has no parent, and the parent of every other state is listed before it. There is at
  -- least one state, and the counter ends at the next number.
  pub flatten_state_machine-Numbered :
      (fuel : ℕ) (node : Decl) (states : List (FlattenedState Decl C)) (counter : ℕ)
      → flatten_state_machine P C sm_name fuel minus_one node ([], 1) ≡ some (states, counter)
      → Numbered 1 states × (counter ≡ length states + 1) × (1 ≤ length states)
  flatten_state_machine-Numbered fuel node states counter e =
      let ((flat, counted), more) =
        rw e at (flatten-Keeps fuel minus_one node ([], 1) (tt, omega arith) refl) in
      (flat, counted, omega arith)
