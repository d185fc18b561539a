-- ===== src/StateMachine/Flatten/Total.antt =====
-- The recursion of `flattenStateMachine` ends where no state is below itself.
use stridejit.Prelude.{
  All, List, Option, String, [], arith, none, pos, refl, some, suc, zero, ℕ, ℤ, ◌<◌, ◌∷◌, ◌≡◌,
}
use stridejit.StateMachine.Ast.{
  Parser, Item, entity_item, declaration_item, other_item, list_children,
}
use stridejit.StateMachine.Flatten.{
  Flat, flatten_child, flatten_children, ◌>>=◌, flatten_state_machine,
}

abbrev Returns : {A : Type 0} → Option A → Type 0
Returns none = ⊥
Returns (some a) = Unit

result : {A : Type 0} (r : Option A) → Returns r → (a : A) × (r ≡ some a)
result none h = absurd h
result (some a) h = (a, refl)

Returns-bind :
    {A B : Type 0} (r : Option A) (f : A → Option B)
    → Returns r
    → ((a : A) → Returns (f a))
    → Returns (r >>= f)
Returns-bind none f h next = h
Returns-bind (some a) f h next = next a

-- The states that the items name have a rank below `r`.
abbrev pub NamesBelow : {D : Type 0} → (String → Option D) → (D → ℕ) → ℕ → Item D → Type 0
NamesBelow {D} find rank r (entity_item n) = (d : D) → find n ≡ some d → rank d < r
NamesBelow find rank r _ = Unit

module _ {D C : Type 0} (find : String → Option D) (rank : D → ℕ) (r : ℕ)
    (go : D → Flat D C → Option (Flat D C))
    (step : (d : D) (acc : Flat D C) → rank d < r → Returns (go d acc)) where
  child-Returns :
      (o : Option D) (acc : Flat D C)
      → ((d : D) → o ≡ some d → rank d < r)
      → Returns (flatten_child go o acc)
  child-Returns none acc h = tt
  child-Returns (some d) acc h = step d acc (h d refl)

  children-Returns :
      (items : List (Item D)) (acc : Flat D C)
      → All (NamesBelow find rank r) items
      → Returns (flatten_children find go items acc)
  unfolding flatten_children
  children-Returns [] acc h = tt
  children-Returns (declaration_item d ∷ items) acc h = children-Returns items acc h.1
  children-Returns (other_item ∷ items) acc h = children-Returns items acc h.1
  children-Returns (entity_item n ∷ items) acc h =
      Returns-bind (flatten_child go (find n) acc) (flatten_children find go items)
        (child-Returns (find n) acc h.0) (λ acc'. children-Returns items acc' h.1)

module _ (P : Parser) (C : Type 0) (sm_name : String) where
  open P use {Decl, get_property_value, find_declaration}

  -- A rank that falls from each state to the states below it.
  abbrev pub IsRank : (Decl → ℕ) → Type 0
  IsRank rank =
      (d : Decl)
      → All (NamesBelow find_declaration rank (rank d))
          (list_children (get_property_value d "states"))

  flatten-Returns :
      (rank : Decl → ℕ) (fuel : ℕ) (parent_id : ℤ) (node : Decl) (acc : Flat Decl C)
      → IsRank rank
      → rank node < fuel
      → Returns (flatten_state_machine P C sm_name fuel parent_id node acc)
  unfolding flatten_state_machine
  flatten-Returns rank zero parent_id node acc h p = absurd (omega arith)
  flatten-Returns rank (suc fuel) parent_id node (states, counter) h p =
      children-Returns find_declaration rank (rank node)
        (flatten_state_machine P C sm_name fuel (pos counter))
        (λ d acc' below. flatten-Returns rank fuel (pos counter) d acc' h (omega arith))
        (list_children (get_property_value node "states")) _ (h node)

  -- Where no state is below itself, as a rank shows, the flattening returns with as many rounds as
  -- the rank of its root and one more.
  pub flatten_state_machine_total :
      (rank : Decl → ℕ) (fuel : ℕ) (parent_id : ℤ) (node : Decl) (acc : Flat Decl C)
      → IsRank rank
      → rank node < fuel
      → (flat : Flat Decl C) × (flatten_state_machine P C sm_name fuel parent_id node acc
          ≡ some flat)
  flatten_state_machine_total rank fuel parent_id node acc h p =
      result _ (flatten-Returns rank fuel parent_id node acc h p)
