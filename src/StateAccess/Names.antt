-- ===== src/StateAccess/Names.antt =====
-- Which field findFieldByFunctionality finds.
use stridejit.Prelude.{
  All, Bool-cases, List, Option, String, [], ap, false, inl, inr, none, refl, some, true, ℕ, ◌++◌,
  ◌∷◌, ◌≡◌,
}
use stridejit.StateMachine.{StateMachineField}
use stridejit.StateAccess.{qualifies, find_field_by_functionality}

module _ (field : StateMachineField) (filter1 filter2 : String) where
  -- A name that ends in the suffix of the field and has both filters in it, and one that does not.
  abbrev pub Qualifies : String × ℕ → Type 0
  Qualifies p = qualifies field filter1 filter2 p.0 ≡ true

  abbrev pub Fails : String × ℕ → Type 0
  Fails p = qualifies field filter1 filter2 p.0 ≡ false

  abbrev pub IsFirst : List (String × ℕ) → Option ℕ → Type 0
  IsFirst vars none = All Fails vars
  IsFirst vars (some i) =
      (before : List (String × ℕ)) × (key : String) × (behind : List (String × ℕ)) × (vars
        ≡ before ++ (key, i) ∷ behind)
      × All Fails before
      × Qualifies (key, i)

  IsFirst-cons :
      (p : String × ℕ) (vars : List (String × ℕ)) (o : Option ℕ)
      → Fails p
      → IsFirst vars o
      → IsFirst (p ∷ vars) o
  IsFirst-cons p vars none f h = (f, h)
  IsFirst-cons p vars (some i) f (before, key, behind, e, fails, q) =
      (p ∷ before, key, behind, ap (λ l. p ∷ l) e, (f, fails), q)

  -- Of the variables of a state, in the order of their names, the first is found whose name ends in the
  -- suffix of the field and has both filters in it; and none only where there is no such name.
  pub find_field_by_functionality-IsFirst :
      (vars : List (String × ℕ))
      → IsFirst vars (find_field_by_functionality vars field filter1 filter2)
  unfolding find_field_by_functionality
  find_field_by_functionality-IsFirst [] = tt
  find_field_by_functionality-IsFirst ((key, i) ∷ rest) =
      elim (Bool-cases (qualifies field filter1 filter2 key)) [
        | inl e ↦ rw (find_field_by_functionality, e) ([], key, rest, refl, tt, e)
        | inr e ↦
            rw (find_field_by_functionality, e)
              (IsFirst-cons (key, i) rest (find_field_by_functionality rest field filter1 filter2) e
                (find_field_by_functionality-IsFirst rest))
      ]
