-- ===== src/StateMachine/Codegen/Order.antt =====
-- The order of the states that the code of a transition leaves and enters.
use mathlib.Core.Option.{some-injective}
use mathlib.Core.Path.{subst}
use mathlib.Core.List.{reverse-cons}
use stridejit.Prelude.{
  ==_iff, All, All-append, Bool-cases, List, Option, [], arith, inl, inr, length, map, minus_one,
  none, pos, refl, reverse, some, suc, sym, ℕ, ℤ, ◌++◌, ◌==◌, ◌∷◌, ◌≡◌, ◌≢◌, ◌⊎◌,
}
use stridejit.StateMachine.{Transition, FlattenedState, Machine}
use stridejit.StateMachine.Ast.{Parser}
use stridejit.StateMachine.Flatten.{◌>>=◌}
use stridejit.StateMachine.Flatten.Numbered.{Numbered}
use stridejit.StateMachine.Process.{resolve_leaf}
use stridejit.StateMachine.Process.Leaf.{HasId, resolve_leaf-HasId}
use stridejit.StateMachine.Process.Result.{IsMachine}
use stridejit.StateMachine.Codegen.{
  up_to_owner, applicable_transitions, TransitionCode, StateCode, MachineCode, transition_code,
  new_transition_code, new_state_code, new_machine_code, transition_codes_of, state_code, cases_of,
  codegen,
}
use stridejit.StateMachine.Codegen.Ancestry.{LeadsOut, ancestors-LeadsOut, ancestry-All}
use stridejit.StateMachine.Codegen.Total.{LeadsWell, LeadsWell-All, Applies, Applies-All}

abbrev pub Has : {A : Type 0} → A → List A → Type 0
Has x [] = ⊥
Has x (y ∷ ys) = (y ≡ x) ⊎ Has x ys

bind-some :
    {A B : Type 0} (o : Option A) (f : A → Option B) (y : B)
    → (o >>= f) ≡ some y
    → (x : A) × (o ≡ some x) × (f x ≡ some y)
bind-some none f y e = cc
bind-some (some x) f y e = (x, refl, e)

module _ {D C : Type 0} where
  -- From the inside out: the first state has the id, each next one is the parent of the one before it,
  -- and the owner is the last one and no other.
  abbrev pub LeadsUp : ℤ → List (FlattenedState D C) → ℕ → Type 0
  LeadsUp i [] owner = ⊥
  LeadsUp i (s ∷ ss) owner =
      (pos s.id ≡ i)
      × (((s.id ≡ owner) × (ss ≡ [])) ⊎ ((s.id ≢ owner) × LeadsUp s.parent_id ss owner))

  -- From the outside in: the first state has the parent, each state is the parent of the next one, and
  -- the last one has the id.
  abbrev pub LeadsIn : ℤ → List (FlattenedState D C) → ℤ → Type 0
  LeadsIn parent [] i = parent ≡ i
  LeadsIn parent (s ∷ ss) i = (s.parent_id ≡ parent) × LeadsIn (pos s.id) ss i

  LeadsIn-snoc :
      (parent : ℤ) (ss : List (FlattenedState D C)) (s : FlattenedState D C)
      → LeadsIn parent ss s.parent_id
      → LeadsIn parent (ss ++ s ∷ []) (pos s.id)
  LeadsIn-snoc parent [] s e = (sym e, refl)
  LeadsIn-snoc parent (t ∷ ss) s h = (h.0, LeadsIn-snoc (pos t.id) ss s h.1)

  reverse-LeadsIn :
      (i : ℤ) (walk : List (FlattenedState D C))
      → LeadsOut i walk
      → LeadsIn minus_one (reverse walk) i
  reverse-LeadsIn i [] h = sym h
  reverse-LeadsIn i (s ∷ walk) h =
      subst (λ l. LeadsIn minus_one l i) (sym (reverse-cons s walk))
        (subst (LeadsIn minus_one (reverse walk ++ s ∷ [])) h.0
          (LeadsIn-snoc minus_one (reverse walk) s (reverse-LeadsIn s.parent_id walk h.1)))

  up_to_owner-LeadsUp :
      (i : ℤ) (walk : List (FlattenedState D C)) (owner : ℕ)
      → LeadsOut i walk
      → HasId owner walk
      → LeadsUp i (up_to_owner owner walk) owner
  unfolding up_to_owner
  up_to_owner-LeadsUp i [] owner h has = has
  up_to_owner-LeadsUp i (s ∷ ss) owner h has = elim (Bool-cases (s.id == owner)) [
    | inl e ↦ rw e (h.0, inl ((==_iff s.id owner).0 e, refl))
    | inr other ↦
        let differs : s.id ≢ owner = ground arith in
        let later : HasId owner ss = elim has [ inl e ↦ absurd (differs e) | inr h' ↦ h' ] in
        rw other (h.0, inr (differs, up_to_owner-LeadsUp s.parent_id ss owner h.1 later))
  ]

  -- An applicable transition is one of a state on the walk.
  abbrev OfWalk : List (FlattenedState D C) → Transition D C × FlattenedState D C → Type 0
  OfWalk walk a = HasId a.1.id walk × Has a.0 a.1.transitions

  OfWalk-map :
      (walk : List (FlattenedState D C)) (s : FlattenedState D C) (ts : List (Transition D C))
      → HasId s.id walk
      → ((t : Transition D C) → Has t ts → Has t s.transitions)
      → All (OfWalk walk) (map (λ t. (t, s)) ts)
  OfWalk-map walk s [] has sub = tt
  OfWalk-map walk s (t ∷ ts) has sub =
      ((has, sub t (inl refl)), OfWalk-map walk s ts has (λ u h. sub u (inr h)))

  OfWalk-All :
      (walk rest : List (FlattenedState D C))
      → ((i : ℕ) → HasId i rest → HasId i walk)
      → All (OfWalk walk) (applicable_transitions rest)
  unfolding applicable_transitions
  OfWalk-All walk [] sub = tt
  OfWalk-All walk (s ∷ rest) sub =
      All-append (OfWalk walk) (map (λ t. (t, s)) s.transitions) (applicable_transitions rest)
        (OfWalk-map walk s s.transitions (sub s.id (inl refl)) (λ t h. h))
        (OfWalk-All walk rest (λ i h. sub i (inr h)))

module _ (P : Parser) (C : Type 0) where
  open P use {Decl}

  module _ (states : List (FlattenedState Decl C)) where
    -- A transition of an owner: the states that it leaves go from the active state up to the owner, and
    -- those that it enters from the outermost state down to the leaf that its target stands for.
    abbrev pub IsOrdered : ℕ → TransitionCode Decl C → Type 0
    IsOrdered active code =
        (owner : FlattenedState Decl C) × Has code.trans owner.transitions
        × LeadsUp (pos active) code.exited_states owner.id
        × (resolve_leaf P C states code.trans.target_state_id ≡ some code.resolved_target_id)
        × LeadsIn minus_one code.target_ancestry (pos code.resolved_target_id)

    abbrev pub AllOrdered : StateCode Decl C → Type 0
    AllOrdered code = All (IsOrdered code.fs.id) code.transition_codes

    module _ (numbered : Numbered 1 states) where
      transition_code-IsOrdered :
          (active : ℕ) (walk : List (FlattenedState Decl C))
          (a : Transition Decl C × FlattenedState Decl C) (code : TransitionCode Decl C)
          → LeadsOut (pos active) walk
          → OfWalk walk a
          → Applies states a
          → transition_code P C states walk a ≡ some code
          → IsOrdered active code
      unfolding transition_code
      transition_code-IsOrdered active walk (t, owner) code out (on_walk, mine) leads e =
          let (r, resolves, has) = resolve_leaf-HasId P C states t.target_state_id leads in
          let (entered, found, inward) = ancestors-LeadsOut states r numbered has in
          let built = new_transition_code P C states walk t owner r entered in
          let same : built ≡ code = some-injective built code (rw (resolves, found) at e) in
          subst (IsOrdered active) same (
            owner,
            mine,
            up_to_owner-LeadsUp (pos active) walk owner.id out on_walk,
            resolves,
            reverse-LeadsIn (pos r) entered inward,
          )

      transition_codes_of-IsOrdered :
          (active : ℕ) (walk : List (FlattenedState Decl C))
          (list : List (Transition Decl C × FlattenedState Decl C))
          (codes : List (TransitionCode Decl C))
          → LeadsOut (pos active) walk
          → All (OfWalk walk) list
          → All (Applies states) list
          → transition_codes_of P C states walk list ≡ some codes
          → All (IsOrdered active) codes
      unfolding transition_codes_of
      transition_codes_of-IsOrdered active walk [] codes out on lead e =
          subst (All (IsOrdered active)) (some-injective [] codes e) tt
      transition_codes_of-IsOrdered active walk (a ∷ rest) codes out on lead e =
          let (code, first, later) =
            bind-some (transition_code P C states walk a)
              (λ c. transition_codes_of P C states walk rest >>= λ cs. some (c ∷ cs)) codes e in
          let (others, found, same) =
            bind-some (transition_codes_of P C states walk rest) (λ cs. some (code ∷ cs)) codes
              later in
          subst (All (IsOrdered active)) (some-injective (code ∷ others) codes same) (
            transition_code-IsOrdered active walk a code out on.0 lead.0 first,
            transition_codes_of-IsOrdered active walk rest others out on.1 lead.1 found,
          )

      state_code-AllOrdered :
          (fs : FlattenedState Decl C) (code : StateCode Decl C)
          → All (LeadsWell states) states
          → HasId fs.id states
          → state_code P C states fs ≡ some code
          → AllOrdered code
      unfolding state_code
      state_code-AllOrdered fs code lead has e =
          let (walk, found, out) = ancestors-LeadsOut states fs.id numbered has in
          let around =
            ancestry-All (LeadsWell states) states lead (suc (length states)) (pos fs.id) walk
              found in
          let list = applicable_transitions walk in
          let (codes, made, same) =
            bind-some (transition_codes_of P C states walk list)
              (λ cs. some (new_state_code P C states fs walk cs)) code (rw found at e) in
          subst AllOrdered (some-injective (new_state_code P C states fs walk codes) code same) (
            transition_codes_of-IsOrdered fs.id walk list codes out
              (OfWalk-All walk walk (λ i h. h)) (Applies-All states walk around) made)

      cases_of-AllOrdered :
          (ss : List (FlattenedState Decl C)) (codes : List (StateCode Decl C))
          → All (LeadsWell states) states
          → ((i : ℕ) → HasId i ss → HasId i states)
          → cases_of P C states ss ≡ some codes
          → All AllOrdered codes
      unfolding cases_of
      cases_of-AllOrdered [] codes lead has e =
          subst (All AllOrdered) (some-injective [] codes e) tt
      cases_of-AllOrdered (fs ∷ rest) codes lead has e =
          let (code, first, later) =
            bind-some (state_code P C states fs)
              (λ c. cases_of P C states rest >>= λ cs. some (c ∷ cs)) codes e in
          let (others, found, same) =
            bind-some (cases_of P C states rest) (λ cs. some (code ∷ cs)) codes later in
          subst (All AllOrdered) (some-injective (code ∷ others) codes same) (
            state_code-AllOrdered fs code lead (has fs.id (inl refl)) first,
            cases_of-AllOrdered rest others lead (λ i h. has i (inr h)) found,
          )

  pub codegen-AllOrdered :
      (m : Machine Decl C) (code : MachineCode Decl C)
      → IsMachine m
      → codegen P C m ≡ some code
      → All (AllOrdered m.flattened_states) code.cases
  unfolding codegen
  codegen-AllOrdered m code (numbered, counted, lead, initial) e =
      let states = m.flattened_states in
      let (walk, found, out) = ancestors-LeadsOut states m.initial_state_id numbered initial in
      let (cases, made, same) =
        bind-some (cases_of P C states states) (λ cs. some (new_machine_code P C m walk cs)) code
          (rw found at e) in
      subst (λ c. All (AllOrdered states) c.cases)
        (some-injective (new_machine_code P C m walk cases) code same)
        (cases_of-AllOrdered states numbered states cases (LeadsWell-All states states lead)
          (λ i h. h) made)
