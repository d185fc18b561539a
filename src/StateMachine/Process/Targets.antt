-- ===== src/StateMachine/Process/Targets.antt =====
-- The transitions that `processStateMachine` loads: their numbers and their targets.
use stridejit.Prelude.{
  All, All-append, List, Option, Option-cases, String, [], ap, arith, inl, inr, length,
  length-append, none, refl, some, sym, ℕ, ◌++◌, ◌+◌, ◌∷◌, ◌≡◌,
}
use mathlib.Core.Option.{some-injective}
use mathlib.Core.Path.{subst}
use stridejit.StateMachine.{Transition, FlattenedState, find_state}
use stridejit.StateMachine.Ast.{Parser, Item, entity_name, list_children}
use stridejit.StateMachine.Flatten.{◌>>=◌}
use stridejit.StateMachine.Flatten.Numbered.{Numbered}
use stridejit.StateMachine.Process.{
  transition_decl_of, target_of, new_transition, transition_target, load_transitions, load_all,
}
use stridejit.StateMachine.Process.Leaf.{HasId, HasId-find_state}

module _ {D C : Type 0} where
  -- The transitions of all the states, in order.
  abbrev pub all_transitions : List (FlattenedState D C) → List (Transition D C)
  all_transitions [] = []
  all_transitions (s ∷ ss) = s.transitions ++ all_transitions ss

  -- The transitions are numbered from `k` on.
  abbrev pub CountFrom : ℕ → List (Transition D C) → Type 0
  CountFrom k [] = Unit
  CountFrom k (t ∷ ts) = (t.id ≡ k) × CountFrom (k + 1) ts

  -- The transition leads to one of the states.
  abbrev pub LeadsTo : List (FlattenedState D C) → Transition D C → Type 0
  LeadsTo states t = HasId t.target_state_id states

  CountFrom-at : (j k : ℕ) (ts : List (Transition D C)) → j ≡ k → CountFrom j ts → CountFrom k ts
  CountFrom-at j k ts e h = rw e at h

  CountFrom-append :
      (k : ℕ) (ts us : List (Transition D C))
      → CountFrom k ts
      → CountFrom (k + length ts) us
      → CountFrom k (ts ++ us)
  CountFrom-append k [] us h h' = CountFrom-at (k + 0) k us (omega arith) h'
  CountFrom-append k (t ∷ ts) us h h' = (
    h.0,
    CountFrom-append (k + 1) ts us h.1
        (CountFrom-at (k + length (t ∷ ts)) (k + 1 + length ts) us (omega arith) h'),
  )

module _ (P : Parser) (C : Type 0) (number_text : ℕ → String) (prefix sm_name : String)
    (states : List (FlattenedState (P.Decl) C)) where
  open P use {Decl, get_name, get_property_value}

  target_of-HasId : (d : Decl) (i : ℕ) → target_of P C states d ≡ some i → HasId i states
  target_of-HasId d i e = named (entity_name (get_property_value d "targetState")) e
    where
      found :
          (o : Option (FlattenedState Decl C)) (n : String)
          → find_state get_name states n ≡ o
          → (o >>= λ s. some s.id) ≡ some i
          → HasId i states
      found none n e' e'' = cc
      found (some s) n e' e'' =
          let same : s.id ≡ i = some-injective _ _ e'' in
          rw same at (HasId-find_state get_name states n s e')

      named :
          (o : Option String)
          → ((o >>= find_state get_name states) >>= λ s. some s.id) ≡ some i
          → HasId i states
      named none e' = cc
      named (some n) e' = found (find_state get_name states n) n refl e'

  abbrev loaded : List (Item Decl) → ℕ → List (Transition Decl C) × ℕ
  loaded = load_transitions P C number_text prefix sm_name states

  abbrev target : Item Decl → Option (Decl × ℕ)
  target = transition_target P C number_text prefix sm_name states

  target-HasId : (item : Item Decl) (r : Decl × ℕ) → target item ≡ some r → HasId r.1 states
  target-HasId item r e = declared (transition_decl_of P C item) e
    where
      resolved :
          (d : Decl) (o : Option ℕ)
          → target_of P C states d ≡ o
          → (o >>= λ i. some (d, i)) ≡ some r
          → HasId r.1 states
      resolved d none e' e'' = cc
      resolved d (some i) e' e'' =
          let same : i ≡ r.1 = ap (λ q. q.1) (some-injective _ _ e'') in
          rw same at (target_of-HasId d i e')

      declared :
          (o : Option Decl)
          → (o >>= λ d. target_of P C states d >>= λ i. some (d, i)) ≡ some r
          → HasId r.1 states
      declared none e' = cc
      declared (some d) e' = resolved d (target_of P C states d) refl e'

  load_skip :
      (item : Item Decl) (items : List (Item Decl)) (counter : ℕ)
      → target item ≡ none
      → loaded (item ∷ items) counter ≡ loaded items counter
  unfolding load_transitions
  load_skip item items counter e = rw (load_transitions, e) refl

  load_new :
      (item : Item Decl) (items : List (Item Decl)) (counter : ℕ) (r : Decl × ℕ)
      → target item ≡ some r
      → loaded (item ∷ items) counter ≡ (
        new_transition P C number_text prefix sm_name r.0 counter r.1
            ∷ (loaded items (counter + 1)).0,
        (loaded items (counter + 1)).1,
      )
  unfolding load_transitions
  load_new item items counter r e = rw (load_transitions, e) refl

  -- The transitions are numbered from `k` on up to the counter, and lead to states.
  abbrev pub Counts : ℕ → List (Transition Decl C) × ℕ → Type 0
  Counts k (ts, counter) = CountFrom k ts × (counter ≡ k + length ts) × All (LeadsTo states) ts

  load_transitions-Counts :
      (items : List (Item Decl)) (counter : ℕ) → Counts counter (loaded items counter)
  unfolding load_transitions
  load_transitions-Counts [] counter = (tt, omega arith, tt)
  load_transitions-Counts (item ∷ items) counter = elim (Option-cases (target item)) [
    | inl e ↦
        subst (Counts counter) (sym (load_skip item items counter e))
          (load_transitions-Counts items counter)
    | inr (r, e) ↦
        let (counted, ends, lead) = load_transitions-Counts items (counter + 1) in
        subst (Counts counter) (sym (load_new item items counter r e))
          ((refl, counted), omega arith, (target-HasId item r e, lead))
  ]

  abbrev pub load : List (FlattenedState Decl C) → ℕ → List (FlattenedState Decl C) × ℕ
  load = load_all P C number_text prefix sm_name states

  pub load_all-Counts :
      (ss : List (FlattenedState Decl C)) (counter : ℕ)
      → Counts counter (all_transitions (load ss counter).0, (load ss counter).1)
  unfolding load_all
  load_all-Counts [] counter = (tt, omega arith, tt)
  load_all-Counts (fs ∷ rest) counter =
      let items = list_children (get_property_value fs.state_decl "transitions") in
      let (ts, mid) = loaded items counter in
      let (mine, ends, lead) = load_transitions-Counts items counter in
      let (others, ends', lead') = load_all-Counts rest mid in
      (
        CountFrom-append counter _ _ mine (CountFrom-at mid _ _ ends others),
        omega (arith, length-append {0} ts (all_transitions (load rest mid).0)),
        All-append (LeadsTo states) ts _ lead lead',
      )

  pub load_all-Numbered :
      (k : ℕ) (ss : List (FlattenedState Decl C)) (counter : ℕ)
      → Numbered k ss
      → Numbered k (load ss counter).0
  unfolding load_all
  load_all-Numbered k [] counter h = tt
  load_all-Numbered k (fs ∷ rest) counter h = (h.0, h.1, load_all-Numbered (k + 1) rest _ h.2)

  pub HasId-load_all :
      (i : ℕ) (ss : List (FlattenedState Decl C)) (counter : ℕ)
      → HasId i ss
      → HasId i (load ss counter).0
  unfolding load_all
  HasId-load_all i [] counter h = h
  HasId-load_all i (fs ∷ rest) counter (inl e) = inl e
  HasId-load_all i (fs ∷ rest) counter (inr h) = inr (HasId-load_all i rest _ h)
