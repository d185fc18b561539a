-- ===== src/StateMachine/Step/History.antt =====
-- The history variables: what leaving states writes, and what nothing else changes.
use text.Mathlib.TextEquality.{eq_iff}
use text.Mathlib.TextPositions.{compare_refl}
use stridejit.Prelude.{
  Bool-cases, List, String, [], ap, inl, inr, pos, refl, str_eq, ℕ, ℤ, ◌++◌, ◌∙◌, ◌∷◌, ◌≡◌, ◌⊎◌,
}
use stridejit.StateMachine.{FlattenedState}
use stridejit.StateMachine.Codegen.{history_vars}
use stridejit.StateMachine.Step.{
  Vars, Bound, update, Code, run_all, run_states, note_history, exit_states,
}

-- The code of expressions changes neither the active state nor what is noted.
abbrev pub IsSteady : {C W : Type 0} → Code C W → Type 0
IsSteady {C} {W} K =
    (bound : Bound) (c : C) (v : Vars W)
    → ((K.run bound c v).active_state ≡ v.active_state) × ((K.run bound c v).history ≡ v.history)

abbrev pub HasName : String → List String → Type 0
HasName n [] = ⊥
HasName n (m ∷ ms) = (m ≡ n) ⊎ HasName n ms

-- The variables that are written when states are left.
abbrev pub all_history_vars :
    {D C : Type 0} → List (FlattenedState D C) → List (FlattenedState D C) → List String
all_history_vars states [] = []
all_history_vars states (s ∷ ss) = history_vars states s ++ all_history_vars states ss

module _ (i : ℤ) (n : String) where
  update_here : (f : String → ℤ) (m : String) → (m ≡ n) ⊎ (f n ≡ i) → update f m i n ≡ i
  update_here f m (inl e) = rw (e, compare_refl n) refl
  update_here f m (inr e) = elim (Bool-cases (str_eq m n)) [
    | inl hit ↦ rw hit refl
    | inr miss ↦ rw miss e
  ]

  update_other : (f : String → ℤ) (m : String) → ¬ (m ≡ n) → update f m i n ≡ f n
  update_other f m other = elim (Bool-cases (str_eq m n)) [
    | inl hit ↦ absurd (other ((eq_iff m n).0 hit))
    | inr miss ↦ rw miss refl
  ]

module _ {W : Type 0} (i : ℤ) (n : String) where
  note_history_here :
      (ns : List String) (v : Vars W)
      → HasName n ns ⊎ (v.history n ≡ i)
      → (note_history i ns v).history n ≡ i
  note_history_here [] v (inl h) = absurd h
  note_history_here [] v (inr h) = h
  note_history_here (m ∷ ns) v h =
      note_history_here ns (record v { history = update v.history m i }) (later h)
    where
      later : HasName n (m ∷ ns) ⊎ (v.history n ≡ i) → HasName n ns ⊎ (update v.history m i n ≡ i)
      later (inl (inl e)) = inr (update_here i n v.history m (inl e))
      later (inl (inr h')) = inl h'
      later (inr h') = inr (update_here i n v.history m (inr h'))

  note_history_other :
      (ns : List String) (v : Vars W)
      → ¬ HasName n ns
      → (note_history i ns v).history n ≡ v.history n
  note_history_other [] v h = refl
  note_history_other (m ∷ ns) v h =
      note_history_other ns (record v { history = update v.history m i }) (λ h'. h (inr h'))
      ∙ update_other i n v.history m (λ e. h (inl e))

HasName-append :
    (n : String) (ms ns : List String) → HasName n (ms ++ ns) → HasName n ms ⊎ HasName n ns
HasName-append n [] ns h = inr h
HasName-append n (m ∷ ms) ns (inl e) = inl (inl e)
HasName-append n (m ∷ ms) ns (inr h) = elim (HasName-append n ms ns h) [
  | inl l ↦ inl (inr l)
  | inr r ↦ inr r
]

HasName-append_left : (n : String) (ms ns : List String) → HasName n ms → HasName n (ms ++ ns)
HasName-append_left n [] ns h = absurd h
HasName-append_left n (m ∷ ms) ns (inl e) = inl e
HasName-append_left n (m ∷ ms) ns (inr h) = inr (HasName-append_left n ms ns h)

HasName-append_right : (n : String) (ms ns : List String) → HasName n ns → HasName n (ms ++ ns)
HasName-append_right n [] ns h = h
HasName-append_right n (m ∷ ms) ns h = inr (HasName-append_right n ms ns h)

module _ {C W : Type 0} (K : Code C W) (steady : IsSteady K) where
  pub run_all_steady :
      (bound : Bound) (cs : List C) (v : Vars W)
      → ((run_all K bound cs v).active_state ≡ v.active_state)
        × ((run_all K bound cs v).history ≡ v.history)
  run_all_steady bound [] v = (refl, refl)
  run_all_steady bound (c ∷ cs) v =
      let rest = run_all_steady bound cs (K.run bound c v) in
      let here = steady bound c v in (rest.0 ∙ here.0, rest.1 ∙ here.1)

module _ {D C W : Type 0} (K : Code C W) (steady : IsSteady K) where
  pub run_states_steady :
      (code : FlattenedState D C → List C) (bound : Bound) (ss : List (FlattenedState D C))
      (v : Vars W)
      → ((run_states K code bound ss v).active_state ≡ v.active_state)
        × ((run_states K code bound ss v).history ≡ v.history)
  run_states_steady code bound [] v = (refl, refl)
  run_states_steady code bound (s ∷ ss) v =
      let rest = run_states_steady code bound ss (run_all K bound (code s) v) in
      let here = run_all_steady K steady bound (code s) v in (rest.0 ∙ here.0, rest.1 ∙ here.1)

  module _ (states : List (FlattenedState D C)) (active : ℕ) (n : String) where
    pub exit_states_here :
        (bound : Bound) (ss : List (FlattenedState D C)) (v : Vars W)
        → HasName n (all_history_vars states ss) ⊎ (v.history n ≡ pos active)
        → (exit_states K states active bound ss v).history n ≡ pos active
    unfolding exit_states
    exit_states_here bound [] v (inl h) = absurd h
    exit_states_here bound [] v (inr h) = h
    exit_states_here bound (s ∷ ss) v h =
        exit_states_here bound ss (note_history (pos active) vars left) (later h)
      where
        vars : List String
        vars = history_vars states s

        left : Vars W
        left = run_all K bound s.on_exit_code v

        same : left.history n ≡ v.history n
        same = ap (λ f. f n) (run_all_steady K steady bound s.on_exit_code v).1

        later :
            HasName n (vars ++ all_history_vars states ss) ⊎ (v.history n ≡ pos active)
            → HasName n (all_history_vars states ss)
              ⊎ ((note_history (pos active) vars left).history n ≡ pos active)
        later (inl h') = elim (HasName-append n vars (all_history_vars states ss) h') [
          | inl l ↦ inr (note_history_here (pos active) n vars left (inl l))
          | inr r ↦ inl r
        ]
        later (inr h') = inr (note_history_here (pos active) n vars left (inr (same ∙ h')))

    pub exit_states_other :
        (bound : Bound) (ss : List (FlattenedState D C)) (v : Vars W)
        → ¬ HasName n (all_history_vars states ss)
        → (exit_states K states active bound ss v).history n ≡ v.history n
    unfolding exit_states
    exit_states_other bound [] v h = refl
    exit_states_other bound (s ∷ ss) v h =
        let vars = history_vars states s in
        let left = run_all K bound s.on_exit_code v in
        exit_states_other bound ss (note_history (pos active) vars left)
          (λ h'. h (HasName-append_right n vars (all_history_vars states ss) h'))
        ∙ note_history_other (pos active) n vars left
            (λ h'. h (HasName-append_left n vars (all_history_vars states ss) h'))
        ∙ ap (λ f. f n) (run_all_steady K steady bound s.on_exit_code v).1
