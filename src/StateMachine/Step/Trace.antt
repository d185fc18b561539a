-- ===== src/StateMachine/Step/Trace.antt =====
-- The order in which the code of a transition runs, as the list of what has run. Each piece of code
-- notes that it has run, and reads nothing.
use mathlib.Core.List.{append_assoc, append-nil}
use stridejit.Prelude.{
  All, Bool, List, Option, String, [], ap, pos, refl, sym, ℕ, ℤ, ◌++◌, ◌∙◌, ◌∷◌, ◌≡◌,
}
use stridejit.StateMachine.{FlattenedState, Machine}
use stridejit.StateMachine.Ast.{Parser}
use stridejit.StateMachine.Codegen.{TransitionCode, StateCode, history_vars}
use stridejit.StateMachine.Codegen.Order.{IsOrdered}
use stridejit.StateMachine.Step.{
  Vars, Bound, update, Code, run_all, run_states, note_history, bind_generator, exit_states,
  take_target, fire,
}

-- Code that does nothing but note that it has run.
abbrev pub tracer : {C : Type 0} → (C → Option Bool) → Code C (List C)
tracer value = record {
  run = λ bound c v. record v { world = v.world ++ c ∷ [] };
  guard = λ bound c v. (value c, v);
}

-- The code of a kind, of each of the states.
abbrev pub codes_of :
    {D C : Type 0} → (FlattenedState D C → List C) → List (FlattenedState D C) → List C
codes_of code [] = []
codes_of code (s ∷ ss) = code s ++ codes_of code ss

note_history-world :
    {W : Type 0} (i : ℤ) (ns : List String) (v : Vars W) → (note_history i ns v).world ≡ v.world
note_history-world i [] v = refl
note_history-world i (n ∷ ns) v =
    note_history-world i ns (record v { history = update v.history n i })

module _ {C : Type 0} (value : C → Option Bool) where
  run_all-world :
      (bound : Bound) (cs : List C) (v : Vars (List C))
      → (run_all (tracer value) bound cs v).world ≡ v.world ++ cs
  run_all-world bound [] v = sym (append-nil v.world)
  run_all-world bound (c ∷ cs) v =
      run_all-world bound cs (record v { world = v.world ++ c ∷ [] })
      ∙ append_assoc v.world (c ∷ []) cs

module _ {D C : Type 0} (value : C → Option Bool) where
  run_states-world :
      (code : FlattenedState D C → List C) (bound : Bound) (ss : List (FlattenedState D C))
      (v : Vars (List C))
      → (run_states (tracer value) code bound ss v).world ≡ v.world ++ codes_of code ss
  run_states-world code bound [] v = sym (append-nil v.world)
  run_states-world code bound (s ∷ ss) v =
      run_states-world code bound ss (run_all (tracer value) bound (code s) v)
      ∙ ap (λ w. w ++ codes_of code ss) (run_all-world value bound (code s) v)
      ∙ append_assoc v.world (code s) (codes_of code ss)

  exit_states-world :
      (states : List (FlattenedState D C)) (active : ℕ) (bound : Bound)
      (ss : List (FlattenedState D C)) (v : Vars (List C))
      → (exit_states (tracer value) states active bound ss v).world
        ≡ v.world ++ codes_of (λ s. s.on_exit_code) ss
  unfolding exit_states
  exit_states-world states active bound [] v = sym (append-nil v.world)
  exit_states-world states active bound (s ∷ ss) v =
      let left = run_all (tracer value) bound s.on_exit_code v in
      let rest = codes_of (λ s'. s'.on_exit_code) ss in
      exit_states-world states active bound ss
        (note_history (pos active) (history_vars states s) left)
      ∙ ap (λ w. w ++ rest)
          (note_history-world (pos active) (history_vars states s) left
            ∙ run_all-world value bound s.on_exit_code v)
      ∙ append_assoc v.world s.on_exit_code rest

  -- Firing runs, in this order: the exit code of the states that are left, the transition's own code,
  -- and the guard updates and then the entry code of the states that are entered.
  pub fire-world :
      (states : List (FlattenedState D C)) (active : ℕ) (arg : ℤ) (bound : Bound)
      (code : TransitionCode D C) (v : Vars (List C))
      → (fire (tracer value) states active arg bound code v).world
        ≡ v.world
          ++ codes_of (λ s. s.on_exit_code) code.exited_states
          ++ code.trans.on_transition_code
          ++ codes_of (λ s. s.update_guard_code) code.target_ancestry
          ++ codes_of (λ s. s.on_entry_code) code.target_ancestry
  unfolding fire
  fire-world states active arg bound code v =
      let K = tracer value in
      let bound' = bind_generator code.trans arg bound in
      let left = exit_states K states active bound code.exited_states v in
      let after = run_all K bound' code.trans.on_transition_code left in
      let updated =
        run_states K (λ s. s.update_guard_code) bound' code.target_ancestry
          (take_target code after) in
      let exit = codes_of (λ s. s.on_exit_code) code.exited_states in
      let mine = code.trans.on_transition_code in
      let guards = codes_of (λ s. s.update_guard_code) code.target_ancestry in
      let entry = codes_of (λ s. s.on_entry_code) code.target_ancestry in
      run_states-world (λ s. s.on_entry_code) bound' code.target_ancestry updated
      ∙ ap (λ w. w ++ entry)
          (run_states-world (λ s. s.update_guard_code) bound' code.target_ancestry
              (take_target code after)
            ∙ ap (λ w. w ++ guards)
                (run_all-world value bound' mine left
                  ∙ ap (λ w. w ++ mine)
                      (exit_states-world states active bound code.exited_states v)))
      ∙ simp append_assoc

module _ (P : Parser) (C : Type 0) (m : Machine (P.Decl) C) (value : C → Option Bool) (arg : ℤ)
    (bound : Bound) (v : Vars (List C)) where
  abbrev fired : ℕ → TransitionCode (P.Decl) C → Vars (List C)
  fired active t = fire (tracer value) m.flattened_states active arg bound t v

  -- What the code of a transition runs in the case of a state, and in which order its states stand.
  abbrev pub FiresInOrder : ℕ → TransitionCode (P.Decl) C → Type 0
  FiresInOrder active t =
      IsOrdered P C m.flattened_states active t
      × ((fired active t).world
          ≡ v.world
            ++ codes_of (λ s. s.on_exit_code) t.exited_states
            ++ t.trans.on_transition_code
            ++ codes_of (λ s. s.update_guard_code) t.target_ancestry
            ++ codes_of (λ s. s.on_entry_code) t.target_ancestry)

  -- All transitions of all cases of the generated code do so.
  abbrev pub CasesFireInOrder : List (StateCode (P.Decl) C) → Type 0
  CasesFireInOrder [] = Unit
  CasesFireInOrder (c ∷ cs) = All (FiresInOrder c.fs.id) c.transition_codes × CasesFireInOrder cs
