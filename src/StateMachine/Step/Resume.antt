-- ===== src/StateMachine/Step/Resume.antt =====
-- States that resume: the state that was active inside them is taken up again.
use stridejit.Prelude.{
  List, String, ap, arith, false, inl, pos, refl, some, true, ℕ, ℤ, ◌==◌, ◌∙◌, ◌≡◌, ◌≤◌,
}
use stridejit.StateMachine.{FlattenedState}
use stridejit.StateMachine.Codegen.{TransitionCode, notes_history}
use stridejit.StateMachine.Step.{
  Vars, Bound, Code, run_all, run_states, bind_generator, exit_states, or_history, final_target,
  take_target, fire,
}
use stridejit.StateMachine.Step.History.{
  IsSteady, HasName, all_history_vars, run_all_steady, run_states_steady, exit_states_here,
  exit_states_other,
}

module _ {D C W : Type 0} (K : Code C W) (steady : IsSteady K) (states : List (FlattenedState D C))
    (active : ℕ) (arg : ℤ) (bound : Bound) (code : TransitionCode D C) where
  -- The variables when the target is determined.
  after : Vars W → Vars W
  after v =
      run_all K (bind_generator code.trans arg bound) code.trans.on_transition_code
        (exit_states K states active bound code.exited_states v)

  fire_steady :
      (v : Vars W)
      → ((fire K states active arg bound code v).active_state ≡ final_target code (after v))
        × ((fire K states active arg bound code v).history
            ≡ (exit_states K states active bound code.exited_states v).history)
  unfolding fire after
  fire_steady v =
      let bound' = bind_generator code.trans arg bound in
      let moved = take_target code (after v) in
      let guards =
        run_states_steady K steady (λ s. s.update_guard_code) bound' code.target_ancestry moved in
      let updated = run_states K (λ s. s.update_guard_code) bound' code.target_ancestry moved in
      let entry =
        run_states_steady K steady (λ s. s.on_entry_code) bound' code.target_ancestry updated in
      let mine =
        run_all_steady K steady bound' code.trans.on_transition_code
          (exit_states K states active bound code.exited_states v) in
      (entry.0 ∙ guards.0, entry.1 ∙ guards.1 ∙ mine.1)

  fire-history :
      (n : String) (v : Vars W)
      → HasName n (all_history_vars states code.exited_states)
      → (fire K states active arg bound code v).history n ≡ pos active
  fire-history n v h =
      ap (λ f. f n) (fire_steady v).1
      ∙ exit_states_here K steady states active n bound code.exited_states v (inl h)

  fire-active :
      (p : FlattenedState D C) (noted : ℕ) (v : Vars W)
      → code.target_fs ≡ some p
      → notes_history p ≡ true
      → ¬ HasName p.history_state_var_name (all_history_vars states code.exited_states)
      → v.history p.history_state_var_name ≡ pos noted
      → 1 ≤ noted
      → (fire K states active arg bound code v).active_state ≡ pos noted
  unfolding after final_target
  fire-active p noted v target notes other h low =
      let left = exit_states K states active bound code.exited_states v in
      let n = p.history_state_var_name in
      let kept : (after v).history n ≡ pos noted =
        ap (λ f. f n)
          (run_all_steady K steady (bind_generator code.trans arg bound)
            code.trans.on_transition_code left).1
        ∙ exit_states_other K steady states active n bound code.exited_states v other
        ∙ h in
      let nonzero : (noted == 0) ≡ false = ground arith in
      (fire_steady v).0
      ∙ ap (λ o. or_history o code.resolved_target_id (after v)) target
      ∙ rw (notes, kept, nonzero) refl

module _ {D C W : Type 0} (K : Code C W) (steady : IsSteady K)
    (states : List (FlattenedState D C)) where
  -- A state that resumes is left by one transition, and is the target of a later one that does not
  -- leave it. Where the code of expressions changes neither the active state nor what is noted, and
  -- no other transition has written the state's history variable in between, the state that was
  -- active when it was left is active again.
  pub fire-resumes :
      (active : ℕ) (arg : ℤ) (bound : Bound) (leaves : TransitionCode D C) (v : Vars W)
      (active' : ℕ) (arg' : ℤ) (bound' : Bound) (returns : TransitionCode D C) (v' : Vars W)
      (p : FlattenedState D C)
      → 1 ≤ active
      → HasName p.history_state_var_name (all_history_vars states leaves.exited_states)
      → v'.history p.history_state_var_name
        ≡ (fire K states active arg bound leaves v).history p.history_state_var_name
      → returns.target_fs ≡ some p
      → notes_history p ≡ true
      → ¬ HasName p.history_state_var_name (all_history_vars states returns.exited_states)
      → (fire K states active' arg' bound' returns v').active_state ≡ pos active
  fire-resumes active arg bound leaves v active' arg' bound' returns v' p low left kept target notes
        other =
      fire-active K steady states active' arg' bound' returns p active v' target notes other
        (kept
          ∙ fire-history K steady states active arg bound leaves p.history_state_var_name v left)
        low
