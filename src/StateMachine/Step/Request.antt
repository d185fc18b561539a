-- ===== src/StateMachine/Step/Request.antt =====
-- Requests for a transition: a request is used up, and without one nothing that waits for it fires.
use mathlib.Core.Path.{subst}
use stridejit.Prelude.{
  All, Bool, List, Option, [], arith, eqb_ℤ, false, none, pos, refl, some, str_eq, sym, true, ℕ, ℤ,
  ◌+◌, ◌==◌, ◌∙◌, ◌∷◌, ◌≡◌, ◌≤◌,
}
use stridejit.StateMachine.{Transition, FlattenedState, Machine}
use stridejit.StateMachine.Process.Targets.{CountFrom, all_transitions}
use stridejit.StateMachine.Process.Result.{IsMachine}
use stridejit.StateMachine.Codegen.{TransitionCode}
use stridejit.StateMachine.Step.{
  Vars, Bound, Code, and_guard, check_guard, is_triggered, last_code, guard_val, run_all,
  run_states, bind_generator, exit_states, take_target, fire,
}

-- A transition that only a request triggers.
abbrev pub WaitsForRequest : {D C : Type 0} → Transition D C → Type 0
WaitsForRequest t = (str_eq t.trigger_latch_var_name "" ≡ true) × (t.trigger_on_guard ≡ false)

and_guard-false : {W : Type 0} (r : Option Bool × Vars W) → (and_guard false r).0 ≡ false
and_guard-false (none, v) = refl
and_guard-false (some b, v) = refl

check_guard-false :
    {C W : Type 0} (K : Code C W) (bound : Bound) (o : Option C) (v : Vars W)
    → (check_guard K false bound o v).0 ≡ false
check_guard-false K bound none v = refl
check_guard-false K bound (some c) v = and_guard-false (K.guard bound c v)

module _ {D C W : Type 0} (K : Code C W) (arg : ℤ) (v : Vars W) where
  -- The condition of a transition that waits for a request fails where another one is requested.
  other-request :
      (t : Transition D C) (request : ℤ) (bound : Bound)
      → WaitsForRequest t
      → eqb_ℤ request (pos t.id) ≡ false
      → (guard_val K t request arg bound v).0 ≡ false
  unfolding guard_val is_triggered
  other-request t request bound (no_latch, waits) other =
      rw (no_latch, waits, other) (check_guard-false K bound (last_code t.guard_code) v)

-- The code of expressions requests no transition.
abbrev pub IsQuiet : {C W : Type 0} → Code C W → Type 0
IsQuiet {C} {W} K =
    (bound : Bound) (c : C) (v : Vars W)
    → (K.run bound c v).transition_request ≡ v.transition_request

run_all_quiet :
    {C W : Type 0} (K : Code C W) (bound : Bound) (cs : List C) (v : Vars W)
    → IsQuiet K
    → (run_all K bound cs v).transition_request ≡ v.transition_request
run_all_quiet K bound [] v quiet = refl
run_all_quiet K bound (c ∷ cs) v quiet =
    run_all_quiet K bound cs (K.run bound c v) quiet ∙ quiet bound c v

module _ {D C W : Type 0} (K : Code C W) where
  run_states_quiet :
      (code : FlattenedState D C → List C) (bound : Bound) (ss : List (FlattenedState D C))
      (v : Vars W)
      → IsQuiet K
      → (run_states K code bound ss v).transition_request ≡ v.transition_request
  run_states_quiet code bound [] v quiet = refl
  run_states_quiet code bound (s ∷ ss) v quiet =
      run_states_quiet code bound ss (run_all K bound (code s) v) quiet
      ∙ run_all_quiet K bound (code s) v quiet

  fire_used :
      (states : List (FlattenedState D C)) (active : ℕ) (arg : ℤ) (bound : Bound)
      (code : TransitionCode D C) (v : Vars W)
      → IsQuiet K
      → (fire K states active arg bound code v).transition_request ≡ pos 0
  unfolding fire
  fire_used states active arg bound code v quiet =
      let bound' = bind_generator code.trans arg bound in
      let left = exit_states K states active bound code.exited_states v in
      let moved = take_target code (run_all K bound' code.trans.on_transition_code left) in
      let updated = run_states K (λ s. s.update_guard_code) bound' code.target_ancestry moved in
      run_states_quiet (λ s. s.on_entry_code) bound' code.target_ancestry updated quiet
      ∙ run_states_quiet (λ s. s.update_guard_code) bound' code.target_ancestry moved quiet

  -- The condition of the transition fails, where it waits for a request.
  abbrev pub FailsWaiting : ℤ → ℤ → Bound → Vars W → Transition D C → Type 0
  FailsWaiting request arg bound v t =
      WaitsForRequest t → (guard_val K t request arg bound v).0 ≡ false

  none_waiting :
      (arg : ℤ) (bound : Bound) (v : Vars W) (k : ℕ) (ts : List (Transition D C))
      → 1 ≤ k
      → CountFrom k ts
      → All (FailsWaiting (pos 0) arg bound v) ts
  none_waiting arg bound v k [] low h = tt
  none_waiting arg bound v k (t ∷ ts) low (e, h) =
      let other : (0 == t.id) ≡ false = ground arith in
      (
        λ waits. other-request K arg v t (pos 0) bound waits other,
        none_waiting arg bound v (k + 1) ts (omega arith) h,
      )

  -- A transition uses up the request: where the code of expressions requests none, no condition
  -- of a transition of the machine that waits for a request holds with the request that is left
  -- after any transition was taken, whatever the other variables hold.
  pub fire-FailsWaiting :
      (m : Machine D C) (active : ℕ) (arg : ℤ) (bound : Bound) (code : TransitionCode D C)
      (v : Vars W) (arg' : ℤ) (bound' : Bound) (v' : Vars W)
      → IsMachine m
      → IsQuiet K
      → let fired = fire K m.flattened_states active arg bound code v in
        All
          (FailsWaiting fired.transition_request arg' bound' v')
          (all_transitions m.flattened_states)
  fire-FailsWaiting m active arg bound code v arg' bound' v' good quiet =
      subst (λ r. All (FailsWaiting r arg' bound' v') (all_transitions m.flattened_states))
        (sym (fire_used m.flattened_states active arg bound code v quiet))
        (none_waiting arg' bound' v' 1 (all_transitions m.flattened_states) (omega arith) good.1)
