-- ===== src/StateMachine/Step/Examples.antt =====
-- Evaluations of the machine of two states.
use stridejit.Prelude.{All, List, [], arith, inl, inr, pos, refl, some, true, ℕ, ◌∷◌, ◌≡◌}
use stridejit.StateMachine.{Transition, FlattenedState, Machine}
use stridejit.StateMachine.Sample.{
  parser, root_state, state_a, state_b, sample_states, machine, machine_code, go_b_code, go_a_code,
  a_case, vars,
}
use stridejit.StateMachine.Process.Leaf.{HasId}
use stridejit.StateMachine.Process.Targets.{all_transitions}
use stridejit.StateMachine.Process.Result.{IsMachine}
use stridejit.StateMachine.Codegen.{ancestors, codegen}
use stridejit.StateMachine.Codegen.Total.{IsPath, IsMachineCode}
use stridejit.StateMachine.Step.{Code, step, run_case, fire}
use stridejit.StateMachine.Step.Choice.{IsFirst, run_case-IsFirst}
use stridejit.StateMachine.Step.Active.{IsValid, step-IsValid}
use stridejit.StateMachine.Step.Trace.{tracer, fire-world}
use stridejit.StateMachine.Step.Request.{FailsWaiting, fire-FailsWaiting}
use stridejit.StateMachine.Step.Resume.{fire-resumes}

machine-IsMachine : IsMachine machine
machine-IsMachine = (
  (refl, refl, (refl, (omega arith, omega arith), (refl, (omega arith, omega arith), tt))),
  (refl, (refl, tt)),
  (inr (inr (inl refl)), (inr (inl refl), tt)),
  inr (inl refl),
)

abbrev code : Code ℕ (List ℕ)
code = tracer (λ c. some true)

codegen-machine : codegen parser ℕ machine ≡ some machine_code
unfolding codegen stridejit.StateMachine.state_with_id stridejit.StateMachine.find_state
codegen-machine = refl

root-IsPath : IsPath 1 (root_state ∷ [])
root-IsPath = (root_state ∷ [], refl, (refl, refl))

a-IsPath : IsPath 2 (root_state ∷ state_a ∷ [])
a-IsPath = (state_a ∷ root_state ∷ [], refl, (refl, (refl, refl)))

b-IsPath : IsPath 3 (root_state ∷ state_b ∷ [])
b-IsPath = (state_b ∷ root_state ∷ [], refl, (refl, (refl, refl)))

machine_code-IsMachineCode : IsMachineCode machine machine_code
unfolding stridejit.StateMachine.Codegen.applicable_transitions
machine_code-IsMachineCode =
    let has_a : HasId 2 sample_states = inr (inl refl) in
    let has_b : HasId 3 sample_states = inr (inr (inl refl)) in
    (
      refl,
      refl,
      a-IsPath,
      refl,
      (
        (inl refl, root-IsPath, refl, tt),
        (
          (has_a, a-IsPath, refl, ((has_b, b-IsPath), tt)),
          ((has_b, b-IsPath, refl, ((has_a, a-IsPath), tt)), tt),
        ),
      ),
    )

run_case-IsFirst_example :
    IsFirst code
      (λ bound c v. refl)
      sample_states
      a_case
      (pos 1)
      (pos 0)
      vars
      []
      (go_b_code ∷ [])
      (run_case code sample_states a_case vars)
run_case-IsFirst_example = run_case-IsFirst code (λ bound c v. refl) sample_states a_case vars

-- The requested transition is taken: its code and the codes of the states run in order.
step_taken : (step code machine_code vars).world ≡ 22 ∷ 101 ∷ 11 ∷ 31 ∷ []
unfolding step stridejit.StateMachine.Codegen.up_to_owner
step_taken = refl

vars-IsValid : IsValid sample_states vars
vars-IsValid = (inr (inl refl), λ n. inl refl)

step-IsValid_example : IsValid sample_states (step code machine_code vars)
step-IsValid_example =
    step-IsValid code machine machine_code vars machine_code-IsMachineCode (λ bound c v h. (h, h))
      vars-IsValid

-- Leaving A for B, of which the exit code is 22 and the entry code 31.
go_b_runs : (fire code sample_states 2 (pos 0) [] go_b_code vars).world ≡ 22 ∷ 101 ∷ 11 ∷ 31 ∷ []
unfolding stridejit.StateMachine.Codegen.up_to_owner
go_b_runs = fire-world (λ c. some true) sample_states 2 (pos 0) [] go_b_code vars

fire-FailsWaiting_example :
    All
      (FailsWaiting code
        (fire code sample_states 2 (pos 0) [] go_b_code vars).transition_request
        (pos 0)
        []
        vars)
      (all_transitions sample_states)
fire-FailsWaiting_example =
    fire-FailsWaiting code machine 2 (pos 0) [] go_b_code vars (pos 0) [] vars machine-IsMachine
      (λ bound c v. refl)

fire-resumes_example :
    let left = fire code sample_states 3 (pos 0) [] go_a_code vars in
    (fire code sample_states 2 (pos 0) [] go_b_code left).active_state ≡ pos 3
unfolding stridejit.StateMachine.Codegen.up_to_owner stridejit.StateMachine.state_with_id
fire-resumes_example =
    fire-resumes code (λ bound c v. (refl, refl)) sample_states 3 (pos 0) [] go_a_code vars 2
      (pos 0) [] go_b_code (fire code sample_states 3 (pos 0) [] go_a_code vars) state_b
      (omega arith) (inl refl) refl refl refl (λ h. h)
