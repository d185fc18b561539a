-- ===== src/StateMachine/Step/Choice.antt =====
-- Which transition an evaluation takes.
use mathlib.Core.Path.{subst}
use stridejit.Prelude.{
  Bool, Bool-cases, List, Option, [], ap, false, inl, inr, none, refl, some, sym, true, ℤ, ◌++◌,
  ◌∙◌, ◌∷◌, ◌≡◌, ◌⊎◌,
}
use stridejit.StateMachine.{Transition, FlattenedState}
use stridejit.StateMachine.Codegen.{TransitionCode, StateCode}
use stridejit.StateMachine.Step.{
  Vars, Bound, Code, and_guard, check_guard, is_triggered, last_code, run_states, bind_generator,
  guard_val, fire, process, run_transitions, run_case,
}

-- Evaluating a guard changes no variable.
abbrev pub IsPure : {C W : Type 0} → Code C W → Type 0
IsPure {C} {W} K = (bound : Bound) (c : C) (v : Vars W) → (K.guard bound c v).1 ≡ v

and_guard_keep : {W : Type 0} (b : Bool) (o : Option Bool) (v : Vars W) → (and_guard b (o, v)).1 ≡ v
and_guard_keep b none v = refl
and_guard_keep b (some g) v = refl

check_guard_keep :
    {C W : Type 0} (K : Code C W) (b : Bool) (bound : Bound) (o : Option C) (v : Vars W)
    → IsPure K
    → (check_guard K b bound o v).1 ≡ v
check_guard_keep K b bound none v h = refl
check_guard_keep K b bound (some c) v h =
    let (o, v') = K.guard bound c v in and_guard_keep b o v' ∙ h bound c v

module _ {D C W : Type 0} (K : Code C W) (request arg : ℤ) (v : Vars W) where
  -- The condition of a transition, with the generator variable that it binds.
  abbrev pub Holds : Bool → Bound → TransitionCode D C → Type 0
  Holds b bound c = (guard_val K c.trans request arg (bind_generator c.trans arg bound) v).0 ≡ b

  -- No condition of the transitions holds, where each has bound its variable for the next.
  abbrev pub Blocked : Bound → List (TransitionCode D C) → Type 0
  Blocked bound [] = Unit
  Blocked bound (c ∷ cs) = Holds false bound c × Blocked (bind_generator c.trans arg bound) cs

abbrev pub bind_all : {D C : Type 0} → ℤ → Bound → List (TransitionCode D C) → Bound
bind_all arg bound [] = bound
bind_all arg bound (c ∷ cs) = bind_all arg (bind_generator c.trans arg bound) cs

module _ {D C W : Type 0} (K : Code C W) (pure : IsPure K) where
  guard_val_keep :
      (t : Transition D C) (request arg : ℤ) (bound : Bound) (v : Vars W)
      → (guard_val K t request arg bound v).1 ≡ v
  unfolding guard_val
  guard_val_keep t request arg bound v =
      check_guard_keep K (is_triggered t request arg v) bound (last_code t.guard_code) v pure

  module _ (states : List (FlattenedState D C)) (code : StateCode D C) (request arg : ℤ)
      (v : Vars W) where
    abbrev run_chain : Bound → List (TransitionCode D C) → Vars W
    run_chain bound cs = run_transitions K states code request arg bound cs v

    -- Every condition fails and the state's process code runs, or the first transition whose
    -- condition holds is taken.
    abbrev pub IsFirst : Bound → List (TransitionCode D C) → Vars W → Type 0
    IsFirst bound cs v' =
        (Blocked K request arg v bound cs × (v' ≡ process K code (bind_all arg bound cs) v))
        ⊎ ((before : List (TransitionCode D C)) × (c : TransitionCode D C) × (after : List
              (TransitionCode D C))
            × (cs ≡ before ++ c ∷ after)
            × Blocked K request arg v bound before
            × Holds K request arg v true (bind_all arg bound before) c
            × (v'
                ≡ fire K states code.fs.id arg
                    (bind_generator c.trans arg (bind_all arg bound before)) c v))

    run : Bound → List (TransitionCode D C) → Vars W
    run bound cs = run_transitions K states code request arg bound cs v

    run_here :
        (bound : Bound) (c : TransitionCode D C) (cs : List (TransitionCode D C))
        → Holds K request arg v true bound c
        → run_chain bound (c ∷ cs)
          ≡ fire K states code.fs.id arg (bind_generator c.trans arg bound) c v
    unfolding run_transitions
    run_here bound c cs h =
        rw
          (
            run_transitions,
            h,
            guard_val_keep c.trans request arg (bind_generator c.trans arg bound) v,
          )
          refl

    run_later :
        (bound : Bound) (c : TransitionCode D C) (cs : List (TransitionCode D C))
        → Holds K request arg v false bound c
        → run_chain bound (c ∷ cs) ≡ run_chain (bind_generator c.trans arg bound) cs
    unfolding run_transitions
    run_later bound c cs h =
        rw
          (
            run_transitions,
            h,
            guard_val_keep c.trans request arg (bind_generator c.trans arg bound) v,
          )
          refl

    IsFirst-cons :
        (bound : Bound) (c : TransitionCode D C) (cs : List (TransitionCode D C)) (v' : Vars W)
        → Holds K request arg v false bound c
        → IsFirst (bind_generator c.trans arg bound) cs v'
        → IsFirst bound (c ∷ cs) v'
    IsFirst-cons bound c cs v' h (inl (blocked, e)) = inl ((h, blocked), e)
    IsFirst-cons bound c cs v' h (inr (before, d, after, split, blocked, holds, e)) =
        inr (c ∷ before, d, after, ap (λ ds. c ∷ ds) split, (h, blocked), holds, e)

    run_chain-IsFirst :
        (bound : Bound) (cs : List (TransitionCode D C)) → IsFirst bound cs (run_chain bound cs)
    unfolding run_transitions
    run_chain-IsFirst bound [] = inl (tt, refl)
    run_chain-IsFirst bound (c ∷ cs) =
        elim (Bool-cases (guard_val K c.trans request arg (bind_generator c.trans arg bound) v).0) [
          | inl h ↦ inr ([], c, cs, refl, tt, h, run_here bound c cs h)
          | inr h ↦ subst (IsFirst bound (c ∷ cs)) (sym (run_later bound c cs h)) (
              IsFirst-cons bound c cs _ h (run_chain-IsFirst (bind_generator c.trans arg bound) cs))
        ]

  -- The case of a state first updates the guards of the states on its path. Where evaluating a guard
  -- changes no variable, then either no condition holds and the state's process code runs, or the
  -- first transition in order whose condition holds is taken, and no other.
  pub run_case-IsFirst :
      (states : List (FlattenedState D C)) (code : StateCode D C) (v : Vars W)
      → let updated = run_states K (λ s. s.update_guard_code) [] code.top_down_ancestry v in
        IsFirst states code updated.transition_request updated.transition_request_arg updated []
          code.transition_codes
          (run_case K states code v)
  unfolding run_case
  run_case-IsFirst states code v =
      let updated = run_states K (λ s. s.update_guard_code) [] code.top_down_ancestry v in
      run_chain-IsFirst states code updated.transition_request updated.transition_request_arg
        updated [] code.transition_codes
