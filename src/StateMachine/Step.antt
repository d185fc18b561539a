-- ===== src/StateMachine/Step.antt =====
-- What the code does that `StateMachineExprAST::codegen` generates, in one evaluation of a machine.
-- Every variable of the machine is taken to be allocated, as the generator does it. What the code
-- of an expression does is a parameter; it may change every variable. It is given the values that
-- generator variables are bound to in the case of the active state.
pub mod Latches
pub mod Choice
pub mod Active
pub mod Trace
pub mod Request
pub mod History
pub mod Resume
mod Examples
use stridejit.Prelude.{
  Bool, List, Option, String, [], abs_ℤ, eqb_ℤ, false, if◌then◌else◌, leb_ℤ, ltb, none, not, pos,
  some, str_eq, true, wrap_i32, ℕ, ℤ, ◌%◌, ◌&&◌, ◌-ℤ◌, ◌==◌, ◌∷◌,
}
use stridejit.StateMachine.{Transition, FlattenedState, Machine}
use stridejit.StateMachine.Codegen.{
  TransitionCode, StateCode, MachineCode, history_vars, notes_history,
}

-- The variables of a machine, and whatever else the code of expressions reads and writes.
pub record Vars (W : Type 0) : Type 0 where
  pub active_state : ℤ
  pub transition_request : ℤ
  pub transition_request_arg : ℤ
  pub is_entered : Bool
  pub history : String → ℤ
  pub latch : String → Bool
  pub world : W

-- Generator variables, the last one bound first.
abbrev pub Bound : Type 0
Bound = List (String × ℤ)

abbrev pub update : {A : Type 0} → (String → A) → String → A → String → A
update f n a n' = if str_eq n n' then a else f n'

-- `srem` is 0 exactly where the sizes divide.
abbrev pub step_matches : ℤ → ℤ → ℤ → Bool
step_matches arg start step = abs_ℤ (wrap_i32 (arg -ℤ start)) % abs_ℤ step == 0

-- `t.guardCode.back()`
abbrev pub last_code : {C : Type 0} → List C → Option C
last_code [] = none
last_code (c ∷ []) = some c
last_code (c ∷ d ∷ cs) = last_code (d ∷ cs)

module _ {D C : Type 0} where
  -- `inRange`: the 64-bit bounds are cut to 32 bits, and so is the step once it is known not to be 1.
  unfoldable pub in_range : Transition D C → ℤ → Bool
  in_range t arg =
      let start = wrap_i32 t.range_start in
      leb_ℤ start arg
      && leb_ℤ arg (wrap_i32 t.range_end)
      && (if ltb 1 (abs_ℤ t.range_step)
          then step_matches arg start (wrap_i32 t.range_step)
          else true)

  abbrev pub bind_generator : Transition D C → ℤ → Bound → Bound
  bind_generator t arg bound =
      if t.is_generator && not (str_eq t.generator_var "")
      then (t.generator_var, arg) ∷ bound
      else bound

  -- What must hold before the guard's code is looked at: the latch, or the request, and the range.
  unfoldable pub is_triggered : {W : Type 0} → Transition D C → ℤ → ℤ → Vars W → Bool
  unfolding in_range
  is_triggered t request arg v =
      (if str_eq t.trigger_latch_var_name ""
        then (if t.trigger_on_guard then true else eqb_ℤ request (pos t.id))
        else v.latch t.trigger_latch_var_name)
      && (if t.is_generator then in_range t arg else true)

-- What an expression does, and the condition that a guard has, if it has a value.
pub record Code (C W : Type 0) : Type 0 where
  pub run : Bound → C → Vars W → Vars W
  pub guard : Bound → C → Vars W → Option Bool × Vars W

-- `CreateAnd(guardVal, CondV)`, where the code has a value.
abbrev pub and_guard : {W : Type 0} → Bool → Option Bool × Vars W → Bool × Vars W
and_guard b (none, v) = (b, v)
and_guard b (some g, v) = (b && g, v)

module _ {C W : Type 0} (K : Code C W) where
  open K use {run, guard}

  abbrev pub run_all : Bound → List C → Vars W → Vars W
  run_all bound [] v = v
  run_all bound (c ∷ cs) v = run_all bound cs (run bound c v)

  abbrev pub check_guard : Bool → Bound → Option C → Vars W → Bool × Vars W
  check_guard b bound none v = (b, v)
  check_guard b bound (some c) v = and_guard b (guard bound c v)

abbrev pub note_history : {W : Type 0} → ℤ → List String → Vars W → Vars W
note_history i [] v = v
note_history i (n ∷ ns) v = note_history i ns (record v { history = update v.history n i })

abbrev pub clear_latches : {W : Type 0} → List String → Vars W → Vars W
clear_latches [] v = v
clear_latches (n ∷ ns) v = clear_latches ns (record v { latch = update v.latch n false })

-- What a target's history says, where it has one that is not 0.
abbrev pub or_history : {D C W : Type 0} → Option (FlattenedState D C) → ℕ → Vars W → ℤ
or_history none resolved v = pos resolved
or_history (some target) resolved v =
    if notes_history target && not (eqb_ℤ (v.history target.history_state_var_name) (pos 0))
    then v.history target.history_state_var_name
    else pos resolved

-- `finalTargetIdVal`
unfoldable pub final_target : {D C W : Type 0} → TransitionCode D C → Vars W → ℤ
final_target code v = or_history code.target_fs code.resolved_target_id v

abbrev pub take_target : {D C W : Type 0} → TransitionCode D C → Vars W → Vars W
take_target code v = record v {
  active_state = final_target code v;
  transition_request = pos 0;
  transition_request_arg = pos 0;
}

-- The switch on the active state.
unfoldable pub find_case : {D C : Type 0} → List (StateCode D C) → ℤ → Option (StateCode D C)
find_case [] i = none
find_case (c ∷ cs) i = let rest = find_case cs i in if eqb_ℤ i (pos c.fs.id) then some c else rest

module _ {D C W : Type 0} (K : Code C W) where
  -- The code of a kind, of each of the states.
  abbrev pub run_states :
      (FlattenedState D C → List C) → Bound → List (FlattenedState D C) → Vars W → Vars W
  run_states code bound [] v = v
  run_states code bound (s ∷ ss) v = run_states code bound ss (run_all K bound (code s) v)

  -- `guardVal`
  unfoldable pub guard_val : Transition D C → ℤ → ℤ → Bound → Vars W → Bool × Vars W
  unfolding is_triggered
  guard_val t request arg bound v =
      check_guard K (is_triggered t request arg v) bound (last_code t.guard_code) v

  -- `state_<id>_process`
  unfoldable pub process : StateCode D C → Bound → Vars W → Vars W
  process code bound v =
      run_states (λ s. s.on_process_code) bound code.children
        (run_all K bound code.fs.on_process_code v)

  module _ (states : List (FlattenedState D C)) where
    -- The loop over `exitedStates`.
    unfoldable pub exit_states : ℕ → Bound → List (FlattenedState D C) → Vars W → Vars W
    exit_states active bound [] v = v
    exit_states active bound (s ∷ ss) v =
        exit_states active bound ss
          (note_history (pos active) (history_vars states s) (run_all K bound s.on_exit_code v))

    -- `trans_<id>_fire`, in the case of a state.
    unfoldable pub fire : ℕ → ℤ → Bound → TransitionCode D C → Vars W → Vars W
    unfolding exit_states final_target
    fire active arg bound code v =
        let left = exit_states active bound code.exited_states v in
        let bound' = bind_generator code.trans arg bound in
        let moved = take_target code (run_all K bound' code.trans.on_transition_code left) in
        let updated = run_states (λ s. s.update_guard_code) bound' code.target_ancestry moved in
        run_states (λ s. s.on_entry_code) bound' code.target_ancestry updated

    -- The chain of conditions: the first transition whose guard holds is taken.
    unfoldable pub run_transitions :
        StateCode D C → ℤ → ℤ → Bound → List (TransitionCode D C) → Vars W → Vars W
    unfolding guard_val fire process
    run_transitions code request arg bound [] v = process code bound v
    run_transitions code request arg bound (c ∷ cs) v =
        let bound' = bind_generator c.trans arg bound in
        let checked = guard_val c.trans request arg bound' v in
        let otherwise = run_transitions code request arg bound' cs checked.1 in
        if checked.0 then fire code.fs.id arg bound' c checked.1 else otherwise

    -- The case of a state. The request and its argument are loaded once.
    unfoldable pub run_case : StateCode D C → Vars W → Vars W
    unfolding run_transitions
    run_case code v =
        let updated = run_states (λ s. s.update_guard_code) [] code.top_down_ancestry v in
        run_transitions code updated.transition_request updated.transition_request_arg []
          code.transition_codes updated

  unfoldable pub initial_entry : MachineCode D C → Vars W → Vars W
  initial_entry code v =
      if v.is_entered
      then v
      else record (run_states (λ s. s.on_entry_code) [] code.init_ancestry v) { is_entered = true }

  abbrev pub run_chosen : List (FlattenedState D C) → Option (StateCode D C) → Vars W → Vars W
  run_chosen states none v = v
  run_chosen states (some c) v = run_case states c v

  unfoldable pub run_active : MachineCode D C → Vars W → Vars W
  unfolding find_case run_case
  run_active code v = run_chosen code.states (find_case code.cases v.active_state) v

  unfoldable pub step : MachineCode D C → Vars W → Vars W
  unfolding initial_entry run_active
  step code v = clear_latches code.latches (run_active code (initial_entry code v))
