-- ===== src/StateMachine/Step/Active.antt =====
-- The active state is always a state of the machine.
use mathlib.Core.Bool.{true≢false}
use stridejit.Prelude.{
  All, Bool, Bool-cases, List, Option, String, [], ap, arith, eqb_ℤ, false, if◌then◌else◌, inl, inr,
  negsuc, none, not, pos, some, str_eq, sym, true, ℕ, ℤ, ◌&&◌, ◌∙◌, ◌∷◌, ◌≡◌, ◌⊎◌,
}
use stridejit.StateMachine.{FlattenedState, Machine}
use stridejit.StateMachine.Process.Leaf.{HasId}
use stridejit.StateMachine.Codegen.{
  TransitionCode, StateCode, MachineCode, history_vars, notes_history,
}
use stridejit.StateMachine.Codegen.Total.{IsMachineCode, IsStateCode, IsTransitionCode}
use stridejit.StateMachine.Step.{
  Vars, Bound, update, Code, run_all, run_states, and_guard, check_guard, guard_val, is_triggered,
  last_code, note_history, clear_latches, bind_generator, exit_states, or_history, final_target,
  take_target, fire, process, run_transitions, run_case, find_case, initial_entry, run_chosen,
  run_active, step,
}

either : {A : Type 0} (Q : A → Type 0) (b : Bool) (x y : A) → Q x → Q y → Q (if b then x else y)
either Q true x y h k = h
either Q false x y h k = k

abbrev OnSome : {A : Type 0} → (A → Type 0) → Option A → Type 0
OnSome Q none = Unit
OnSome Q (some a) = Q a

find_case-OnSome :
    {D C : Type 0} (Q : StateCode D C → Type 0) (cases : List (StateCode D C)) (i : ℤ)
    → All Q cases
    → OnSome Q (find_case cases i)
unfolding find_case
find_case-OnSome Q [] i h = tt
find_case-OnSome Q (c ∷ cs) i h =
    either (OnSome Q) (eqb_ℤ i (pos c.fs.id)) (some c) (find_case cs i) h.0
      (find_case-OnSome Q cs i h.1)

module _ {D C : Type 0} (states : List (FlattenedState D C)) where
  abbrev pub IsActive : ℤ → Type 0
  IsActive (pos i) = HasId i states
  IsActive (negsuc m) = ⊥

  -- A history variable holds 0 or the id of a state.
  abbrev pub IsNoted : ℤ → Type 0
  IsNoted i = (i ≡ pos 0) ⊎ IsActive i

  -- The active state is a state, and so is each state that is noted.
  abbrev pub IsValid : {W : Type 0} → Vars W → Type 0
  IsValid v = IsActive v.active_state × ((n : String) → IsNoted (v.history n))

  -- The code of expressions keeps the variables valid.
  abbrev pub KeepsValid : {W : Type 0} → Code C W → Type 0
  KeepsValid {W} K =
      (bound : Bound) (c : C) (v : Vars W)
      → IsValid v
      → IsValid (K.run bound c v) × IsValid (K.guard bound c v).1

  IsNoted-IsActive : (i : ℤ) → eqb_ℤ i (pos 0) ≡ false → IsNoted i → IsActive i
  IsNoted-IsActive i e (inl zero_id) =
      absurd (true≢false (sym (ap (λ j. eqb_ℤ j (pos 0)) zero_id) ∙ e))
  IsNoted-IsActive i e (inr h) = h

  or_history-IsActive :
      {W : Type 0} (o : Option (FlattenedState D C)) (resolved : ℕ) (v : Vars W)
      → HasId resolved states
      → IsValid v
      → IsActive (or_history o resolved v)
  or_history-IsActive none resolved v h valid = h
  or_history-IsActive (some target) resolved v h valid =
      elim (Bool-cases
        (notes_history target && not (eqb_ℤ (v.history target.history_state_var_name) (pos 0)))) [
          | inl e ↦ rw e (
              IsNoted-IsActive (v.history target.history_state_var_name) (ground arith)
                (valid.1 target.history_state_var_name))
          | inr e ↦ rw e h
        ]

  final_target-IsActive :
      {W : Type 0} (code : TransitionCode D C) (v : Vars W)
      → IsTransitionCode states code
      → IsValid v
      → IsActive (final_target code v)
  unfolding final_target
  final_target-IsActive code v good =
      or_history-IsActive code.target_fs code.resolved_target_id v good.0

  module _ {W : Type 0} (K : Code C W) (keeps : KeepsValid K) where
    run_all-IsValid :
        (bound : Bound) (cs : List C) (v : Vars W) → IsValid v → IsValid (run_all K bound cs v)
    run_all-IsValid bound [] v h = h
    run_all-IsValid bound (c ∷ cs) v h =
        run_all-IsValid bound cs (K.run bound c v) (keeps bound c v h).0

    run_states-IsValid :
        (code : FlattenedState D C → List C) (bound : Bound) (ss : List (FlattenedState D C))
        (v : Vars W)
        → IsValid v
        → IsValid (run_states K code bound ss v)
    run_states-IsValid code bound [] v h = h
    run_states-IsValid code bound (s ∷ ss) v h =
        run_states-IsValid code bound ss (run_all K bound (code s) v)
          (run_all-IsValid bound (code s) v h)

    update-IsNoted :
        (f : String → ℤ) (n : String) (i : ℤ) (n' : String)
        → IsActive i
        → IsNoted (f n')
        → IsNoted (update f n i n')
    update-IsNoted f n i n' h h' = either IsNoted (str_eq n n') i (f n') (inr h) h'

    note_history-IsValid :
        (i : ℤ) (ns : List String) (v : Vars W)
        → IsActive i
        → IsValid v
        → IsValid (note_history i ns v)
    note_history-IsValid i [] v a h = h
    note_history-IsValid i (n ∷ ns) v a h =
        note_history-IsValid i ns (record v { history = update v.history n i }) a
          (h.0, λ n'. update-IsNoted v.history n i n' a (h.1 n'))

    exit_states-IsValid :
        (active : ℕ) (bound : Bound) (ss : List (FlattenedState D C)) (v : Vars W)
        → HasId active states
        → IsValid v
        → IsValid (exit_states K states active bound ss v)
    unfolding exit_states
    exit_states-IsValid active bound [] v a h = h
    exit_states-IsValid active bound (s ∷ ss) v a h = exit_states-IsValid active bound ss _ a (
        note_history-IsValid (pos active) (history_vars states s) (run_all K bound s.on_exit_code v)
          a (run_all-IsValid bound s.on_exit_code v h))

    fire-IsValid :
        (active : ℕ) (arg : ℤ) (bound : Bound) (code : TransitionCode D C) (v : Vars W)
        → HasId active states
        → IsTransitionCode states code
        → IsValid v
        → IsValid (fire K states active arg bound code v)
    unfolding fire
    fire-IsValid active arg bound code v a good h =
        let left = exit_states-IsValid active bound code.exited_states v a h in
        let bound' = bind_generator code.trans arg bound in
        let moved = run_all-IsValid bound' code.trans.on_transition_code _ left in
        let after =
          run_all K bound' code.trans.on_transition_code
            (exit_states K states active bound code.exited_states v) in
        run_states-IsValid (λ s. s.on_entry_code) bound' code.target_ancestry _
          (run_states-IsValid (λ s. s.update_guard_code) bound' code.target_ancestry
            (take_target code after) (final_target-IsActive code after good moved, moved.1))

    check_guard-IsValid :
        (b : Bool) (bound : Bound) (o : Option C) (v : Vars W)
        → IsValid v
        → IsValid (check_guard K b bound o v).1
    check_guard-IsValid b bound none v h = h
    check_guard-IsValid b bound (some c) v h = chosen (K.guard bound c v) (keeps bound c v h).1
      where
        chosen : (r : Option Bool × Vars W) → IsValid r.1 → IsValid (and_guard b r).1
        chosen (none, v') h' = h'
        chosen (some g, v') h' = h'

    run_transitions-IsValid :
        (code : StateCode D C) (request arg : ℤ) (bound : Bound) (cs : List (TransitionCode D C))
        (v : Vars W)
        → HasId code.fs.id states
        → All (IsTransitionCode states) cs
        → IsValid v
        → IsValid (run_transitions K states code request arg bound cs v)
    unfolding run_transitions process guard_val
    run_transitions-IsValid code request arg bound [] v a good h =
        run_states-IsValid (λ s. s.on_process_code) bound code.children _
          (run_all-IsValid bound code.fs.on_process_code v h)
    run_transitions-IsValid code request arg bound (c ∷ cs) v a good h =
        let bound' = bind_generator c.trans arg bound in
        let checked =
          check_guard-IsValid (is_triggered c.trans request arg v) bound'
            (last_code c.trans.guard_code) v h in
        either IsValid (guard_val K c.trans request arg bound' v).0 _ _
          (fire-IsValid code.fs.id arg bound' c _ a good.0 checked)
          (run_transitions-IsValid code request arg bound' cs _ a good.1 checked)

    run_case-IsValid :
        (code : StateCode D C) (v : Vars W)
        → IsStateCode states code
        → IsValid v
        → IsValid (run_case K states code v)
    unfolding run_case
    run_case-IsValid code v good h =
        run_transitions-IsValid code _ _ [] code.transition_codes _ good.0 good.3
          (run_states-IsValid (λ s. s.update_guard_code) [] code.top_down_ancestry v h)

    run_chosen-IsValid :
        (o : Option (StateCode D C)) (v : Vars W)
        → OnSome (IsStateCode states) o
        → IsValid v
        → IsValid (run_chosen K states o v)
    run_chosen-IsValid none v good h = h
    run_chosen-IsValid (some c) v good h = run_case-IsValid c v good h

    clear_latches-IsValid :
        (ns : List String) (v : Vars W) → IsValid v → IsValid (clear_latches ns v)
    clear_latches-IsValid [] v h = h
    clear_latches-IsValid (n ∷ ns) v h =
        clear_latches-IsValid ns (record v { latch = update v.latch n false }) h

    initial_entry-IsValid :
        (code : MachineCode D C) (v : Vars W) → IsValid v → IsValid (initial_entry K code v)
    unfolding initial_entry
    initial_entry-IsValid code v h =
        either IsValid v.is_entered _ _ h
          (run_states-IsValid (λ s. s.on_entry_code) [] code.init_ancestry v h)

-- Where the active state is a state of the machine and each history variable holds 0 or the id of a
-- state, and the code of expressions keeps this so, an evaluation keeps it so.
pub step-IsValid :
    {D C W : Type 0} (K : Code C W) (m : Machine D C) (code : MachineCode D C) (v : Vars W)
    → IsMachineCode m code
    → KeepsValid m.flattened_states K
    → IsValid m.flattened_states v
    → IsValid m.flattened_states (step K code v)
unfolding step run_active
step-IsValid K m code v good keeps h =
    let states = m.flattened_states in
    let entered = initial_entry-IsValid states K keeps code v h in
    let chosen =
      find_case-OnSome (IsStateCode states) code.cases (initial_entry K code v).active_state
        good.4 in
    clear_latches-IsValid states K keeps code.latches (run_active K code (initial_entry K code v)) (
      rw good.0 (
        run_chosen-IsValid states K keeps
          (find_case code.cases (initial_entry K code v).active_state) (initial_entry K code v)
          chosen entered))
