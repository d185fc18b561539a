-- ===== src/StateMachine/Step/Latches.antt =====
-- The latches of triggers at the end of an evaluation.
use mathlib.Core.Path.{subst}
use text.Mathlib.TextPositions.{compare_refl}
use stridejit.Prelude.{
  All, All-append, Bool, Bool-cases, List, String, [], arith, false, inl, inr, refl, str_eq, ◌++◌,
  ◌∷◌, ◌≡◌,
}
use stridejit.StateMachine.{Transition, FlattenedState, Machine}
use stridejit.StateMachine.Process.Targets.{all_transitions}
use stridejit.StateMachine.Codegen.{MachineCode, latch_names, all_latch_names}
use stridejit.StateMachine.Codegen.Total.{IsMachineCode}
use stridejit.StateMachine.Step.{Vars, update, Code, clear_latches, initial_entry, run_active, step}

-- The latch of the transition, where it has one, is clear.
abbrev pub IsClear : {D C W : Type 0} → Vars W → Transition D C → Type 0
IsClear v t = str_eq t.trigger_latch_var_name "" ≡ false → v.latch t.trigger_latch_var_name ≡ false

clear_latches_keep :
    {W : Type 0} (ns : List String) (v : Vars W) (n : String)
    → v.latch n ≡ false
    → (clear_latches ns v).latch n ≡ false
clear_latches_keep [] v n h = h
clear_latches_keep (m ∷ ns) v n h =
    clear_latches_keep ns (record v { latch = update v.latch m false }) n (ground (arith, h))

update_same : (f : String → Bool) (n : String) → update f n false n ≡ false
update_same f n = rw (compare_refl n) refl

clear_latches-All :
    {W : Type 0} (ns : List String) (v : Vars W)
    → All (λ n. (clear_latches ns v).latch n ≡ false) ns
clear_latches-All [] v = tt
clear_latches-All (n ∷ ns) v =
    let cleared = record v { latch = update v.latch n false } in
    (clear_latches_keep ns cleared n (update_same v.latch n), clear_latches-All ns cleared)

abbrev Down : {W : Type 0} → Vars W → String → Type 0
Down v n = v.latch n ≡ false

module _ {D C W : Type 0} (v : Vars W) where
  All-IsClear :
      (ts : List (Transition D C)) (ns : List String)
      → All (Down v) (latch_names ts ++ ns)
      → All (IsClear v) ts × All (Down v) ns
  All-IsClear [] ns h = (tt, h)
  All-IsClear (t ∷ ts) ns h = elim (Bool-cases (str_eq t.trigger_latch_var_name "")) [
    | inl e ↦ let (mine, rest) = All-IsClear ts ns (rw e at h) in ((λ e'. cc, mine), rest)
    | inr e ↦
        let down = rw e at h in
        let (mine, rest) = All-IsClear ts ns down.1 in ((λ e'. down.0, mine), rest)
  ]

  All-all_transitions :
      (ss : List (FlattenedState D C))
      → All (Down v) (all_latch_names ss)
      → All (IsClear v) (all_transitions ss)
  All-all_transitions [] h = tt
  All-all_transitions (s ∷ ss) h =
      let (mine, rest) = All-IsClear s.transitions (all_latch_names ss) h in
      All-append (IsClear v) s.transitions (all_transitions ss) mine (All-all_transitions ss rest)

-- After an evaluation the latch of every transition of the machine is clear, whatever the code of
-- the machine does, whether or not the transition was taken.
pub step-IsClear :
    {D C W : Type 0} (K : Code C W) (m : Machine D C) (code : MachineCode D C) (v : Vars W)
    → IsMachineCode m code
    → All (IsClear (step K code v)) (all_transitions m.flattened_states)
unfolding step
step-IsClear K m code v h = All-all_transitions (step K code v) m.flattened_states (
    subst (All (Down (step K code v))) h.1
      (clear_latches-All code.latches (run_active K code (initial_entry K code v))))
