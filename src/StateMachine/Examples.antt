-- ===== src/StateMachine/Examples.antt =====
-- The machine of two states, from its declarations.
use stridejit.Prelude.{[], arith, minus_one, refl, some, ℕ, ◌<◌, ◌≡◌}
use stridejit.StateMachine.{Transition, FlattenedState, Machine}
use stridejit.StateMachine.Flatten.{flatten_state_machine}
use stridejit.StateMachine.Flatten.Total.{IsRank}
use stridejit.StateMachine.Process.{resolve_leaf, process_declaration}
use stridejit.StateMachine.Process.Result.{IsMachine, process_declaration-IsMachine}
use stridejit.StateMachine.Sample.{
  Decl, machine_decl, a_decl, b_decl, to_a, to_b, parser, rank, flat_states,
}

rank-IsRank : IsRank parser ℕ "M" rank
rank-IsRank machine_decl = (below_a, (below_b, tt))
  where
    below_a : (d : Decl) → some a_decl ≡ some d → rank d < 1
    below_a machine_decl e = cc
    below_a a_decl e = omega arith
    below_a b_decl e = omega arith
    below_a to_a e = omega arith
    below_a to_b e = omega arith

    below_b : (d : Decl) → some b_decl ≡ some d → rank d < 1
    below_b machine_decl e = cc
    below_b a_decl e = omega arith
    below_b b_decl e = omega arith
    below_b to_a e = omega arith
    below_b to_b e = omega arith
rank-IsRank a_decl = tt
rank-IsRank b_decl = tt
rank-IsRank to_a = tt
rank-IsRank to_b = tt

flattened :
    flatten_state_machine parser ℕ "M" 2 minus_one machine_decl ([], 1) ≡ some (flat_states, 4)
unfolding flatten_state_machine
flattened = refl

-- The initial state of the whole is the state A.
resolved_root : resolve_leaf parser ℕ flat_states 1 ≡ some 2
unfolding resolve_leaf stridejit.StateMachine.state_with_id stridejit.StateMachine.find_state
resolved_root = refl

process_declaration-IsMachine_example :
    (m : Machine Decl ℕ) × (process_declaration parser ℕ (λ i. "1") 2 machine_decl "Domain" "M"
      ≡ some m)
    × IsMachine m
process_declaration-IsMachine_example =
    process_declaration-IsMachine parser ℕ (λ i. "1") machine_decl "Domain" "M" rank 2 rank-IsRank
      (omega arith)
