-- ===== src/StateLookup/Examples.antt =====
-- The states of two domains, of which the name of one ends in that of the other.

use mathlib.Core.List.{Permᴰ}
use stridejit.StateLookup.{StateEntry, get_state_struct_info, get_state_of_instance}
use stridejit.StateLookup.Order.{get_state_struct_info_order}
use stridejit.Prelude.{List, [], none, refl, some, ℕ, ◌∷◌, ◌≡◌}

abbrev reaction : StateEntry ℕ
reaction = record {
  node = some (record { address = 16; node_name = "ReactionPipelineDomain" });
  struct_name = some "struct.ReactionPipelineDomain_state";
  info = 1;
}

abbrev pipeline : StateEntry ℕ
pipeline = record { node = none; struct_name = some "struct.PipelineDomain_state.1"; info = 2 }

abbrev pipeline_again : StateEntry ℕ
pipeline_again = record { node = none; struct_name = some "struct.PipelineDomain_state"; info = 3 }

abbrev one_order : List (StateEntry ℕ)
one_order = reaction ∷ pipeline ∷ []

abbrev other_order : List (StateEntry ℕ)
other_order = pipeline ∷ reaction ∷ []

get_state_struct_info_order_example :
    get_state_struct_info "PipelineDomain" one_order
    ≡ get_state_struct_info "PipelineDomain" other_order
get_state_struct_info_order_example =
    get_state_struct_info_order "PipelineDomain" one_order other_order (Permᴰ.swap refl refl) refl

-- The exact name wins over the one that it is a part of.
exact_wins : get_state_struct_info "PipelineDomain" one_order ≡ some 2
unfolding get_state_struct_info
exact_wins = refl

-- Two structs of one name, of which one was renamed: the first one of the map is taken.
first_of_two : get_state_struct_info "PipelineDomain" (pipeline ∷ pipeline_again ∷ []) ≡ some 2
unfolding get_state_struct_info
first_of_two = refl

second_of_two : get_state_struct_info "PipelineDomain" (pipeline_again ∷ pipeline ∷ []) ≡ some 3
unfolding get_state_struct_info
second_of_two = refl

-- An ambiguous part of a name has no state, and an instance is looked up by its node first.
ambiguous : get_state_struct_info "Domain" one_order ≡ none
unfolding get_state_struct_info
ambiguous = refl

by_node :
    get_state_of_instance (some (record { address = 16; node_name = "PipelineDomain" })) one_order
    ≡ some 1
unfolding get_state_of_instance
by_node = refl
