-- ===== src/StateDefaults/Examples.antt =====
-- The defaults of a state with a counter and a text.
use stridejit.Prelude.{All, List, [], arith, refl, some, true, ℕ, ◌*◌, ◌∷◌, ◌≡◌}
use mathlib.Core.Option.{some-injective}
use mathlib.Core.Path.{subst}
use stridejit.StateAccess.{le_bytes, store}
use stridejit.StateDefaults.{
  DataLayout, Constant, int_constant, struct_constant, pointer_constant, no_operands, operand,
  write_constant, StateDefaults, snapshot_with, snapshot_state_defaults,
}
use stridejit.StateDefaults.Snapshot.{AllStartLike, snapshot_state_defaults-AllStartLike}
use stridejit.StateDefaults.Total.{Fits, DefaultFits, AreSnapshotsOf, snapshot_state_defaults_total}

-- A type is told by its size, and members stand eight bytes apart.
abbrev layout : DataLayout ℕ
layout = record {
  alloc_size_of = λ t. t;
  element_offset = λ t i. i * 8;
  pointer_bytes = λ text. le_bytes 8 4096;
}

abbrev default_state : Constant ℕ
default_state =
    struct_constant 16
      (operand (int_constant 4 7) (operand (pointer_constant 8 (some "text")) no_operands))

abbrev defaults : List (StateDefaults ℕ)
defaults =
    record {
      has_struct_type = true;
      default_constant = some default_state;
      alloc_size = 16;
      default_bytes = [];
    }
    ∷ []

abbrev bytes : List ℕ
bytes = 7 ∷ 0 ∷ 0 ∷ 0 ∷ 0 ∷ 0 ∷ 0 ∷ 0 ∷ 0 ∷ 16 ∷ 0 ∷ 0 ∷ 0 ∷ 0 ∷ 0 ∷ 0 ∷ []

abbrev with_bytes : List (StateDefaults ℕ)
with_bytes =
    record {
      has_struct_type = true;
      default_constant = some default_state;
      alloc_size = 16;
      default_bytes = bytes;
    }
    ∷ []

taken : snapshot_state_defaults (some layout) defaults ≡ some with_bytes
unfolding snapshot_state_defaults snapshot_with write_constant store
taken = refl

snapshot_state_defaults-AllStartLike_example :
    AllStartLike (λ size. true) (some layout) with_bytes defaults
unfolding snapshot_state_defaults snapshot_with write_constant store
snapshot_state_defaults-AllStartLike_example =
    snapshot_state_defaults-AllStartLike (λ size. true) (some layout) defaults with_bytes refl

default-Fits : Fits layout default_state 16
unfolding Fits
default-Fits = (
  (4, omega arith, (omega arith, omega arith)),
  ((8, omega arith, (omega arith, omega arith)), tt),
)

defaults-Fit : All (DefaultFits layout) defaults
defaults-Fit =
    (λ c e. subst (λ c. Fits layout c 16) (some-injective default_state c e) default-Fits, tt)

snapshot_state_defaults_total_example :
    (nexts : List (StateDefaults ℕ)) × (snapshot_state_defaults (some layout) defaults ≡ some nexts)
    × AreSnapshotsOf layout nexts defaults
snapshot_state_defaults_total_example = snapshot_state_defaults_total layout defaults defaults-Fit
