-- ===== src/Buffer.antt =====
-- The layout of a stream buffer: src/bufferspec.cpp and include/stride/stridejit/bufferspec.hpp.
-- `where` in front of an error's text is left out, and an error is told by its kind.
pub mod Read
pub mod Frames
pub mod Layout
pub mod Valid
pub mod Division
pub mod Ring
pub mod Emit
mod Examples
use stridejit.Prelude.{
  Bool, List, Option, String, [], abs_ℤ, eqb_ℤ, false, if◌then◌else◌, leb_ℤ, ltb_ℤ, none, not, pos,
  some, str_eq, true, wrap_i32, ℕ, ℤ, ◌%◌, ◌&&◌, ◌+ℤ◌, ◌+◌, ◌/◌, ◌==◌, ◌||◌, ◌∷◌,
}

-- What the parser library answers in one tree.
pub record Parser : Type 1 where
  pub Decl : Type 0
  pub Node : Type 0
  pub get_name : Decl → String
  pub get_property_value : Decl → String → Option Node
  pub is_none : Node → Bool
  pub entity : Node → Option (List String × String)
  pub node_name : Node → String
  pub string_value : Node → Option String
  pub switch_value : Node → Option Bool
  pub evaluate_constant_integer : Node → Option ℤ
  pub find_entity_type : String → Option String
  pub schema_properties : List Decl

pub data Mode : Type 0 where
  sliding fifo overlap_add : Mode

pub data Trigger : Type 0 where
  full half quarter periodic : Trigger

pub data BufferError : Type 0 where
  no_declaration capacity_required capacity_not_positive removed_mode unknown_mode : BufferError
  not_implemented unknown_trigger odd_capacity capacity_not_by_four : BufferError
  bad_sizes trigger_not_entity trigger_not_switch : BufferError
  not_constant read_only : String → BufferError
  hop_mismatch : ℤ → ℤ → BufferError

pub record BufferSpec : Type 0 where
  pub name : String
  pub capacity : ℤ
  pub frame_size : ℤ
  pub hop : ℤ
  pub mode : Mode
  pub trigger : Trigger
  pub trigger_entity : String
  pub mirrored : Bool
  pub errors : List BufferError

abbrev pub new_spec : String → ℤ → Mode → List BufferError → BufferSpec
new_spec name capacity mode errors = record {
  name = name;
  capacity = capacity;
  frame_size = pos 0;
  hop = pos 0;
  mode = mode;
  trigger = full;
  trigger_entity = "";
  mirrored = false;
  errors = errors;
}

-- `storageSize`, an int: twice the capacity wraps where it does not fit.
abbrev pub storage_size : BufferSpec → ℤ
storage_size spec =
    if spec.mirrored then wrap_i32 (spec.capacity +ℤ spec.capacity) else spec.capacity

-- The position of a name in a list, from `i` on.
abbrev pub position : String → List String → ℕ → Option ℕ
position n [] i = none
position n (m ∷ ms) i = let later = position n ms (i + 1) in if str_eq m n then some i else later

abbrev pub in_buffer : List String → Bool
in_buffer [] = true
in_buffer (n ∷ []) = str_eq n "Buffer"
in_buffer (n ∷ m ∷ ns) = false

abbrev pub mode_at : ℕ → Mode
mode_at i = if i == 0 then sliding else if i == 1 then fifo else overlap_add

abbrev pub trigger_at : ℕ → Trigger
trigger_at i =
    if i == 0 then full else if i == 1 then half else if i == 2 then quarter else periodic

abbrev pub is_sliding : Mode → Bool
is_sliding sliding = true
is_sliding _ = false

abbrev pub is_periodic : Trigger → Bool
is_periodic periodic = true
is_periodic _ = false

-- `spec.hop`
abbrev pub hop_of : Trigger → Bool → ℤ → ℕ → ℤ → ℤ
hop_of full has_hop hop capacity frame_size = pos capacity
hop_of half has_hop hop capacity frame_size = pos (capacity / 2)
hop_of quarter has_hop hop capacity frame_size = pos (capacity / 4)
hop_of periodic has_hop hop capacity frame_size = if has_hop then hop else frame_size

abbrev pub only_if : Bool → BufferError → List BufferError
only_if true e = e ∷ []
only_if false e = []

abbrev pub capacity_errors : Trigger → ℕ → List BufferError
capacity_errors half capacity = only_if (not (capacity % 2 == 0)) odd_capacity
capacity_errors quarter capacity = only_if (not (capacity % 4 == 0)) capacity_not_by_four
capacity_errors _ capacity = []

-- `capacity >= frameSize >= hop > 0`
abbrev pub sizes_fit : ℕ → ℤ → ℤ → Bool
sizes_fit capacity frame_size hop =
    leb_ℤ frame_size (pos capacity) && leb_ℤ hop frame_size && ltb_ℤ (pos 0) hop

-- `spec.capacity % spec.hop == 0`: a division by zero is no result.
abbrev pub divides : ℤ → ℕ → Option Bool
divides hop capacity = if eqb_ℤ hop (pos 0) then none else some (capacity % abs_ℤ hop == 0)

-- `spec.mirrored`: the division is made only for a sliding buffer whose frames do not overlap.
abbrev pub is_mirrored : Mode → ℕ → ℤ → ℤ → Option Bool
is_mirrored mode capacity frame_size hop =
    if is_sliding mode
    then (if eqb_ℤ frame_size hop
        then elim (divides hop capacity) [ none ↦ none | some b ↦ some (not b) ]
        else some true)
    else some false

-- `isReadableByJit`
abbrev pub is_readable_by_jit : String → Bool
is_readable_by_jit key =
    str_eq key "ready"
    || str_eq key "count"
    || str_eq key "frame"
    || str_eq key "capacity"
    || str_eq key "frameSize"
    || str_eq key "hop"
