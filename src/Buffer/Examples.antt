-- ===== src/Buffer/Examples.antt =====
-- Buffers that are declared with and without errors.
use stridejit.Prelude.{
  List, Option, String, [], false, if◌then◌else◌, negsuc, none, pos, refl, some, str_eq, true, ℤ,
  ◌-◌, ◌^◌, ◌∷◌, ◌≡◌,
}
use stridejit.Buffer.{storage_size, Parser, sliding, periodic, BufferSpec}
use stridejit.Buffer.Read.{from_declaration}
use stridejit.Buffer.Layout.{IsLayout}
use stridejit.Buffer.Valid.{from_declaration-IsLayout}
use stridejit.Buffer.Division.{from_declaration_stuck}

-- A declaration is the list of its properties, all of them numbers.
abbrev pub find_number : List (String × ℤ) → String → Option ℤ
find_number [] key = none
find_number ((k, i) ∷ rest) key =
    let later = find_number rest key in if str_eq k key then some i else later

abbrev pub numbers : Parser
numbers = record {
  Decl = List (String × ℤ);
  Node = ℤ;
  get_name = λ d. "Buf";
  get_property_value = find_number;
  is_none = λ n. false;
  entity = λ n. none;
  node_name = λ n. "";
  string_value = λ n. none;
  switch_value = λ n. none;
  evaluate_constant_integer = λ n. some n;
  find_entity_type = λ n. none;
  schema_properties = [];
}

abbrev overlapping : List (String × ℤ)
overlapping = ("capacity", pos 1024) ∷ ("frameSize", pos 512) ∷ ("hop", pos 256) ∷ []

abbrev pub overlapping_spec : BufferSpec
overlapping_spec = record {
  name = "Buf";
  capacity = pos 1024;
  frame_size = pos 512;
  hop = pos 256;
  mode = sliding;
  trigger = periodic;
  trigger_entity = "";
  mirrored = true;
  errors = [];
}

from_declaration-IsLayout_example : IsLayout overlapping_spec
unfolding from_declaration
from_declaration-IsLayout_example =
    from_declaration-IsLayout numbers (some overlapping) overlapping_spec refl refl refl

abbrev hop_zero : List (String × ℤ)
hop_zero = ("capacity", pos 8) ∷ ("frameSize", pos 0) ∷ ("hop", pos 0) ∷ []

from_declaration_stuck_example : from_declaration numbers (some hop_zero) ≡ none
from_declaration_stuck_example =
    from_declaration_stuck numbers hop_zero 7 [] [] [] refl refl refl refl refl

-- The storage of a mirrored buffer whose doubled capacity is no i32.
huge_storage :
    storage_size (record overlapping_spec { capacity = pos (2 ^ 30) }) ≡ negsuc (2 ^ 31 - 1)
huge_storage = refl

huge_is_read :
    from_declaration numbers
      (some (("capacity", pos (2 ^ 30)) ∷ ("frameSize", pos 512) ∷ ("hop", pos 256) ∷ []))
    ≡ some (record overlapping_spec { capacity = pos (2 ^ 30) })
unfolding from_declaration
huge_is_read = refl
