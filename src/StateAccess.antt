-- ===== src/StateAccess.antt =====
-- Reading and writing the state of a domain by name, src/strideenvironment.cpp: getStateVar and
-- setStateVar at int32_t, and the access to state machines. A state is the list of its bytes, an
-- access outside it is no result, and bytes are in little-endian order. The conversions of doubles and
-- floats, std::stoul and the data layout are parameters.
use Prim.Native.String.{[] as empty_string, ◌∷◌ as char_cons}
pub mod Bytes
pub mod Names
pub mod Fields
pub mod Requests
pub mod Ids
mod Examples
use mathlib.Core.Option
use text.Mathlib.Text.{starts_with}
use stridejit.Prelude.{
  Bool, List, Option, String, [], drop, false, get_elem?, if◌then◌else◌, leb, length, ltb, map,
  negsuc, none, pos, some, str_eq, suc, take, true, wrap_i32, zero, ℕ, ℤ, ◌%◌, ◌&&◌, ◌*◌, ◌++◌, ◌+◌,
  ◌-◌, ◌/◌, ◌==◌, ◌^◌, ◌||◌, ◌∷◌,
}
use stridejit.StateMachine.{
  StateMachineField, active_state_id, transition_request_id, transition_request_arg,
  history_state_id, get_field_suffix,
}

-- Types of fields, as far as they are looked at.
pub data FieldType : Type 0 where
  double_field float_field struct_field : FieldType
  int_field : (width : ℕ) → FieldType
  array_field : FieldType → ℕ → FieldType

-- `StateStructInfo`: names with the indices of their fields, in the order of the names.
pub record StateStructInfo : Type 0 where
  pub var_indices : List (String × ℕ)
  pub field_offsets : List ℕ
  pub field_types : List FieldType
  pub field_alloc_sizes : List ℕ

pub record Platform : Type 0 where
  pub double_of_int : ℤ → List ℕ
  pub float_of_int : ℤ → List ℕ
  pub int_of_double : List ℕ → ℤ
  pub int_of_float : List ℕ → ℤ
  pub alloc_size : Option (FieldType → ℕ)
  pub stoul : String → Option ℕ

-- `find` of a string in another, and a suffix.
abbrev pub has_part : String → String → Bool
has_part empty_string part = starts_with empty_string part
has_part (char_cons c s) part = starts_with (char_cons c s) part || has_part s part

abbrev pub has_suffix : String → String → Bool
has_suffix empty_string suffix = str_eq empty_string suffix
has_suffix (char_cons c s) suffix = str_eq (char_cons c s) suffix || has_suffix s suffix

abbrev pub is_empty_text : String → Bool
is_empty_text s = str_eq s ""

-- The parts of a string before and behind the first of a character.
abbrev pub split_at : String → String → Option (String × String)
split_at mark empty_string = none
split_at mark (char_cons c s) =
    let later = split_at mark s in
    if str_eq (char_cons c empty_string) mark
    then some (empty_string, s)
    else elim later [ none ↦ none | some (before, behind) ↦ some (char_cons c before, behind) ]

abbrev pub find_var : List (String × ℕ) → String → Option ℕ
find_var [] n = none
find_var ((m, i) ∷ rest) n = let later = find_var rest n in if str_eq m n then some i else later

-- The index of an element, 0 where none is given.
abbrev pub index_value : Option ℕ → ℕ
index_value none = 0
index_value (some i) = i

-- The first name that has a part.
abbrev pub find_part : List (String × ℕ) → String → Option ℕ
find_part [] n = none
find_part ((m, i) ∷ rest) n = let later = find_part rest n in if has_part m n then some i else later

-- The field of a name: the base name, the whole name, and then any name that has the base name in it.
unfoldable pub find_field : StateStructInfo → String → String → Option ℕ
find_field info base_name var_name = elim (find_var info.var_indices base_name) [
  | some i ↦ some i
  | none ↦ elim (find_var info.var_indices var_name) [
    | some i ↦ some i
    | none ↦ find_part info.var_indices base_name
  ]
]

abbrev pub le_bytes : ℕ → ℕ → List ℕ
le_bytes zero n = []
le_bytes (suc w) n = (n % 256) ∷ le_bytes w (n / 256)

abbrev pub le_value : List ℕ → ℕ
le_value [] = 0
le_value (b ∷ bs) = b + 256 * le_value bs

-- The bits of a number, and a number from its bits.
abbrev pub to_bits : ℕ → ℤ → ℕ
to_bits w (pos n) = n % 2 ^ w
to_bits w (negsuc n) = 2 ^ w - 1 - n % 2 ^ w

abbrev pub signed : ℕ → ℕ → ℤ
signed w n = if ltb n (2 ^ (w - 1)) then pos n else negsuc (2 ^ w - n - 1)

unfoldable pub load : List ℕ → ℕ → ℕ → Option (List ℕ)
load mem offset size =
    if leb (offset + size) (length mem) then some (take size (drop offset mem)) else none

unfoldable pub store : List ℕ → ℕ → List ℕ → Option (List ℕ)
store mem offset bytes =
    if leb (offset + length bytes) (length mem)
    then some (take offset mem ++ (bytes ++ drop (offset + length bytes) mem))
    else none

module _ (P : Platform) where
  -- The size of an element of an array.
  abbrev pub element_size : StateStructInfo → ℕ → FieldType → ℕ → Option ℕ
  element_size info field elem_type n =
      let size : ℕ = elim (get_elem? info.field_alloc_sizes field) [
        | none ↦ 0
        | some bytes ↦ if ltb 0 n then bytes / n else 0
      ] in
      if size == 0
      then elim P.alloc_size [ none ↦ none | some alloc ↦ some (alloc elem_type) ]
      else some size

  -- A number at an address, by its type.
  abbrev pub load_number : List ℕ → ℕ → FieldType → Option ℤ
  load_number mem at_byte double_field = Option.map P.int_of_double (load mem at_byte 8)
  load_number mem at_byte float_field = Option.map P.int_of_float (load mem at_byte 4)
  load_number mem at_byte (int_field w) =
      if w == 1 || w == 8
      then Option.map (λ bs. pos (le_value bs)) (load mem at_byte 1)
      else (if w == 16
          then Option.map (λ bs. signed 16 (le_value bs)) (load mem at_byte 2)
          else (if w == 64
              then Option.map (λ bs. wrap_i32 (signed 64 (le_value bs))) (load mem at_byte 8)
              else Option.map (λ bs. signed 32 (le_value bs)) (load mem at_byte 4)))
  load_number mem at_byte t = Option.map (λ bs. signed 32 (le_value bs)) (load mem at_byte 4)

  -- The bytes that are written for a number, by the type of the field.
  abbrev pub number_bytes : FieldType → ℤ → List ℕ
  number_bytes double_field value = P.double_of_int value
  number_bytes float_field value = P.float_of_int value
  number_bytes (int_field w) value =
      if w == 1 || w == 8
      then le_bytes 1 (to_bits 8 value)
      else (if w == 64 then le_bytes 8 (to_bits 64 value) else le_bytes 4 (to_bits 32 value))
  number_bytes t value = le_bytes 4 (to_bits 32 value)

  -- Where a field, or the element of an array field, stands, and its type. The first none is a field
  -- of which the type is not there, the second one a refusal.
  unfoldable pub place_of : StateStructInfo → ℕ → ℕ → Option (Option (ℕ × FieldType))
  place_of info field index = elim (get_elem? info.field_offsets field) [
    | none ↦ some none
    | some offset ↦ elim (get_elem? info.field_types field) [
      | none ↦ none
      | some t ↦ elim t [
        | array_field elem_type n ↦ elim (element_size info field elem_type n) [
          | none ↦ some none
          | some size ↦ some (some (offset + index * size, elem_type))
        ]
        | plain ↦ some (some (offset, plain))
      ]
    ]
  ]

  -- `getStateVar`: the first none is an access outside the state, the second one a refusal.
  unfoldable pub get_state_var :
      Option StateStructInfo → List ℕ → String → Option ℕ → Option (Option ℤ)
  get_state_var none mem var_name index = some none
  get_state_var (some info) mem var_name index =
      let array_index = index_value index in
      elim (find_field info var_name var_name) [
        | none ↦ some none
        | some field ↦ elim (place_of info field array_index) [
          | none ↦ none
          | some place ↦ elim place [
            | none ↦ some none
            | some (at_byte, t) ↦ elim (load_number mem at_byte t) [
              | none ↦ none
              | some v ↦ some (some v)
            ]
          ]
        ]
      ]

  -- The base name and the index of a name with a bracket.
  unfoldable pub parse_name : String → Option ℕ → String × ℕ
  parse_name var_name index =
      let array_index = index_value index in
      elim (split_at "[" var_name) [
        | none ↦ (var_name, array_index)
        | some (base_name, behind) ↦ elim index [
          | some i ↦ (base_name, i)
          | none ↦ elim (split_at "]" behind) [
            | none ↦ (base_name, 0)
            | some (digits, rest) ↦ elim (P.stoul digits) [
              | none ↦ (base_name, 0)
              | some i ↦ (base_name, i)
            ]
          ]
        ]
      ]

  -- `setStateVar`: the outer none is an access outside the state.
  unfoldable pub set_state_var :
      Option StateStructInfo → List ℕ → String → ℤ → Option ℕ → Option (Bool × List ℕ)
  set_state_var none mem var_name value index = some (false, mem)
  set_state_var (some info) mem var_name value index =
      let (base_name, array_index) = parse_name var_name index in
      elim (find_field info base_name var_name) [
        | none ↦ some (false, mem)
        | some field ↦ elim (place_of info field array_index) [
          | none ↦ none
          | some place ↦ elim place [
            | none ↦ some (false, mem)
            | some (at_byte, t) ↦ elim (store mem at_byte (number_bytes t value)) [
              | none ↦ none
              | some next ↦ some (true, next)
            ]
          ]
        ]
      ]

-- `findFieldByFunctionality`: an empty filter admits every name.
abbrev pub admits : String → String → Bool
admits filter key = is_empty_text filter || has_part key filter

abbrev pub qualifies : StateMachineField → String → String → String → Bool
qualifies field filter1 filter2 key =
    has_suffix key (get_field_suffix field) && admits filter1 key && admits filter2 key

unfoldable pub find_field_by_functionality :
    List (String × ℕ) → StateMachineField → String → String → Option ℕ
find_field_by_functionality [] field filter1 filter2 = none
find_field_by_functionality ((key, i) ∷ rest) field filter1 filter2 =
    let later = find_field_by_functionality rest field filter1 filter2 in
    if qualifies field filter1 filter2 key then some i else later

-- The offset of a field of a machine.
abbrev pub offset_of : StateStructInfo → StateMachineField → String → String → Option ℕ
offset_of info field filter1 filter2 =
    elim (find_field_by_functionality info.var_indices field filter1 filter2) [
      | none ↦ none
      | some i ↦ get_elem? info.field_offsets i
    ]

abbrev pub load_i32 : List ℕ → Option ℕ → Option (Option ℤ)
load_i32 mem none = some none
load_i32 mem (some offset) = elim (load mem offset 4) [
  | none ↦ none
  | some bs ↦ some (some (signed 32 (le_value bs)))
]

unfoldable pub get_active_state_id : StateStructInfo → List ℕ → String → Option (Option ℤ)
get_active_state_id info mem sm_name = load_i32 mem (offset_of info active_state_id sm_name "")

unfoldable pub get_transition_request_id : StateStructInfo → List ℕ → String → Option (Option ℤ)
get_transition_request_id info mem sm_name =
    load_i32 mem (offset_of info transition_request_id sm_name "")

unfoldable pub get_history_state_id : StateStructInfo → List ℕ → String → String → Option (Option ℤ)
get_history_state_id info mem state_name sm_name =
    load_i32 mem (offset_of info history_state_id state_name sm_name)

abbrev pub store_i32 : List ℕ → ℕ → ℤ → Option (List ℕ)
store_i32 mem offset value = store mem offset (le_bytes 4 (to_bits 32 value))

abbrev pub store_argument : StateStructInfo → String → Option ℤ → List ℕ → Option (Bool × List ℕ)
store_argument info sm_name none mem = some (true, mem)
store_argument info sm_name (some arg) mem =
    elim (offset_of info transition_request_arg sm_name "") [
      | none ↦ some (true, mem)
      | some offset ↦ elim (store_i32 mem offset arg) [
        | none ↦ none
        | some next ↦ some (true, next)
      ]
    ]

-- `requestTransition`
unfoldable pub request_transition :
    StateStructInfo → List ℕ → ℤ → String → Option ℤ → Option (Bool × List ℕ)
request_transition info mem transition_id sm_name arg =
    elim (offset_of info transition_request_id sm_name "") [
      | none ↦ some (false, mem)
      | some offset ↦ elim (store_i32 mem offset transition_id) [
        | none ↦ none
        | some next ↦ store_argument info sm_name arg next
      ]
    ]
