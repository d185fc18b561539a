-- ===== src/Invoker.antt =====
-- The arguments of a generated function's invoker: InvokerParameterList, getFunctionArg and stepTick of
-- src/strideenvironment.cpp. A pointer is null, one that was given, or the address of the property
-- value of an argument's description.
pub mod Valid
pub mod Calls
pub mod Arrays
pub mod Step
pub mod Tick
mod Examples
use Prim.Native.String.{◌++◌ as str_append}
use stridejit.Prelude.{
  Bool, List, Option, String, [], false, get_elem?, get_or, if◌then◌else◌, leb, length, ltb,
  minus_one, none, not, pos, replicate, set, some, str_eq, true, wrap_i32, ℕ, ℤ, ◌&&◌, ◌+◌, ◌==◌,
  ◌∷◌,
}

pub data Role : Type 0 where
  output input property state external member_access : Role

-- `FunctionArgInfo`, without the fields that describe its type.
pub record FunctionArgInfo : Type 0 where
  pub name : String
  pub role : Role
  pub size_property : String
  pub property_value : ℤ

pub data Pointer : Type 0 where
  null : Pointer
  given property_of : ℕ → Pointer

pub record ParameterList : Type 0 where
  pub args : List Pointer
  pub arg_infos : List FunctionArgInfo
  pub name_to_index : List (String × ℕ)

abbrev pub is_state : Role → Bool
is_state state = true
is_state _ = false

abbrev pub is_null : Pointer → Bool
is_null null = true
is_null _ = false

abbrev pub find_index : List (String × ℕ) → String → Option ℕ
find_index [] n = none
find_index ((m, i) ∷ rest) n = let later = find_index rest n in if str_eq m n then some i else later

-- `m_nameToIndex[name] = i` for the descriptions from `i` on: a new pair hides an older one.
abbrev pub index_names : List FunctionArgInfo → ℕ → List (String × ℕ) → List (String × ℕ)
index_names [] i names = names
index_names (info ∷ infos) i names = index_names infos (i + 1) ((info.name, i) ∷ names)

unfoldable pub new_list : List FunctionArgInfo → ParameterList
new_list infos = record {
  args = replicate (length infos) null;
  arg_infos = infos;
  name_to_index = index_names infos 0 [];
}

-- A store at an index: none is a store out of the vector.
abbrev pub store_arg : ParameterList → ℕ → Pointer → Option ParameterList
store_arg l i p = if ltb i (length l.args) then some (record l { args = set l.args i p }) else none

-- The size of this argument is passed in another one.
abbrev pub is_sized : ParameterList → FunctionArgInfo → Bool
is_sized l info =
    not (str_eq info.size_property "")
    && elim (find_index l.name_to_index info.size_property) [ none ↦ false | some i ↦ true ]

-- `setArg` at an index. An outer none is an access out of a vector.
unfoldable pub set_arg_at : ParameterList → ℕ → Pointer → Option (Bool × ParameterList)
set_arg_at l index p =
    if leb (length l.args) index then some (false, l) else elim (get_elem? l.arg_infos index) [
      | none ↦ none
      | some info ↦
          if is_sized l info
          then some (false, l)
          else elim (store_arg l index p) [ none ↦ none | some next ↦ some (true, next) ]
    ]

unfoldable pub set_arg : ParameterList → String → Pointer → Option (Bool × ParameterList)
set_arg l name p = elim (find_index l.name_to_index name) [
  | none ↦ some (false, l)
  | some i ↦ set_arg_at l i p
]

-- The first description with the role of the state, from `i` on.
abbrev pub state_index : List FunctionArgInfo → ℕ → Option ℕ
state_index [] i = none
state_index (info ∷ infos) i =
    let later = state_index infos (i + 1) in if is_state info.role then some i else later

unfoldable pub set_state : ParameterList → Pointer → Option (Bool × ParameterList)
set_state l p = elim (state_index l.arg_infos 0) [
  | none ↦ set_arg l "__state" p
  | some i ↦ elim (store_arg l i p) [ none ↦ none | some next ↦ some (true, next) ]
]

unfoldable pub set_property : ParameterList → String → ℤ → Option (Bool × ParameterList)
set_property l name value = elim (find_index l.name_to_index name) [
  | none ↦ some (false, l)
  | some i ↦ elim (get_elem? l.arg_infos i) [
    | none ↦ none
    | some info ↦
        elim (store_arg
          (record l { arg_infos = set l.arg_infos i (record info { property_value = value }) }) i
          (property_of i)) [ none ↦ none | some next ↦ some (true, next) ]
  ]
]

unfoldable pub set_array_arg :
    ParameterList → String → Pointer → (size : ℕ) → Option (Bool × ParameterList)
set_array_arg l name p size = elim (find_index l.name_to_index name) [
  | none ↦ some (false, l)
  | some i ↦ elim (store_arg l i p) [
    | none ↦ none
    | some stored ↦ elim (get_elem? l.arg_infos i) [
      | none ↦ none
      | some info ↦
          if not (str_eq info.size_property "")
          then set_property stored info.size_property (wrap_i32 (pos size))
          else some (true, stored)
    ]
  ]
]

abbrev pub get_arg_at : ParameterList → ℕ → Pointer
get_arg_at l index = get_or l.args index null

unfoldable pub get_arg : ParameterList → String → Option Pointer
get_arg l name = elim (find_index l.name_to_index name) [
  | none ↦ some null
  | some i ↦ get_elem? l.args i
]

abbrev pub all_set : List Pointer → Bool
all_set [] = true
all_set (p ∷ ps) = let rest = all_set ps in if is_null p then false else rest

unfoldable pub is_complete : ParameterList → Bool
is_complete l =
    if length l.args == 0 && not (length l.arg_infos == 0) then false else all_set l.args

abbrev pub get_arg_info_at : ParameterList → ℕ → Option FunctionArgInfo
get_arg_info_at l index = get_elem? l.arg_infos index

-- `getFunctionArg` by name, and `getFunctionArgIndex`, on the descriptions of a function.
abbrev pub get_function_arg : List FunctionArgInfo → String → Option FunctionArgInfo
get_function_arg [] n = none
get_function_arg (info ∷ infos) n =
    let later = get_function_arg infos n in if str_eq info.name n then some info else later

abbrev pub get_function_arg_index : List FunctionArgInfo → String → ℕ → ℤ
get_function_arg_index [] n i = minus_one
get_function_arg_index (info ∷ infos) n i =
    let later = get_function_arg_index infos n (i + 1) in
    if str_eq info.name n then wrap_i32 (pos i) else later

-- The function that a domain's name stands for.
unfoldable pub target_function : (String → Bool) → String → String
target_function has_proto name =
    if has_proto name
    then name
    else (if has_proto (str_append name "_process")
        then str_append name "_process"
        else (if has_proto (str_append name "::process")
            then str_append name "::process"
            else name))

-- A call that changes the list.
pub data Call : Type 0 where
  sets_at : ℕ → Pointer → Call
  sets : String → Pointer → Call
  sets_state : Pointer → Call
  sets_property : String → ℤ → Call
  sets_array : String → Pointer → ℕ → Call

abbrev pub on_call : ParameterList → Call → Option (Bool × ParameterList)
on_call l (sets_at i p) = set_arg_at l i p
on_call l (sets n p) = set_arg l n p
on_call l (sets_state p) = set_state l p
on_call l (sets_property n v) = set_property l n v
on_call l (sets_array n p size) = set_array_arg l n p size

unfoldable pub on_calls : List Call → ParameterList → Option ParameterList
on_calls [] l = some l
on_calls (c ∷ cs) l = elim (on_call l c) [ none ↦ none | some (b, next) ↦ on_calls cs next ]
