-- ===== src/Buffer/Emit.antt =====
-- What BufferPushExprAST, BufferViewExprAST and BufferFrameCopyExprAST of src/binaryexprast.cpp check
-- before they emit code. A pointer is told by its name, a message by its kind.
pub mod Checks
mod Examples
use Prim.Native.String.{◌++◌ as str_append}
use mathlib.Core.Path.{subst}
use text.Mathlib.TextEquality.{eq_iff}
use stridejit.Prelude.{
  Bool, List, Option, String, [], eqb_ℤ, false, if◌then◌else◌, inl, inr, none, not, pos, some,
  str_eq, true, ℕ, ◌&&◌, ◌==◌, ◌||◌, ◌∷◌, ◌⊎◌,
}
use stridejit.Buffer.{BufferSpec, BufferError}
use stridejit.Buffer.Ring.{has_trigger_entity}

-- `llvm::Type`, as far as it is looked at.
pub data ValueType : Type 0 where
  integer floating : (width : ℕ) → ValueType
  pointer : ValueType
  array : ValueType → ℕ → ValueType

abbrev pub type_eq : ValueType → ValueType → Bool
type_eq (integer a) (integer b) = a == b
type_eq (floating a) (floating b) = a == b
type_eq pointer pointer = true
type_eq (array s a) (array t b) = type_eq s t && (a == b)
type_eq _ _ = false

-- `NamedValues` and the globals: names, with the types that are noted for them.
pub record Compiler : Type 0 where
  pub named_values : List (String × Option ValueType)
  pub globals : List (String × Option ValueType)

abbrev pub find_value : List (String × Option ValueType) → String → Option (Option ValueType)
find_value [] n = none
find_value ((m, t) ∷ rest) n = let later = find_value rest n in if str_eq m n then some t else later

-- `findBufferState`
abbrev pub find_buffer_state : Compiler → String → Option (Option ValueType)
find_buffer_state c n = elim (find_value c.named_values n) [
  | none ↦ find_value c.globals n
  | some t ↦ some t
]

abbrev pub is_found : Compiler → String → Bool
is_found c n = elim (find_buffer_state c n) [ none ↦ false | some t ↦ true ]

-- The type of an array of a name.
abbrev pub array_of : Option (Option ValueType) → Option (ValueType × ℕ)
array_of (some (some (array t n))) = some (t, n)
array_of _ = none

abbrev pub index_name : BufferSpec → String
index_name spec = str_append spec.name "_index"

abbrev pub count_name : BufferSpec → String
count_name spec = str_append spec.name "_count"

abbrev pub since_name : BufferSpec → String
since_name spec = str_append spec.name "_since"

abbrev pub flush_name : BufferSpec → String
flush_name spec = str_append spec.name "_flush"

abbrev pub ready_name : BufferSpec → String
ready_name spec = str_append spec.name "_ready"

-- `BufferPushExprAST::writesTo`
abbrev pub push_writes_to : BufferSpec → String → Bool
push_writes_to spec v =
    str_eq v spec.name
    || (str_eq v (ready_name spec)
        || (str_eq v (index_name spec)
            || (str_eq v (count_name spec)
                || (str_eq v (since_name spec)
                    || (has_trigger_entity spec && str_eq v (flush_name spec))))))

-- The conversion of a value to the element type of the buffer.
pub data Cast : Type 0 where
  si_to_fp fp_to_si fp_cast int_cast : Cast

abbrev pub cast_kind : ValueType → ValueType → Option Cast
cast_kind (floating e) (integer v) = some si_to_fp
cast_kind (integer e) (floating v) = some fp_to_si
cast_kind (floating e) (floating v) = some fp_cast
cast_kind (integer e) (integer v) = some int_cast
cast_kind _ _ = none

abbrev pub cast_to : ValueType → ValueType → Option Cast
cast_to elem_type value_type =
    if type_eq value_type elem_type then none else cast_kind elem_type value_type

-- The type of a value once it is loaded.
abbrev pub loaded_type : ValueType → Option ValueType → ValueType → ValueType
loaded_type pointer (some t) elem_type = t
loaded_type pointer none elem_type = elem_type
loaded_type t value_type elem_type = t

pub data Refusal : Type 0 where
  buffer_errors : List BufferError → Refusal
  no_value missing_storage unknown_trigger not_frame_array : Refusal

-- The element type, where the storage and the private state are there.
abbrev pub push_storage : Compiler → BufferSpec → Option ValueType
push_storage c spec = elim (array_of (find_buffer_state c spec.name)) [
  | none ↦ none
  | some (t, n) ↦
      if is_found c (index_name spec)
        && is_found c (count_name spec)
        && is_found c (since_name spec)
        && is_found c (ready_name spec)
      then some t
      else none
]

abbrev pub trigger_found : Compiler → BufferSpec → Bool
trigger_found c spec =
    not (has_trigger_entity spec)
    || (is_found c (flush_name spec) && is_found c spec.trigger_entity)

-- `BufferPushExprAST::codegen` up to the first instruction, on the type of the value and the one that
-- is noted with it: a refusal, or the element type and the conversion.
unfoldable pub emit_push :
    Compiler
    → BufferSpec
    → Option (ValueType × Option ValueType)
    → Refusal ⊎ (ValueType × Option Cast)
emit_push c spec value = elim spec.errors [
  | e ∷ es ↦ inl (buffer_errors (e ∷ es))
  | [] ↦ elim value [
    | none ↦ inl no_value
    | some (t, noted) ↦ elim (push_storage c spec) [
      | none ↦ inl missing_storage
      | some elem_type ↦
          if trigger_found c spec
          then inr (elem_type, cast_to elem_type (loaded_type t noted elem_type))
          else inl unknown_trigger
    ]
  ]
]

-- `BufferViewExprAST::codegen`: the element type.
unfoldable pub emit_view : Compiler → BufferSpec → Refusal ⊎ ValueType
emit_view c spec = elim spec.errors [
  | e ∷ es ↦ inl (buffer_errors (e ∷ es))
  | [] ↦ elim (array_of (find_buffer_state c spec.name)) [
    | none ↦ inl missing_storage
    | some (t, n) ↦
        if is_found c (index_name spec) && is_found c (count_name spec)
        then inr t
        else inl missing_storage
  ]
]

-- `BufferFrameCopyExprAST::codegen`: the number of elements that are copied.
unfoldable pub emit_copy : Compiler → BufferSpec → String → Refusal ⊎ ℕ
emit_copy c spec destination = elim (emit_view c spec) [
  | inl r ↦ inl r
  | inr t ↦ elim (array_of (find_buffer_state c destination)) [
    | none ↦ inl not_frame_array
    | some (u, n) ↦
        if type_eq u t && eqb_ℤ (pos n) spec.frame_size then inr n else inl not_frame_array
  ]
]
