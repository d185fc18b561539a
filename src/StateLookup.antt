-- ===== src/StateLookup.antt =====
-- Which state belongs to a name, src/stridecompiler.cpp: getStateStructInfo of an instance and of a
-- name. The map of states is the list of its entries in the order in which they are looked at.
pub mod Order
mod Examples
use text.Mathlib.Text.{starts_with}
use Prim.Native.String.{◌++◌ as str_append}
use stridejit.StateAccess.{has_part, is_empty_text}
use stridejit.Prelude.{
  Bool, List, Option, String, [], false, if◌then◌else◌, none, some, str_eq, true, ℕ, ◌==◌, ◌||◌,
  ◌∷◌,
}

-- A node is told by its address and has a name.
pub record Node : Type 0 where
  pub address : ℕ
  pub node_name : String

-- An entry of `stateStructMap`, with the name of its struct type.
pub record StateEntry {ℓ} (A : Type ℓ) : Type ℓ where
  pub node : Option Node
  pub struct_name : Option String
  pub info : A

abbrev pub exact_struct_name : String → String
exact_struct_name name = str_append "struct." (str_append name "_state")

-- LLVM appends a dot and a number when it renames a duplicate struct type.
abbrev pub names_struct : String → String → Bool
names_struct name st_name =
    str_eq st_name (exact_struct_name name)
    || (str_eq st_name name || starts_with st_name (str_append (exact_struct_name name) "."))

module _ {ℓ} {A : Type ℓ} where
  abbrev pub is_exact : String → StateEntry A → Bool
  is_exact name e =
      (elim e.node [ none ↦ false | some n ↦ str_eq n.node_name name ])
      || (elim e.struct_name [ none ↦ false | some st_name ↦ names_struct name st_name ])

  abbrev pub is_similar : String → StateEntry A → Bool
  is_similar name e = elim e.struct_name [ none ↦ false | some st_name ↦ has_part st_name name ]

  -- The first loop of `getStateStructInfo`.
  abbrev pub first_exact : String → List (StateEntry A) → Option A
  first_exact name [] = none
  first_exact name (e ∷ es) =
      let later = first_exact name es in if is_exact name e then some e.info else later

  -- The second loop, with its match so far.
  abbrev pub similar_loop : String → List (StateEntry A) → Option A → Option A
  similar_loop name [] found = found
  similar_loop name (e ∷ es) found = elim (is_similar name e) [
    | true ↦ elim found [ none ↦ similar_loop name es (some e.info) | some i ↦ none ]
    | false ↦ similar_loop name es found
  ]

  unfoldable pub get_state_struct_info : String → List (StateEntry A) → Option A
  get_state_struct_info name entries =
      if is_empty_text name then none else (elim (first_exact name entries) [
        | none ↦ similar_loop name entries none
        | some i ↦ some i
      ])

  abbrev pub find_node : ℕ → List (StateEntry A) → Option A
  find_node address [] = none
  find_node address (e ∷ es) =
      let later = find_node address es in
      elim e.node [ none ↦ later | some n ↦ if n.address == address then some e.info else later ]

  -- `getStateStructInfo` of an instance, which may be a null pointer.
  unfoldable pub get_state_of_instance : Option Node → List (StateEntry A) → Option A
  get_state_of_instance none entries = none
  get_state_of_instance (some n) entries = elim (find_node n.address entries) [
    | none ↦ get_state_struct_info n.node_name entries
    | some i ↦ some i
  ]
