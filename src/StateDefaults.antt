-- ===== src/StateDefaults.antt =====
-- The bytes that a state starts with, src/strideenvironment.cpp: writeConstantToBuffer,
-- snapshotStateDefaults, allocateState. The types, their sizes and offsets, and the addresses of
-- interned strings are parameters.
pub mod Snapshot
pub mod Total
mod Examples
use stridejit.StateAccess.{store, le_bytes}
use stridejit.Prelude.{
  Bool, List, Option, String, [], false, if◌then◌else◌, leb, length, ltb, none, not, replicate,
  some, suc, take, ℕ, ◌*◌, ◌+◌, ◌==◌, ◌||◌, ◌∷◌,
}

-- `llvm::DataLayout`, with the bytes of the address of a string in the pool.
pub record DataLayout (Ty : Type 0) : Type 0 where
  pub alloc_size_of : Ty → ℕ
  pub element_offset : Ty → ℕ → ℕ
  pub pointer_bytes : String → List ℕ

-- The constants that are told apart. A pointer goes with the text of the global it leads to, if that
-- is a sequence of data.
mutual
  pub data Constant (Ty : Type 0) : Type 0 where
    zero_constant : Ty → Constant Ty
    int_constant : Ty → (value : ℕ) → Constant Ty
    float_constant : Ty → (raw : List ℕ) → Constant Ty
    struct_constant : Ty → Constants Ty → Constant Ty
    array_constant : (element_type : Ty) → Constants Ty → Constant Ty
    data_array : (raw : List ℕ) → Constant Ty
    pointer_constant : Ty → Option String → Constant Ty
    other_constant : Constant Ty

  pub data Constants (Ty : Type 0) : Type 0 where
    no_operands : Constants Ty
    operand : Constant Ty → Constants Ty → Constants Ty

-- `memcpy` of a number of bytes from a source.
abbrev pub copy_bytes : List ℕ → ℕ → List ℕ → (size : ℕ) → Option (List ℕ)
copy_bytes mem offset source size =
    if leb size (length source) then store mem offset (take size source) else none

module _ {Ty : Type 0} (dl : DataLayout Ty) where
  -- `writeConstantToBuffer`: none is a write outside the buffer. The operands are those of a struct, of
  -- which the first is the i-th, or of an array of elements of a size.
  unfoldable mutual
    pub write_constant : Constant Ty → List ℕ → (offset : ℕ) → Option (List ℕ)
    write_constant (zero_constant t) mem offset =
        store mem offset (replicate (dl.alloc_size_of t) 0)
    write_constant (int_constant t value) mem offset =
        copy_bytes mem offset (le_bytes 8 value) (dl.alloc_size_of t)
    write_constant (float_constant t raw) mem offset =
        copy_bytes mem offset raw (dl.alloc_size_of t)
    write_constant (struct_constant t cs) mem offset =
        write_operands cs (dl.element_offset t) 0 mem offset
    write_constant (array_constant t cs) mem offset =
        write_operands cs (λ i. i * dl.alloc_size_of t) 0 mem offset
    write_constant (data_array raw) mem offset = store mem offset raw
    write_constant (pointer_constant t none) mem offset = some mem
    write_constant (pointer_constant t (some text)) mem offset =
        copy_bytes mem offset (dl.pointer_bytes text) (dl.alloc_size_of t)
    write_constant other_constant mem offset = some mem

    pub write_operands : Constants Ty → (ℕ → ℕ) → (i : ℕ) → List ℕ → (offset : ℕ) → Option (List ℕ)
    write_operands no_operands place i mem offset = some mem
    write_operands (operand c cs) place i mem offset =
        elim (write_constant c mem (offset + place i)) [
          | none ↦ none
          | some next ↦ write_operands cs place (suc i) next offset
        ]

-- `StateStructInfo`, the part with defaults.
pub record StateDefaults (Ty : Type 0) : Type 0 where
  pub has_struct_type : Bool
  pub default_constant : Option (Constant Ty)
  pub alloc_size : ℕ
  pub default_bytes : List ℕ

module _ {Ty : Type 0} (dl : DataLayout Ty) where
  -- The body of the loop of `snapshotStateDefaults`.
  unfoldable pub snapshot_with : StateDefaults Ty → Option (StateDefaults Ty)
  snapshot_with info =
      if not (length info.default_bytes == 0) || info.alloc_size == 0
      then some info
      else elim info.default_constant [
        | none ↦ some info
        | some c ↦ elim (write_constant dl c (replicate info.alloc_size 0) 0) [
          | none ↦ none
          | some bytes ↦ some (record info { default_bytes = bytes })
        ]
      ]

  abbrev pub snapshot_all : List (StateDefaults Ty) → Option (List (StateDefaults Ty))
  snapshot_all [] = some []
  snapshot_all (info ∷ infos) = elim (snapshot_with info) [
    | none ↦ none
    | some next ↦ elim (snapshot_all infos) [ none ↦ none | some rest ↦ some (next ∷ rest) ]
  ]

module _ {Ty : Type 0} (data_layout : Option (DataLayout Ty)) where
  unfoldable pub snapshot_state_defaults :
      List (StateDefaults Ty) → Option (List (StateDefaults Ty))
  snapshot_state_defaults infos = elim data_layout [
    | none ↦ some infos
    | some dl ↦ snapshot_all dl infos
  ]

  -- What is written over the zeros of a new state.
  unfoldable pub fill_state : (has_module : Bool) → StateDefaults Ty → List ℕ → Option (List ℕ)
  fill_state has_module info mem =
      if not (length info.default_bytes == 0)
      then (let n = length info.default_bytes in
          let size = if ltb n info.alloc_size then n else info.alloc_size in
          copy_bytes mem 0 info.default_bytes size)
      else elim info.default_constant [
        | none ↦ some mem
        | some c ↦
            if has_module
            then elim data_layout [ none ↦ some mem | some dl ↦ write_constant dl c mem 0 ]
            else some mem
      ]

  -- `allocateState`: the first none is a write outside the state, the second one a null pointer.
  unfoldable pub allocate_state :
      (malloc : ℕ → Bool) (has_module : Bool) → Option (StateDefaults Ty) → Option (Option (List ℕ))
  allocate_state malloc has_module none = some none
  allocate_state malloc has_module (some info) =
      if not info.has_struct_type || info.alloc_size == 0
      then some none
      else (if malloc info.alloc_size
          then elim (fill_state has_module info (replicate info.alloc_size 0)) [
            | none ↦ none
            | some mem ↦ some (some mem)
          ]
          else some none)

-- `hasState` and `getStateSize`
abbrev pub has_state : {Ty : Type 0} → Option (StateDefaults Ty) → Bool
has_state none = false
has_state (some info) = info.has_struct_type

abbrev pub get_state_size : {Ty : Type 0} → Option (StateDefaults Ty) → ℕ
get_state_size none = 0
get_state_size (some info) = if info.has_struct_type then info.alloc_size else 0
