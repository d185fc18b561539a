-- ===== src/StateAccess/Fields.antt =====
-- Fields that are set and read by name.
use stridejit.Prelude.{
  Bool, List, Option, String, ap, arith, drop, false, get_elem?, leb, length, none, refl, some,
  take, true, wrap_i32, ℕ, ℤ, ◌*◌, ◌+◌, ◌∙◌, ◌≡◌, ◌≤◌,
}
use stridejit.StateAccess.{
  FieldType, int_field, array_field, StateStructInfo, Platform, split_at, find_field, element_size,
  place_of, le_bytes, le_value, to_bits, signed, load, store, get_state_var, set_state_var,
  load_number, number_bytes, parse_name, index_value,
}
use stridejit.StateAccess.Bytes.{
  le_value-four, to_bits-lt, signed-to_bits, store-fits, store-fault, length-stored, load-stored,
  take-stored, drop-stored, with_i32,
}

module _ (P : Platform) (info : StateStructInfo) (field : ℕ) where
  set-steps :
      (mem : List ℕ) (name base_name : String) (index : Option ℕ) (i at_byte : ℕ) (t : FieldType)
      (v : ℤ)
      → parse_name P name index ≡ (base_name, i)
      → find_field info base_name name ≡ some field
      → place_of P info field i ≡ some (some (at_byte, t))
      → set_state_var P (some info) mem name v index
        ≡ elim (store mem at_byte (number_bytes P t v)) as (λ x. Option (Bool × List ℕ)) [
          | none ↦ none
          | some next ↦ some (true, next)
        ]
  unfolding set_state_var
  set-steps mem name base_name index i at_byte t v e f g =
      let base = ap (λ (q : String × ℕ). q.0) e in
      let number = ap (λ (q : String × ℕ). q.1) e in rw (set_state_var, base, f, number, g) refl

  get-steps :
      (mem : List ℕ) (name : String) (index : Option ℕ) (at_byte : ℕ) (t : FieldType)
      → find_field info name name ≡ some field
      → place_of P info field (index_value index) ≡ some (some (at_byte, t))
      → get_state_var P (some info) mem name index
        ≡ elim (load_number P mem at_byte t) as (λ x. Option (Option ℤ)) [
          | none ↦ none
          | some v ↦ some (some v)
        ]
  unfolding get_state_var
  get-steps mem name none at_byte t f g = rw (get_state_var, f, g) refl
  get-steps mem name (some i) at_byte t f g = rw (get_state_var, f, g) refl

  place-plain :
      (offset w i : ℕ)
      → get_elem? info.field_offsets field ≡ some offset
      → get_elem? info.field_types field ≡ some (int_field w)
      → place_of P info field i ≡ some (some (offset, int_field w))
  unfolding place_of
  place-plain offset w i e f = rw (place_of, e, f) refl

  place-array :
      (offset size n i : ℕ) (t : FieldType)
      → get_elem? info.field_offsets field ≡ some offset
      → get_elem? info.field_types field ≡ some (array_field t n)
      → element_size P info field t n ≡ some size
      → place_of P info field i ≡ some (some (offset + i * size, t))
  unfolding place_of
  place-array offset size n i t e f g = rw (place_of, e, f, g) refl

  parse-plain : (name : String) → split_at "[" name ≡ none → parse_name P name none ≡ (name, 0)
  unfolding parse_name
  parse-plain name e = rw (parse_name, e) refl

module _ (P : Platform) (info : StateStructInfo) (mem : List ℕ) (name : String) (field offset : ℕ)
    (plain : split_at "[" name ≡ none) (found : find_field info name name ≡ some field)
    (at_offset : get_elem? info.field_offsets field ≡ some offset) where
  -- A variable of 32 bits, with a name without brackets, that lies in the state: setStateVar with an
  -- i32 succeeds, and getStateVar then gives this number; the state keeps its size, and all bytes
  -- before the variable and behind it.
  pub set_state_var-get :
      (v : ℤ)
      → get_elem? info.field_types field ≡ some (int_field 32)
      → offset + 4 ≤ length mem
      → wrap_i32 v ≡ v
      → (next : List ℕ) × (set_state_var P (some info) mem name v none ≡ some (true, next))
        × (get_state_var P (some info) next name none ≡ some (some v))
        × (length next ≡ length mem)
        × (take offset next ≡ take offset mem)
        × (drop (offset + 4) next ≡ drop (offset + 4) mem)
  unfolding set_state_var get_state_var
  set_state_var-get v type_is inside in_range =
      let bytes = le_bytes 4 (to_bits 32 v) in
      let fits : offset + length bytes ≤ length mem = inside in
      let stores = store-fits mem offset bytes fits in
      let reads = load-stored mem offset 4 bytes fits refl in
      let number : signed 32 (le_value bytes) ≡ v =
        ap (signed 32) (le_value-four (to_bits 32 v) (to_bits-lt v)) ∙ signed-to_bits v in_range in
      (
        with_i32 mem offset v,
        set-steps P info field mem name name none 0 offset (int_field 32) v
              (parse-plain P info field name plain) found
              (place-plain P info field offset 32 0 at_offset type_is)
            ∙ rw stores refl,
        get-steps P info field (with_i32 mem offset v) name none offset (int_field 32) found
              (place-plain P info field offset 32 0 at_offset type_is)
            ∙ rw reads (ap (λ n. some (some n)) number),
        length-stored mem offset bytes fits,
        take-stored mem offset bytes fits,
        drop-stored mem offset bytes fits,
      )

  -- A variable of 16 bits, with a name without brackets: setStateVar writes four bytes. Where the state
  -- goes on behind the variable, the two bytes behind it are overwritten too; where the variable ends
  -- the state, the write leaves the state.
  pub set_state_var-narrow :
      (v : ℤ)
      → get_elem? info.field_types field ≡ some (int_field 16)
      → (offset + 4 ≤ length mem
          → set_state_var P (some info) mem name v none ≡ some (true, with_i32 mem offset v))
        × (offset + 2 ≡ length mem → set_state_var P (some info) mem name v none ≡ none)
  set_state_var-narrow v type_is =
      let bytes = le_bytes 4 (to_bits 32 v) in
      let steps =
        set-steps P info field mem name name none 0 offset (int_field 16) v
          (parse-plain P info field name plain) found
          (place-plain P info field offset 16 0 at_offset type_is) in
      (
        λ fits. steps ∙ rw (store-fits mem offset bytes fits) refl,
        λ last. steps ∙ rw (store-fault mem offset bytes (omega arith)) refl,
      )

  -- An array of `n` numbers of 32 bits that ends the state, with a name without brackets, and an index
  -- that is no index of the array: getStateVar reads outside the state, and setStateVar writes there.
  pub array-unchecked :
      (n i : ℕ) (v : ℤ)
      → get_elem? info.field_types field ≡ some (array_field (int_field 32) n)
      → element_size P info field (int_field 32) n ≡ some 4
      → offset + n * 4 ≡ length mem
      → n ≤ i
      → (get_state_var P (some info) mem name (some i) ≡ none)
        × (set_state_var P (some info) mem name v (some i) ≡ none)
  unfolding parse_name load
  array-unchecked n i v type_is size_is last past =
      let bytes = le_bytes 4 (to_bits 32 v) in
      let placed = place-array P info field offset 4 n i (int_field 32) at_offset type_is size_is in
      let parsed : parse_name P name (some i) ≡ (name, i) = rw (parse_name, plain) refl in
      let outside : leb (offset + i * 4 + 4) (length mem) ≡ false = ground arith in
      let faults : load mem (offset + i * 4) 4 ≡ none = rw (load, outside) refl in
      (
        get-steps P info field mem name (some i) (offset + i * 4) (int_field 32) found placed
            ∙ rw faults refl,
        set-steps P info field mem name name (some i) i (offset + i * 4) (int_field 32) v parsed
              found placed
            ∙ rw (store-fault mem (offset + i * 4) bytes (omega arith)) refl,
      )
