-- ===== src/StateAccess/Requests.antt =====
-- A transition that is requested is read back.
use stridejit.Prelude.{
  List, String, ap, arith, length, none, refl, some, true, wrap_i32, ℕ, ℤ, ◌+◌, ◌∙◌, ◌≡◌, ◌≤◌,
}
use stridejit.StateMachine.{transition_request_id, transition_request_arg}
use stridejit.StateAccess.{
  StateStructInfo, offset_of, le_bytes, le_value, to_bits, signed, load_i32, store_argument,
  request_transition, get_transition_request_id,
}
use stridejit.StateAccess.Bytes.{
  le_value-four, to_bits-lt, signed-to_bits, store-fits, length-stored, load-stored, load-before,
  with_i32,
}

load_i32-with :
    (mem : List ℕ) (offset : ℕ) (v : ℤ)
    → offset + 4 ≤ length mem
    → wrap_i32 v ≡ v
    → load_i32 (with_i32 mem offset v) (some offset) ≡ some (some v)
load_i32-with mem offset v inside in_range =
    let bytes = le_bytes 4 (to_bits 32 v) in
    let reads = load-stored mem offset 4 bytes inside refl in
    let number : signed 32 (le_value bytes) ≡ v =
      ap (signed 32) (le_value-four (to_bits 32 v) (to_bits-lt v)) ∙ signed-to_bits v in_range in
    rw (load_i32, reads) (ap (λ n. some (some n)) number)

load_i32-before :
    (mem : List ℕ) (offset at_byte : ℕ) (v : ℤ)
    → at_byte + 4 ≤ length mem
    → offset + 4 ≤ at_byte
    → load_i32 (with_i32 mem at_byte v) (some offset) ≡ load_i32 mem (some offset)
load_i32-before mem offset at_byte v inside before =
    let same = load-before mem offset 4 at_byte (le_bytes 4 (to_bits 32 v)) inside before in
    rw (load_i32, same) refl

module _ (info : StateStructInfo) (sm_name : String) (offset : ℕ) (mem : List ℕ)
    (id_at : offset_of info transition_request_id sm_name "" ≡ some offset)
    (inside : offset + 4 ≤ length mem) where
  -- A machine that has a request variable in the state: requestTransition without an argument succeeds,
  -- and getTransitionRequestId then gives the id. With an argument, for which there is a variable
  -- behind the other one, it succeeds too, both are read back, and the state keeps its size.
  pub request_transition-get :
      (id : ℤ)
      → wrap_i32 id ≡ id
      → ((next : List ℕ) × (request_transition info mem id sm_name none ≡ some (true, next))
          × (get_transition_request_id info next sm_name ≡ some (some id)))
        × ((at_byte : ℕ) (arg : ℤ)
            → offset_of info transition_request_arg sm_name "" ≡ some at_byte
            → offset + 4 ≤ at_byte
            → at_byte + 4 ≤ length mem
            → wrap_i32 arg ≡ arg
            → (next : List ℕ) × (request_transition info mem id sm_name (some arg)
                ≡ some (true, next))
              × (get_transition_request_id info next sm_name ≡ some (some id))
              × (load_i32 next (offset_of info transition_request_arg sm_name "") ≡ some (some arg))
              × (length next ≡ length mem))
  unfolding request_transition get_transition_request_id
  request_transition-get id in_range =
      let first = with_i32 mem offset id in
      let stores = store-fits mem offset (le_bytes 4 (to_bits 32 id)) inside in
      let size = length-stored mem offset (le_bytes 4 (to_bits 32 id)) inside in
      let reads = load_i32-with mem offset id inside in_range in
      (
        (
          first,
          rw (request_transition, id_at, stores) refl,
          rw (get_transition_request_id, id_at) reads,
        ),
        λ at_byte arg arg_at behind fits arg_range.
            let fits' : at_byte + 4 ≤ length first = omega (arith, size) in
            let second = with_i32 first at_byte arg in
            let stores' = store-fits first at_byte (le_bytes 4 (to_bits 32 arg)) fits' in
            (
              second,
              rw (request_transition, id_at, stores, store_argument, arg_at, stores') refl,
              rw (get_transition_request_id, id_at)
                  (load_i32-before first offset at_byte arg fits' behind ∙ reads),
              rw arg_at (load_i32-with first at_byte arg fits' arg_range),
              length-stored first at_byte (le_bytes 4 (to_bits 32 arg)) fits' ∙ size,
            ),
      )
