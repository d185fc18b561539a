-- ===== src/Buffer/Ring.antt =====
-- The generated code of a stream buffer, src/binaryexprast.cpp: BufferPushExprAST,
-- BufferViewExprAST and BufferFrameCopyExprAST, and what src/stridegenerator.cpp generates for it at
-- a domain's start and at the end of a tick. Numbers are the unsigned readings of i32 values.
pub mod Slots
pub mod Represents
pub mod Pushes
pub mod View
pub mod Frame
pub mod Runs
pub mod Latest
pub mod Ready
pub mod Overwritten
mod Examples
use stridejit.Prelude.{
  Bool, List, Option, [], abs_ℤ, drop, false, if◌then◌else◌, leb, length, ltb, map, negsuc, none,
  not, of_bits, pos, replicate, set, some, str_eq, take, ℕ, ℤ, ◌%◌, ◌&&◌, ◌*◌, ◌+◌, ◌-◌, ◌/◌, ◌==◌,
  ◌^◌, ◌||◌, ◌∷◌,
}
use mathlib.Core.Option
use stridejit.Buffer.{BufferSpec, storage_size}

-- `Buf`, `Buf_index`, `Buf_count`, `Buf_since`, `Buf_ready`, `Buf_flush`
pub record Ring {ℓ} (A : Type ℓ) : Type ℓ where
  pub storage : List A
  pub index : ℕ
  pub count : ℕ
  pub since : ℕ
  pub ready : Bool
  pub flush : Bool

-- The bits of a 32-bit constant.
abbrev pub bits_of : ℤ → ℕ
bits_of (pos n) = n % 2 ^ 32
bits_of (negsuc n) = 2 ^ 32 - 1 - n % 2 ^ 32

abbrev pub add_i32 : ℕ → ℕ → ℕ
add_i32 a b = (a + b) % 2 ^ 32

abbrev pub sub_i32 : ℕ → ℕ → ℕ
sub_i32 a b = (a + (2 ^ 32 - b % 2 ^ 32)) % 2 ^ 32

-- `hasTriggerEntity`
abbrev pub has_trigger_entity : BufferSpec → Bool
has_trigger_entity spec = not (str_eq spec.trigger_entity "")

-- `start` of the view
unfoldable pub view_start : (capacity frame_size hop : ℕ) (mirrored : Bool) (index count : ℕ) → ℕ
view_start capacity frame_size hop mirrored index count =
    let partial = ltb count frame_size in
    if mirrored
    then (let n = if partial then count else frame_size in sub_i32 (add_i32 index capacity) n)
    else (let block_end = index / hop * hop % 2 ^ 32 in
        let start = add_i32 block_end (sub_i32 capacity frame_size) in
        let wrapped = if leb capacity start then sub_i32 start capacity else start in
        if partial then 0 else wrapped)

module _ {ℓ} {A : Type ℓ} where
  -- A store at a slot, which is a signed number: none is a store out of the storage.
  abbrev pub store_at : List A → ℕ → A → Option (List A)
  store_at storage slot v = elim (of_bits slot) [
    | pos i ↦ if ltb i (length storage) then some (set storage i v) else none
    | negsuc i ↦ none
  ]

  -- The element at a slot, and those after it.
  abbrev pub view_at : List A → ℕ → Option (List A)
  view_at storage slot = elim (of_bits slot) [
    | pos i ↦ if ltb i (length storage) then some (drop i storage) else none
    | negsuc i ↦ none
  ]

  -- The two stores of a sample.
  abbrev pub store_sample : Bool → ℕ → List A → ℕ → A → Option (List A)
  store_sample mirrored capacity storage index v = elim (store_at storage index v) [
    | none ↦ none
    | some once ↦ if mirrored then store_at once (add_i32 index capacity) v else some once
  ]

  -- What follows the stores, from the index, the count and the number of samples since the last
  -- frame.
  unfoldable pub advance :
      (capacity frame_size hop : ℕ) (has_trigger trigger : Bool)
      → Ring A
      → (index count since : ℕ) → List A
      → Ring A
  advance capacity frame_size hop has_trigger trigger ring index count since storage =
      let next_index = add_i32 index 1 in
      let inc_count = add_i32 count 1 in
      let capped_count = if ltb capacity inc_count then capacity else inc_count in
      let inc_since = add_i32 since 1 in
      let frame_ready = leb frame_size capped_count && leb hop inc_since in
      let fires = if has_trigger then frame_ready || trigger else frame_ready in
      record ring {
        storage = storage;
        index = if next_index == capacity then 0 else next_index;
        count = capped_count;
        since = if fires then 0 else inc_since;
        ready = ring.ready || fires;
        flush = if has_trigger then trigger else ring.flush;
      }

  -- One pushed sample, with the sizes of the buffer and the value of its trigger.
  unfoldable pub push_sized :
      (capacity frame_size hop : ℕ) (mirrored has_trigger : Bool)
      → Ring A
      → A
      → (trigger : Bool) → Option (Ring A)
  push_sized capacity frame_size hop mirrored has_trigger ring v trigger =
      let flushed = has_trigger && ring.flush in
      let index = if flushed then 0 else ring.index in
      let count = if flushed then 0 else ring.count in
      let since = if flushed then 0 else ring.since in
      Option.map (advance capacity frame_size hop has_trigger trigger ring index count since)
        (store_sample mirrored capacity ring.storage index v)

  abbrev pub push : BufferSpec → Ring A → A → (trigger : Bool) → Option (Ring A)
  push spec =
      push_sized (bits_of spec.capacity) (bits_of spec.frame_size) (bits_of spec.hop) spec.mirrored
        (has_trigger_entity spec)

  abbrev pub view_sized : (capacity frame_size hop : ℕ) (mirrored : Bool) → Ring A → Option (List A)
  view_sized capacity frame_size hop mirrored ring =
      view_at ring.storage (view_start capacity frame_size hop mirrored ring.index ring.count)

  abbrev pub view : BufferSpec → Ring A → Option (List A)
  view spec =
      view_sized (bits_of spec.capacity) (bits_of spec.frame_size) (bits_of spec.hop) spec.mirrored

  -- The copy of `size` elements: none reads past the end of the storage.
  abbrev pub copy : ℕ → List A → Option (List A)
  copy size source = if leb size (length source) then some (take size source) else none

  -- The copy of a frame to an array of its size.
  abbrev pub frame_copy_sized :
      (capacity frame_size hop : ℕ) (mirrored : Bool) → Ring A → Option (List A)
  frame_copy_sized capacity frame_size hop mirrored ring =
      elim (view_sized capacity frame_size hop mirrored ring) [
        | none ↦ none
        | some source ↦ copy frame_size source
      ]

  abbrev pub frame_copy : BufferSpec → Ring A → Option (List A)
  frame_copy spec =
      frame_copy_sized (bits_of spec.capacity) (bits_of spec.frame_size) (bits_of spec.hop)
        spec.mirrored

  -- The storage, of the element type's zeros, and the private state.
  abbrev pub initial : BufferSpec → A → Ring A
  initial spec zero_value = record {
    storage = replicate (abs_ℤ (storage_size spec)) zero_value;
    index = 0;
    count = 0;
    since = 0;
    ready = false;
    flush = false;
  }

  -- The trigger `ready` turns off at the end of the domain's tick.
  abbrev pub end_tick : Ring A → Ring A
  end_tick ring = record ring { ready = false }

  -- The domain's init function: stored samples are left in place.
  abbrev pub init : BufferSpec → Ring A → Ring A
  init spec ring = record ring {
    index = 0;
    count = 0;
    since = 0;
    ready = false;
    flush = if has_trigger_entity spec then false else ring.flush;
  }

pub data Event {ℓ} (A : Type ℓ) : Type ℓ where
  sample : A → (trigger : Bool) → Event A
  tick_ends restarts : Event A

abbrev pub on_event {ℓ} : {A : Type ℓ} → BufferSpec → Ring A → Event A → Option (Ring A)
on_event spec ring (sample v trigger) = push spec ring v trigger
on_event spec ring tick_ends = some (end_tick ring)
on_event spec ring restarts = some (init spec ring)

unfoldable pub run_events {ℓ} :
    {A : Type ℓ} → BufferSpec → List (Event A) → Ring A → Option (Ring A)
run_events spec [] ring = some ring
run_events spec (e ∷ es) ring = elim (on_event spec ring e) [
  | none ↦ none
  | some next ↦ run_events spec es next
]
