-- ===== src/StateAccess/Bytes.antt =====
-- Bytes that are written and read back.
use stridejit.Prelude.{
  List, ap, arith, drop, drop-append, drop-drop, leb, length, length-append, length-drop,
  length-take, negsuc, none, pos, refl, some, suc, sym, take, take-append, take-drop-take, true,
  wrap_i32, zero, ℕ, ℤ, ◌++◌, ◌+◌, ◌/◌, ◌<◌, ◌^◌, ◌∙◌, ◌≡◌, ◌≤◌,
}
use stridejit.StateAccess.{le_bytes, le_value, to_bits, signed, load, store}

pub length-le_bytes : (w n : ℕ) → length (le_bytes w n) ≡ w
length-le_bytes zero n = refl
length-le_bytes (suc w) n = ap suc (length-le_bytes w (n / 256))

le_value-zero : (w : ℕ) → le_value (le_bytes w 0) ≡ 0
le_value-zero zero = refl
le_value-zero (suc w) = omega (arith, le_value-zero w)

-- Four bytes hold 32 bits.
pub le_value-four : (n : ℕ) → n < 2 ^ 32 → le_value (le_bytes 4 n) ≡ n
le_value-four n h = omega arith

pub to_bits-lt : (v : ℤ) → to_bits 32 v < 2 ^ 32
to_bits-lt (pos n) = omega arith
to_bits-lt (negsuc n) = omega arith

-- An i32 is its own reading.
pub signed-to_bits : (v : ℤ) → wrap_i32 v ≡ v → signed 32 (to_bits 32 v) ≡ v
signed-to_bits (pos n) h = h
signed-to_bits (negsuc n) h = h

-- The bytes of a state after a number of 32 bits is written.
abbrev pub with_i32 : List ℕ → ℕ → ℤ → List ℕ
with_i32 mem offset v =
    take offset mem
    ++ (le_bytes 4 (to_bits 32 v) ++ drop (offset + length (le_bytes 4 (to_bits 32 v))) mem)

module _ {ℓ} {A : Type ℓ} where
  -- What stands at an offset once it is written there.
  written :
      (before bytes behind : List A)
      → take (length bytes) (drop (length before) (before ++ (bytes ++ behind))) ≡ bytes
  written before bytes behind =
      ap (take (length bytes)) (drop-append before (bytes ++ behind)) ∙ take-append bytes behind

pub store-fits :
    (mem : List ℕ) (offset : ℕ) (bytes : List ℕ)
    → offset + length bytes ≤ length mem
    → store mem offset bytes ≡ some (take offset mem ++ (bytes ++ drop (offset + length bytes) mem))
unfolding store
store-fits mem offset bytes h = ground arith

pub store-fault :
    (mem : List ℕ) (offset : ℕ) (bytes : List ℕ)
    → length mem < offset + length bytes
    → store mem offset bytes ≡ none
unfolding store
store-fault mem offset bytes h = ground arith

pub length-stored :
    (mem : List ℕ) (offset : ℕ) (bytes : List ℕ)
    → offset + length bytes ≤ length mem
    → length (take offset mem ++ (bytes ++ drop (offset + length bytes) mem)) ≡ length mem
length-stored mem offset bytes h = omega (
  arith,
  length-append (take offset mem) (bytes ++ drop (offset + length bytes) mem),
  length-append bytes (drop (offset + length bytes) mem),
  length-take offset mem,
  length-drop (offset + length bytes) mem,
)

pub load-stored :
    (mem : List ℕ) (offset size : ℕ) (bytes : List ℕ)
    → offset + length bytes ≤ length mem
    → size ≡ length bytes
    → load (take offset mem ++ (bytes ++ drop (offset + length bytes) mem)) offset size ≡ some bytes
unfolding load
load-stored mem offset size bytes h e =
    let next = take offset mem ++ (bytes ++ drop (offset + length bytes) mem) in
    let same : length (take offset mem) ≡ offset = omega (arith, length-take offset mem) in
    let inside : leb (offset + size) (length next) ≡ true =
      ground (arith, length-stored mem offset bytes h) in
    rw (load, inside)
      (ap some (
        ap (λ n. take n (drop offset next)) e
        ∙ ap (λ n. take (length bytes) (drop n next)) (sym same)
        ∙ written (take offset mem) bytes (drop (offset + length bytes) mem)))

pub take-stored :
    (mem : List ℕ) (offset : ℕ) (bytes : List ℕ)
    → offset + length bytes ≤ length mem
    → take offset (take offset mem ++ (bytes ++ drop (offset + length bytes) mem)) ≡ take offset mem
take-stored mem offset bytes h =
    let next = take offset mem ++ (bytes ++ drop (offset + length bytes) mem) in
    let same : offset ≡ length (take offset mem) = omega (arith, length-take offset mem) in
    ap (λ n. take n next) same
    ∙ take-append (take offset mem) (bytes ++ drop (offset + length bytes) mem)

pub drop-stored :
    (mem : List ℕ) (offset : ℕ) (bytes : List ℕ)
    → offset + length bytes ≤ length mem
    → drop (offset + length bytes) (take offset mem ++ (bytes ++ drop (offset + length bytes) mem))
      ≡ drop (offset + length bytes) mem
drop-stored mem offset bytes h =
    let behind = drop (offset + length bytes) mem in
    let next = take offset mem ++ (bytes ++ behind) in
    let same : length (take offset mem) ≡ offset = omega (arith, length-take offset mem) in
    sym (drop-drop (length bytes) offset (offset + length bytes) next (omega arith))
    ∙ ap (λ n. drop (length bytes) (drop n next)) (sym same)
    ∙ ap (drop (length bytes)) (drop-append (take offset mem) (bytes ++ behind))
    ∙ drop-append bytes behind

-- A write does not change what is read before it.
pub load-before :
    (mem : List ℕ) (offset size at_byte : ℕ) (bytes : List ℕ)
    → at_byte + length bytes ≤ length mem
    → offset + size ≤ at_byte
    → load (take at_byte mem ++ (bytes ++ drop (at_byte + length bytes) mem)) offset size
      ≡ load mem offset size
unfolding load
load-before mem offset size at_byte bytes h before =
    let next = take at_byte mem ++ (bytes ++ drop (at_byte + length bytes) mem) in
    let there : leb (offset + size) (length next) ≡ true =
      ground (arith, length-stored mem at_byte bytes h) in
    let here : leb (offset + size) (length mem) ≡ true = ground arith in
    rw (load, there, here)
      (ap some (
        sym (take-drop-take size offset at_byte next (omega arith))
        ∙ ap (λ l. take size (drop offset l)) (take-stored mem at_byte bytes h)
        ∙ take-drop-take size offset at_byte mem (omega arith)))
