-- ===== src/Buffer/Ring/View.antt =====
-- The frame that BufferViewExprAST gives, as a window of the samples since the last flush.
use native.Mathlib.Nat.{
  mod-lt, mod-le, mod-add-mod, mod-eq_of_lt, mod-mod_of_dvd, dvd_of_mod-eq-zero, div-add-mod',
  suc-mul,
}
use Prim.Native.Nat.{min}
use stridejit.Prelude.{
  Bool-cases, List, ap, arith, drop, false, get_elem?, if◌then◌else◌, inl, inr, leb, leb→le, leb→lt,
  length, length-drop, ltb, refl, suc, sym, take, take-of_le, true, window_ext, zero, ℕ, ◌%◌, ◌*◌,
  ◌+◌, ◌-◌, ◌/◌, ◌<◌, ◌^◌, ◌∙◌, ◌≡◌, ◌≤◌,
}
use stridejit.Buffer.Ring.{view_start, add_i32, sub_i32}
use stridejit.Buffer.Ring.Slots.{add_small, sub_small, slot_back, slot_round}
use stridejit.Buffer.Ring.Represents.{IsSized, Holds}

module _ (capacity frame_size hop n : ℕ) where
  -- Where the newest samples start in a mirrored storage.
  pub mirrored_start :
      IsSized capacity frame_size hop true
      → view_start capacity frame_size hop true (n % capacity) (min n capacity)
        ≡ n % capacity + capacity - min n frame_size
  unfolding view_start
  mirrored_start sized =
      let low = mod-lt n (let p : 0 < capacity = omega arith in p) in
      let top = add_small (n % capacity) capacity (omega (arith, low)) in
      let len : (if ltb (min n capacity) frame_size then min n capacity else frame_size)
          ≡ min n frame_size =
        ground arith in
      rw (top, len)
        (sub_small (n % capacity + capacity) (min n frame_size) (omega arith) (omega (arith, low)))

  module _ {ℓ} {A : Type ℓ} (storage xs : List A) (long : length xs ≡ n) where
    -- The newest samples stand without a break, at the end of the first copy of the ring and at the
    -- start of the second.
    pub mirrored_window :
        (m : ℕ)
        → m ≤ n
        → m ≤ capacity
        → 0 < capacity
        → Holds capacity true storage xs
        → take m (drop (n % capacity + capacity - m) storage) ≡ drop (n - m) xs
    mirrored_window m le le' p holds =
        window_ext m (n % capacity + capacity - m) (n - m) storage xs at_slot
        ∙ take-of_le m (drop (n - m) xs) (omega (arith, length-drop (n - m) xs))
      where
        at_slot :
            (i : ℕ)
            → i < m
            → get_elem? storage (n % capacity + capacity - m + i) ≡ get_elem? xs (n - m + i)
        at_slot i lt =
            let k = n - m + i in
            let d = m - i in
            let low = mod-lt n p in
            elim (Bool-cases (leb d (n % capacity))) [
              | inl e ↦
                  let near = leb→le d (n % capacity) e in
                  let slot = slot_back n capacity k d (omega arith) near low in
                  let same : n % capacity + capacity - m + i ≡ capacity + k % capacity =
                    omega (arith, slot, near) in
                  ap (get_elem? storage) same ∙ holds.mirror refl k (omega arith) (omega arith)
              | inr e ↦
                  let far = leb→lt d (n % capacity) e in
                  let slot = slot_round n capacity k d (omega arith) far (omega arith) in
                  let same : n % capacity + capacity - m + i ≡ 0 + k % capacity =
                    omega (arith, slot, far) in
                  ap (get_elem? storage) same ∙ holds.slots k (omega arith) (omega arith)
            ]

    -- A window of the ring that does not reach its end.
    pub plain_window :
        (m len : ℕ)
        → m % capacity + len ≤ capacity
        → m + len ≤ n
        → n ≤ m + capacity
        → 0 < capacity
        → Holds capacity false storage xs
        → take len (drop (m % capacity) storage) ≡ take len (drop m xs)
    plain_window m len room le le' p holds = window_ext len (m % capacity) m storage xs λ i lt.
        let slot : m % capacity + i ≡ (m + i) % capacity =
          sym (sym (mod-add-mod m capacity i) ∙ mod-eq_of_lt (omega arith)) in
        let same : m % capacity + i ≡ 0 + (m + i) % capacity = omega (arith, slot) in
        ap (get_elem? storage) same ∙ holds.slots (m + i) (omega arith) (omega arith)

  -- The block before the one that starts at slot `b`.
  block_before :
      (b : ℕ)
      → b < capacity
      → hop ≤ capacity
      → capacity + capacity < 2 ^ 31
      → (let start = add_i32 (b % 2 ^ 32) (sub_i32 capacity hop) in
          if leb capacity start then sub_i32 start capacity else start)
        ≡ (if leb hop b then b - hop else b + capacity - hop)
  block_before b low le small =
      let cut : b % 2 ^ 32 ≡ b = omega arith in
      let less = sub_small capacity hop le (omega arith) in
      let start = add_small b (capacity - hop) (omega arith) in
      elim (Bool-cases (leb hop b)) [
        | inl e ↦
            let over = leb→le hop b e in
            let back = sub_small (b + (capacity - hop)) capacity (omega arith) (omega arith) in
            rw (cut, less, start, back) (ground arith)
        | inr e ↦ rw (cut, less, start) (ground arith)
      ]

  pub whole_block :
      0 < hop → hop ≤ n → (hop ≤ n - n % hop) × (q : ℕ) × (n - n % hop - hop ≡ q * hop)
  whole_block p le = blocks (n / hop) (div-add-mod' n hop)
    where
      blocks :
          (q : ℕ)
          → q * hop + n % hop ≡ n
          → (hop ≤ n - n % hop) × (q : ℕ) × (n - n % hop - hop ≡ q * hop)
      blocks zero e = absurd (omega (arith, mod-lt n p))
      blocks (suc q) e = (omega (arith, suc-mul q hop), q, omega (arith, suc-mul q hop))

  -- The block before the last that is whole, by its number and by its slot.
  block_slot :
      0 < hop
      → hop ≤ n
      → hop ≤ capacity
      → capacity % hop ≡ 0
      → (n - n % hop - hop) % capacity
        ≡ (let b = n % capacity / hop * hop in if leb hop b then b - hop else b + capacity - hop)
  block_slot p le le' divides =
      let low = mod-lt n (let q : 0 < capacity = omega arith in q) in
      let rest = mod-mod_of_dvd hop n (dvd_of_mod-eq-zero hop divides) in
      let whole = div-add-mod' (n % capacity) hop in
      let inside : n % hop ≤ n % capacity = omega (arith, rest, whole) in
      let slot =
        slot_back n capacity (n - n % hop) (n % hop) (omega (arith, mod-le n hop)) inside low in
      let same : (n - n % hop) % capacity ≡ n % capacity / hop * hop =
        omega (arith, slot, rest, whole) in
      let some_block = (whole_block p le).0 in
      let before : n - n % hop - hop + hop ≡ n - n % hop = omega arith in
      elim (Bool-cases (leb hop (n % capacity / hop * hop))) [
        | inl e ↦
            let over = leb→le hop (n % capacity / hop * hop) e in
            rw e (
              slot_back (n - n % hop) capacity (n - n % hop - hop) hop before
                (omega (arith, same, over)) (omega (arith, same, whole, low))
              ∙ ap (λ m. m - hop) same)
        | inr e ↦
            let under = leb→lt hop (n % capacity / hop * hop) e in
            rw e (
              slot_round (n - n % hop) capacity (n - n % hop - hop) hop before
                (omega (arith, same, under)) le'
              ∙ ap (λ m. m + capacity - hop) same)
      ]

  -- The start of the last whole block of a storage that is not mirrored.
  pub block_start :
      IsSized capacity frame_size hop false
      → hop ≤ n
      → view_start capacity frame_size hop false (n % capacity) (min n capacity)
        ≡ (n - n % hop - hop) % capacity
  unfolding view_start
  block_start sized le =
      let (p, le', le'', small, even) = sized in
      let (same, divides) = even refl in
      let low = mod-lt n (let q : 0 < capacity = omega arith in q) in
      let whole = div-add-mod' (n % capacity) hop in
      let full : ltb (min n capacity) frame_size ≡ false = ground arith in
      rw (full, same)
        (block_before (n % capacity / hop * hop) (omega (arith, low, whole)) (omega arith) small
          ∙ sym (block_slot p le (omega arith) divides))
