-- ===== src/Buffer/Ring/Frame.antt =====
-- What a consumer of a ready buffer reads.
use native.Mathlib.Nat.{mod-lt, mod-le, zero-mod}
use Prim.Native.Nat.{min}
use stridejit.Prelude.{
  Bool, List, ap, arith, drop, false, length, ltb, refl, some, sym, take, take-of_le, true, ℕ, ◌%◌,
  ◌+◌, ◌-◌, ◌<◌, ◌^◌, ◌∙◌, ◌≡◌, ◌≤◌,
}
use stridejit.Buffer.Frames.{multiple_fits}
use stridejit.Buffer.Ring.{Ring, view_at, view_sized, view_start, copy}
use stridejit.Buffer.Ring.Slots.{view_at-small}
use stridejit.Buffer.Ring.Represents.{Stream, IsSized, Represents}
use stridejit.Buffer.Ring.View.{
  mirrored_start, mirrored_window, plain_window, block_start, whole_block,
}

module _ {ℓ} {A : Type ℓ} where
  -- A view and a copy of a frame that lies inside the storage.
  pub view_sized-some :
      (capacity frame_size hop : ℕ) (mirrored : Bool) (ring : Ring A) (start : ℕ)
      → 0 < frame_size
      → start + frame_size ≤ length ring.storage
      → length ring.storage < 2 ^ 31
      → view_start capacity frame_size hop mirrored ring.index ring.count ≡ start
      → view_sized capacity frame_size hop mirrored ring ≡ some (drop start ring.storage)
  view_sized-some capacity frame_size hop mirrored ring start p room small e =
      ap (view_at ring.storage) e ∙ view_at-small ring.storage start (omega arith) (omega arith)

  pub copy-some :
      (size : ℕ) (source : List A)
      → size ≤ length source
      → copy size source ≡ some (take size source)
  copy-some size source h = ground arith

  module _ (capacity frame_size hop : ℕ) (has_trigger : Bool) (ring : Ring A) (s : Stream A) where
    -- The newest samples of a mirrored ring, at most a frame of them.
    pub mirrored_view :
        IsSized capacity frame_size hop true
        → Represents capacity frame_size hop true has_trigger ring s
        → (start : ℕ) × (view_sized capacity frame_size hop true ring
            ≡ some (drop start ring.storage))
          × (start + frame_size ≤ length ring.storage)
          × (take (min (length s.samples) frame_size) (drop start ring.storage)
              ≡ drop (length s.samples - min (length s.samples) frame_size) s.samples)
    mirrored_view sized rep =
        let n = length s.samples in
        let m = min n frame_size in
        let p : 0 < capacity = omega arith in
        let low = mod-lt n p in
        let size = rep.holds.length_is in
        let room : n % capacity + capacity - m + frame_size ≤ length ring.storage =
          omega (arith, low, mod-le n capacity, size) in
        let start : view_start capacity frame_size hop true ring.index ring.count
            ≡ n % capacity + capacity - m =
          rw (rep.index_is, rep.count_is) (mirrored_start capacity frame_size hop n sized) in
        (
          n % capacity + capacity - m,
          view_sized-some capacity frame_size hop true ring (n % capacity + capacity - m)
              (omega arith) room (omega (arith, size)) start,
          room,
          mirrored_window capacity frame_size hop n ring.storage s.samples refl m (omega arith)
              (omega arith) p rep.holds,
        )

    -- The last whole block of a ring that is not mirrored.
    pub plain_view :
        IsSized capacity frame_size hop false
        → Represents capacity frame_size hop false has_trigger ring s
        → frame_size ≤ length s.samples
        → length s.samples % hop + hop ≤ capacity
        → (start : ℕ) × (view_sized capacity frame_size hop false ring
            ≡ some (drop start ring.storage))
          × (start + frame_size ≤ length ring.storage)
          × (take frame_size (drop start ring.storage)
              ≡ take frame_size (drop (length s.samples - length s.samples % hop - hop) s.samples))
    plain_view sized rep le fresh =
        let n = length s.samples in
        let k = n - n % hop - hop in
        let (same, divides) = sized.4 refl in
        let (enough, q, multiple) = whole_block capacity frame_size hop n sized.0 (omega arith) in
        let p : 0 < capacity = omega arith in
        let size = rep.holds.length_is in
        let fits : k % capacity + frame_size ≤ capacity =
          rw multiple (omega (arith, multiple_fits q hop capacity divides p)) in
        let start : view_start capacity frame_size hop false ring.index ring.count ≡ k % capacity =
          rw (rep.index_is, rep.count_is)
            (block_start capacity frame_size hop n sized (omega arith)) in
        (
          k % capacity,
          view_sized-some capacity frame_size hop false ring (k % capacity) (omega arith)
              (omega (arith, fits, size)) (omega (arith, size)) start,
          omega (arith, fits, size),
          plain_window capacity frame_size hop n ring.storage s.samples refl k frame_size fits
              (omega (arith, enough)) (omega (arith, enough)) p rep.holds,
        )

    -- The samples of a ring that is not mirrored and has no whole frame yet.
    pub partial_view :
        IsSized capacity frame_size hop false
        → Represents capacity frame_size hop false has_trigger ring s
        → length s.samples < frame_size
        → (view_sized capacity frame_size hop false ring ≡ some (drop 0 ring.storage))
          × (frame_size ≤ length ring.storage)
          × (take (length s.samples) ring.storage ≡ s.samples)
    unfolding view_start
    partial_view sized rep lt =
        let n = length s.samples in
        let size = rep.holds.length_is in
        let few : ltb ring.count frame_size ≡ true = rw rep.count_is (ground arith) in
        let zero_mod : 0 % capacity ≡ 0 = zero-mod capacity in
        let start : view_start capacity frame_size hop false ring.index ring.count ≡ 0 =
          rw few refl in
        let window =
          plain_window capacity frame_size hop n ring.storage s.samples refl 0 n
            (omega (arith, zero_mod)) (omega arith) (omega arith) (omega arith) rep.holds in
        (
          view_sized-some capacity frame_size hop false ring 0 (omega arith) (omega (arith, size))
              (omega (arith, size)) start,
          omega (arith, size),
          ap (λ i. take n (drop i ring.storage)) (sym zero_mod)
              ∙ window
              ∙ take-of_le n s.samples (omega arith),
        )
